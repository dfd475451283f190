-- ===== src/Tests/Declarations.antt =====
-- codegen/helpers.ts and utils/utils.ts: declarations and unwrapping of the types of the fixtures.
use typespec_rust.Prelude.{
  ℕ, zero, suc, Text, text, none, some, List, [], ◌∷◌, ◌↔◌, ◌≡◌, refl, arith, length, map, ◌+◌,
}
use typespec_rust.Codemodel.Types.{RustType}
use typespec_rust.Codemodel.Types.RustType.{model, ref, box, option, vec}
use typespec_rust.Codegen.Declaration.{
  default, anonymous, omit, get_type_declaration, unwrap_type, named, ref_text,
}
use typespec_rust.Codegen.Declaration.Lifetimes.{get_type_declaration-LifetimeFree}
use typespec_rust.Codegen.Declaration.Nests.{Nests, IsPlain}
use typespec_rust.Codegen.Declaration.Parts.{PlainHeap}
use typespec_rust.Codegen.Declaration.Brackets.{get_type_declaration-Nests}
use typespec_rust.Codegen.Declaration.Unwrapping.{Reaches, IsOpened, unwrap_type_iff}
use typespec_rust.Codegen.UniqueName.{get_unique_var_name, parameter_name}
use typespec_rust.Codegen.UniqueName.Found.{Ends, get_unique_var_name-Ends}
use typespec_rust.Tests.Fixtures.{heap, heap_models, owners, parameter}

owners_declared : get_type_declaration heap owners default ≡ text "HashMap<String, Option<Owner>>"
unfolding get_type_declaration named
owners_declared = refl

get_type_declaration-LifetimeFree_example :
    get_type_declaration heap owners anonymous ≡ get_type_declaration heap owners omit
get_type_declaration-LifetimeFree_example =
    get_type_declaration-LifetimeFree heap owners anonymous omit refl

-- &'a Pet
abbrev borrowed : RustType
borrowed = ref (model 0) (some (record { name = text "'a" }))

boxed_keeps : get_type_declaration heap (box borrowed) omit ≡ text "Box<&'a Pet>"
unfolding get_type_declaration named ref_text
boxed_keeps = refl

models-IsPlain : (m : ℕ) → IsPlain (heap_models m).name
models-IsPlain zero = omega arith
models-IsPlain (suc m) = omega arith

models-static : (m : ℕ) → (heap_models m).lifetime ≡ none
models-static zero = refl
models-static (suc m) = refl

heap-PlainHeap : PlainHeap heap
heap-PlainHeap = record {
  models = models-IsPlain;
  model_lifetimes = λ m l h. absurd (ground (arith, models-static m));
  enums = λ e. omega arith;
  unions = λ i. omega arith;
  untagged_unions = λ i. omega arith;
  structs = λ s. omega arith;
  struct_lifetimes = λ s l h. absurd (ground arith);
}

get_type_declaration-Nests_example : Nests (get_type_declaration heap owners default)
get_type_declaration-Nests_example =
    get_type_declaration-Nests heap owners default heap-PlainHeap (ground arith)

unwrap_type_iff_example :
    (unwrap_type owners ≡ model 1) ↔ (Reaches owners (model 1) × (¬ IsOpened (model 1)))
unwrap_type_iff_example = unwrap_type_iff owners (model 1)

owners_unwrapped : unwrap_type owners ≡ model 1
unfolding unwrap_type
owners_unwrapped = refl

boxed_stays : unwrap_type (option (box (vec (model 0)))) ≡ box (vec (model 0))
unfolding unwrap_type
boxed_stays = refl

abbrev wanted : List Text
wanted = text "url" ∷ text "request" ∷ []

numbered_last :
    get_unique_var_name (parameter (text "url") ∷ parameter (text "request") ∷ []) wanted
    ≡ some (text "request_0")
unfolding get_unique_var_name
numbered_last = refl

get_unique_var_name-Ends_example :
    Ends
      (map parameter_name (parameter (text "url") ∷ []))
      wanted
      (get_unique_var_name (parameter (text "url") ∷ []) wanted)
      0
      (length wanted + 1 + 1)
get_unique_var_name-Ends_example = get_unique_var_name-Ends (parameter (text "url") ∷ []) wanted
