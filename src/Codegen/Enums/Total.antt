-- ===== src/Codegen/Enums/Total.antt =====
-- codegen/enums.ts: `emitEnums` throws no error.
use typespec_rust.Prelude.{ℕ, Text, text, true, false, List, [], ◌∷◌, ◌≡◌, refl, if◌then◌else◌, ◌∙◌}
use typespec_rust.Prelude.Result.{Result, ok, err, ◌>>=◌}
use typespec_rust.Codemodel.Kinds.{EnumId, EnumValue}
use typespec_rust.Codemodel.Crate.{ModuleContainer}
use typespec_rust.Codemodel.Objects.{Enum, Heap}
use typespec_rust.Codegen.Use.{Use, new_use, models_other}
use typespec_rust.Codegen.Indentation.{Emit, ◌+>◌, each, pure, new_indentation}
use typespec_rust.Codegen.Context.Populate.{Context}
use typespec_rust.Codegen.Emission.{
  Account, Sound, line-Sound, push-Sound, pop-Sound, pure-Sound, seq-Sound,
}
use typespec_rust.Codegen.Emission.Braces.{using}
use typespec_rust.Codegen.Enums.Definitions.{
  doc_lines, variant_lines, unknown_variant, variants, emit_enum_public_definitions,
  definitions_text, emit_enum_definitions,
}
use typespec_rust.Codegen.Enums.Files.{
  emit_file, emit_enums_serde, emit_enums_impls, serde_text, impls_text, Enums, emit_enums,
}
use typespec_rust.Codegen.Enums.Sound.{PlainEnums, serde_text-Sound, impls_text-Sound}

-- Only the indentation counts.
abbrev bare : Account (Unit {0})
bare = record {
  Kept = λ a b. Unit;
  kept_refl = λ a. tt;
  kept_trans = λ a b c p q. tt;
  Counts = λ n t m. n ≡ m;
  counts_empty = λ k. refl;
  counts_append = λ a b c t u p q. p ∙ q;
  counts_spaces = λ k n. refl;
}

infixl 5 ◌▸◌
◌▸◌ :
    {n m p k l q : ℕ} {e f : Emit (Unit {0}) Text}
    → Sound bare n k e m l
    → Sound bare m l f p q
    → Sound bare n k (e +> f) p q
◌▸◌ a b = seq-Sound bare a b

doc_lines-Sound : {n k : ℕ} (t : Text) → Sound bare n k (doc_lines t) n k
unfolding doc_lines
doc_lines-Sound [] = pure-Sound bare [] refl
doc_lines-Sound (c ∷ t) = line-Sound bare _ refl

variant_lines-Sound : {n k : ℕ} (v : EnumValue) → Sound bare n k (variant_lines v) n k
unfolding variant_lines
variant_lines-Sound v = doc_lines-Sound _ ▸ line-Sound bare _ refl ▸ pure-Sound bare _ refl

unknown_variant-Sound : {n k : ℕ} (e : Enum) → Sound bare n k (unknown_variant e) n k
unfolding unknown_variant
unknown_variant-Sound e = line-Sound bare _ refl ▸ line-Sound bare _ refl

variants-Sound : {n k : ℕ} (e : Enum) (vs : List EnumValue) → Sound bare n k (variants e vs) n k
unfolding variants
variants-Sound e [] = pure-Sound bare [] refl
variants-Sound {n} {k} e (v ∷ []) =
    variant_lines-Sound v
    ▸ elim e.extensible as (λ b. Sound bare n k (if b then unknown_variant e else pure []) n k) [
      | true ↦ unknown_variant-Sound e
      | false ↦ pure-Sound bare [] refl
    ]
variants-Sound e (v ∷ w ∷ vs) = variant_lines-Sound v ▸ variants-Sound e (w ∷ vs)

emit_enum_public_definitions-Sound :
    {n k : ℕ} (e : Enum) → Sound bare n k (emit_enum_public_definitions e) n k
unfolding emit_enum_public_definitions
emit_enum_public_definitions-Sound e =
    doc_lines-Sound _
    ▸ line-Sound bare _ refl
    ▸ line-Sound bare _ refl
    ▸ push-Sound bare
    ▸ variants-Sound e e.values
    ▸ pop-Sound bare
    ▸ line-Sound bare _ refl

definitions_text-Sound :
    {n k : ℕ} (h : Heap) (es : List EnumId) → Sound bare n k (definitions_text h es) n k
unfolding definitions_text each
definitions_text-Sound h [] = pure-Sound bare [] refl
definitions_text-Sound h (e ∷ es) =
    emit_enum_public_definitions-Sound (h.enums e) ▸ definitions_text-Sound h es

abbrev Succeeds : {A : Type 0} → Result A → Type 0
Succeeds {A} r = (a : A) × (r ≡ ok a)

bind-Succeeds :
    {A B : Type 0} (r : Result A) (f : A → Result B)
    → Succeeds r
    → ((a : A) → Succeeds (f a))
    → Succeeds (r >>= f)
bind-Succeeds (ok a) f s h = h a
bind-Succeeds (err e) f (a, same) h = cc

Sound-Succeeds :
    {S : Type 0} (A : Account S) {n k m l : ℕ} (e : Emit S Text) (s : S)
    → Sound A n k e m l
    → Succeeds (e s (record { level = n }))
Sound-Succeeds A e s h = let x = h.run s in (_, x.succeeds)

emit_enum_definitions-Succeeds :
    (h : Heap) (es : List EnumId) → Succeeds (emit_enum_definitions h es)
unfolding emit_enum_definitions new_indentation
emit_enum_definitions-Succeeds h es =
    bind-Succeeds _ _
      (Sound-Succeeds bare {k = 0} (definitions_text h es) tt (definitions_text-Sound h es))
      (λ r. (_, refl))

emit_file-Succeeds :
    {P : Type 0} (name : Text) (container : ModuleContainer) (body : Emit Use Text)
    → Sound (using P) 1 0 body 1 0
    → Succeeds (emit_file name container body)
unfolding emit_file new_indentation
emit_file-Succeeds {P} name container body h =
    bind-Succeeds _ _ (Sound-Succeeds (using P) {k = 0} body (new_use container models_other) h)
      (λ r. (_, refl))

emit_enums_serde-Succeeds :
    (h : Heap) (container : ModuleContainer) (es : List EnumId)
    → Succeeds (emit_enums_serde h container es)
unfolding emit_enums_serde
emit_enums_serde-Succeeds h container es =
    emit_file-Succeeds (text "enums_serde") container (serde_text h es)
      (serde_text-Sound h es (λ (p : PlainEnums h es). p))

emit_enums_impls-Succeeds :
    (h : Heap) (c : Context) (container : ModuleContainer) (es : List EnumId)
    → Succeeds (emit_enums_impls h c container es)
unfolding emit_enums_impls
emit_enums_impls-Succeeds h c container es =
    emit_file-Succeeds (text "enums_impl") container (impls_text h c es)
      (impls_text-Sound h c es (λ (p : PlainEnums h es). p))

-- `emitEnums` throws no error: it gives its files for any enums of a module, whatever their names, values and docs are.
pub emit_enums_total :
    (h : Heap) (c : Context) (container : ModuleContainer) (es : List EnumId)
    → (enums : Enums) × (emit_enums h c container es ≡ ok enums)
unfolding emit_enums
emit_enums_total h c container [] = (_, refl)
emit_enums_total h c container (e ∷ es) =
    bind-Succeeds _ _ (emit_enum_definitions-Succeeds h (e ∷ es)) (λ d.
      bind-Succeeds _ _ (emit_enums_serde-Succeeds h container (e ∷ es)) (λ s.
        bind-Succeeds _ _ (emit_enums_impls-Succeeds h c container (e ∷ es)) (λ i. (_, refl))))
