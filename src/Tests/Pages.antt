-- ===== src/Tests/Pages.antt =====
-- codegen/context.ts: a paged response whose items are in a nested model.
use typespec_rust.Prelude.{ℕ, zero, suc, Text, text, false, none, some, [], ◌∷◌, ◌≡◌, refl}
use typespec_rust.Codemodel.Kinds.{public, ModelId}
use typespec_rust.Codemodel.Types.{RustType}
use typespec_rust.Codemodel.Types.RustType.{model, vec, str}
use typespec_rust.Codemodel.Objects.{Heap, Model, ModelField, model_field}
use typespec_rust.Codegen.Context.Formats.{done, out_of_fuel}
use typespec_rust.Codegen.Context.Pages.{find_page_items}
use typespec_rust.Tests.Fixtures.{no_docs, heap, pet}

abbrev flagged : Text → RustType → ModelField
flagged name type = record {
  base = record {
    name = name;
    docs = no_docs;
    visibility = public;
    type = type;
    default_value = none;
    default_value_constant = none;
  };
  serde = name;
  flags = 9;
  optional = false;
  customizations = [];
  xml_kind = none;
}

abbrev page_models : ℕ → Model
page_models zero = record pet { fields = model_field (flagged (text "body") (model 1)) ∷ [] }
page_models (suc m) = record pet { fields = model_field (flagged (text "values") (vec str)) ∷ [] }

abbrev page_heap : Heap
page_heap = record heap { models = page_models }

abbrev rank : ModelId → ℕ
rank zero = 1
rank (suc m) = 0

body_values :
    find_page_items page_heap 2 0
    ≡ done (some (text "body" ∷ text "values" ∷ [], flagged (text "values") (vec str)))
unfolding find_page_items
body_values = refl

too_little_fuel : find_page_items page_heap 1 0 ≡ out_of_fuel
unfolding find_page_items
too_little_fuel = refl
