-- ===== src/Codegen/Context/Items.antt =====
-- codegen/context.ts, `getPageImplForType`: the search for the field of a page's items ends and is right.
use typespec_rust.Prelude.{ℕ, ◌<◌, Text, Option, none, some, List, [], ◌∷◌, ◌≡◌}
use typespec_rust.Codemodel.Kinds.{ModelId}
use typespec_rust.Codemodel.Objects.{Heap, ModelField}
use typespec_rust.Codegen.Context.Formats.{Outcome, done, as_model}
use typespec_rust.Codegen.Context.Pages.{items_field, Found}

-- The field of a model's page items, and the model that it is of, if it is of one.
abbrev pub first_items : Heap → ModelId → Option ModelField
first_items h m = items_field (h.models m).fields

-- Field names lead from a model, each through the first field that is flagged, to the last such field: it
-- is of no model, or of one without such a field.
pub data Leads (h : Heap) : ModelId → List Text → ModelField → Type 0 where
  plain :
      (m : ModelId) (f : ModelField)
      → first_items h m ≡ some f
      → as_model f.base.type ≡ none
      → Leads h m (f.base.name ∷ []) f
  last :
      (m : ModelId) (f : ModelField) (k : ModelId)
      → first_items h m ≡ some f
      → as_model f.base.type ≡ some k
      → first_items h k ≡ none
      → Leads h m (f.base.name ∷ []) f
  nested :
      (m : ModelId) (f : ModelField) (k : ModelId) (path : List Text) (g : ModelField)
      → first_items h m ≡ some f
      → as_model f.base.type ≡ some k
      → Leads h k path g
      → Leads h m (f.base.name ∷ path) g

-- What the search may give: no field, where the model has none, or the way to one.
abbrev pub Describes : Heap → ModelId → Option Found → Type 0
Describes h m none = first_items h m ≡ none
Describes h m (some (path, f)) = Leads h m path f

-- Models that are nested by their items have lower ranks.
abbrev pub Descends : Heap → (ModelId → ℕ) → Type 0
Descends h rank =
    (m k : ModelId) (f : ModelField)
    → first_items h m ≡ some f
    → as_model f.base.type ≡ some k
    → rank k < rank m

-- The answer of a search.
pub record Answer (h : Heap) (m : ModelId) (o : Outcome (Option Found)) : Type 0 where
  pub found : Option Found
  pub gives : o ≡ done found
  pub right : Describes h m found
