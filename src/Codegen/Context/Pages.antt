-- ===== src/Codegen/Context/Pages.antt =====
-- codegen/context.ts: `getPageImplForType`. The search for the field of a page's items follows models,
-- which may refer to each other in cycles, so it has fuel.
use typespec_rust.Prelude.{
  ℕ, zero, suc, ◌%◌, Text, text, Bool, Option, none, some, List, [], ◌∷◌, ◌++◌, any, eqb, join,
  if◌then◌else◌,
}
use typespec_rust.Prelude.Result.{Result, ok, err, internal_error}
use typespec_rust.Codemodel.Kinds.{ModelId}
use typespec_rust.Codemodel.Types.{RustType}
use typespec_rust.Codemodel.Types.RustType.{model}
use typespec_rust.Codemodel.Objects.{
  Heap, ModelField, ModelFieldType, model_field, additional_properties,
}
use typespec_rust.Codegen.Declaration.{default, get_type_declaration, unwrap_type}
use typespec_rust.Codegen.Use.{Use, add, add_for_type}
use typespec_rust.Codegen.Indentation.{
  Emit, Indentation, pure, push, pop, ◌+>◌, line, silently, calling, freshly, new_indentation,
}
use typespec_rust.Codegen.Context.Formats.{Outcome, done, failed, out_of_fuel, as_model}
use typespec_rust.Codegen.Context.Populate.{Context}

-- `(field.flags & PageItems) === PageItems`
unfoldable pub has_page_items : ModelField → Bool
has_page_items f = eqb (f.flags % 2) 1

-- The first field with the flag.
unfoldable pub items_field : List ModelFieldType → Option ModelField
unfolding has_page_items
items_field [] = none
items_field (additional_properties f ∷ fs) = items_field fs
items_field (model_field f ∷ fs) =
    let later = items_field fs in if has_page_items f then some f else later

-- The names of the fields on the way, and the last field.
abbrev pub Found : Type 0
Found = List Text × ModelField

-- A field of a nested model is preferred.
unfoldable pub prefer : ModelField → Option Found → Found
prefer f none = (f.base.name ∷ [], f)
prefer f (some (path, g)) = (f.base.name ∷ path, g)

unfoldable pub follow :
    (ModelId → Outcome (Option Found)) → ModelField → Option ModelId → Outcome (Option Found)
unfolding prefer
follow nested f none = done (some (prefer f none))
follow nested f (some k) = elim (nested k) [
  | done r ↦ done (some (prefer f r))
  | failed e ↦ failed e
  | out_of_fuel ↦ out_of_fuel
]

unfoldable pub follow_first :
    (ModelId → Outcome (Option Found)) → Option ModelField → Outcome (Option Found)
unfolding follow as_model
follow_first nested none = done none
follow_first nested (some f) = follow nested f (as_model f.base.type)

-- `recursiveFindPageItemsField`
unfoldable pub find_page_items : Heap → ℕ → ModelId → Outcome (Option Found)
unfolding follow_first items_field
find_page_items h zero m = out_of_fuel
find_page_items h (suc fuel) m =
    let nested = find_page_items h fuel in follow_first nested (items_field (h.models m).fields)

-- The implementation of `Page`, and the use statements that it needs.
unfoldable pub page_impl : Heap → ModelId → List Text → RustType → Emit Use Text
unfolding add add_for_type line push pop freshly get_type_declaration unwrap_type join
page_impl h m path items =
    calling (add_for_type h (model m))
    +> calling (add_for_type h items)
    +> calling (add (text "async_trait") (text "async_trait" ∷ []))
    +> calling (add (text "azure_core") (text "Result" ∷ []))
    +> calling (add (text "azure_core::http::pager") (text "Page" ∷ []))
    +> freshly (
        pure (text "#[async_trait]\n")
        +> pure (text "impl Page for " ++ ((h.models m).name ++ text " {\n"))
        +> line (
            text "type Item = "
            ++ (get_type_declaration h (unwrap_type items) default ++ text ";\n"))
        +> line (
            text "type IntoIter = <"
            ++ (get_type_declaration h items default ++ text " as IntoIterator>::IntoIter;\n"))
        +> line (text "async fn into_items(self) -> Result<Self::IntoIter> {\n")
        +> silently push
        +> line (text "Ok(self." ++ (join (text ".") path ++ text ".into_iter())\n"))
        +> silently pop
        +> line (text "}\n")
        +> pure (text "}\n\n"))

-- The text and the use statements of a run.
unfoldable pub emitted : Result (Text × Use × Indentation) → Outcome (Option Text × Use)
emitted (ok (t, u, i)) = done (some t, u)
emitted (err e) = failed e

-- The part of `getPageImplForType` behind the search.
unfoldable pub page_impl_for : Heap → ModelId → Use → Option Found → Outcome (Option Text × Use)
unfolding page_impl emitted new_indentation
page_impl_for h m u none = failed (record {
  code = internal_error;
  message = text "didn't find page items field in model " ++ (h.models m).name;
})
page_impl_for h m u (some (path, f)) = emitted (page_impl h m path f.base.type u new_indentation)

unfoldable pub page_impl_searched :
    Heap → ModelId → Use → Outcome (Option Found) → Outcome (Option Text × Use)
unfolding page_impl_for
page_impl_searched h m u (done r) = page_impl_for h m u r
page_impl_searched h m u (failed e) = failed e
page_impl_searched h m u out_of_fuel = out_of_fuel

-- `getPageImplForType`; for a model that is no paged response there is no text.
unfoldable pub get_page_impl_for_type :
    Heap → Context → ℕ → ModelId → Use → Outcome (Option Text × Use)
unfolding page_impl_searched find_page_items any
get_page_impl_for_type h c fuel m u =
    let searched = page_impl_searched h m u (find_page_items h fuel m) in
    if any (eqb m) c.paged_response_types then searched else done (none, u)
