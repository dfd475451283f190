-- ===== src/Tests/Bodies.antt =====
-- codegen/context.ts: the formats of the fixtures' models, which refer to each other.
use typespec_rust.Prelude.{zero, suc, text, [], ◌∷◌, ◌≡◌, ◌≢◌, refl, arith}
use typespec_rust.Codemodel.Kinds.{ModelPayloadFormatType}
use typespec_rust.Codegen.Declaration.{
  xml, json, unwrap_type, convert_response_format, get_type_declaration, named,
}
use typespec_rust.Codemodel.Types.RustType.{model, option, box}
use typespec_rust.Codemodel.Objects.{field_base}
use typespec_rust.Codegen.Context.Formats.{
  done, failed, out_of_fuel, Formats, conflict, as_model, add_body_format,
}
use typespec_rust.Codegen.Context.Marking.{Marks, Formatted, add_body_format-Marks}
use typespec_rust.Codegen.Context.Fuel.{BoundedHeap, Bounded, add_body_format_total}
use typespec_rust.Codegen.Context.Populate.{
  Context, new_context, recursive_populate, populate_clients, populate_methods, populate_method,
  populate_parameters, populate_parameter, populate_content, modeled, add_format, add_try_from,
  populate_return, add_modeled,
}
use typespec_rust.Codegen.Context.Consistent.{Consistent, new_context-Consistent}
use typespec_rust.Codegen.Context.Total.{BoundedModule, new_context_total}
use typespec_rust.Tests.Fixtures.{heap, owners, pets_module}

abbrev both : Formats
both = (1, xml) ∷ (0, xml) ∷ []

abbrev owner_both : Formats
owner_both = (0, xml) ∷ (1, xml) ∷ []

owner_marked : add_body_format 3 heap xml owners [] ≡ done owner_both
unfolding add_body_format unwrap_type field_base
owner_marked = refl

conflicting : add_body_format 3 heap json owners both ≡ failed (conflict heap 1)
unfolding add_body_format unwrap_type
conflicting = refl

-- The model of a field of type Option<Box<Pet>> gets no format.
boxed_unmarked : add_body_format 3 heap xml (option (box (model 0))) [] ≡ done []
unfolding add_body_format unwrap_type as_model
boxed_unmarked = refl

add_body_format-Marks_example : Marks heap xml [] owner_both × Formatted xml owner_both owners
add_body_format-Marks_example = add_body_format-Marks 3 heap xml owners [] owner_both owner_marked

heap-BoundedHeap : BoundedHeap 2 heap
unfolding unwrap_type field_base as_model
heap-BoundedHeap zero = ground arith
heap-BoundedHeap (suc m) = ground arith

owners-Bounded : Bounded 2 owners
unfolding unwrap_type as_model
owners-Bounded m h = ground arith

add_body_format_total_example : add_body_format 3 heap xml owners both ≢ out_of_fuel
add_body_format_total_example =
    add_body_format_total 2 heap xml owners both heap-BoundedHeap owners-Bounded

abbrev pets_context : Context
pets_context = record {
  body_format_for_models = both;
  try_from_for_request_types = (text "Pet", ModelPayloadFormatType.xml_format) ∷ [];
  paged_response_types = [];
  lro_status_types = [];
  lro_result_types = [];
}

pets_run : new_context 3 heap pets_module ≡ done pets_context
unfolding new_context recursive_populate populate_clients populate_methods populate_method
    populate_parameters populate_parameter populate_content modeled add_format add_body_format
    unwrap_type add_try_from field_base convert_response_format populate_return add_modeled
    get_type_declaration named
pets_run = refl

new_context-Consistent_example : Consistent heap pets_context.body_format_for_models
new_context-Consistent_example = new_context-Consistent 3 heap pets_module pets_context pets_run

pets-BoundedModule : BoundedModule 2 pets_module
unfolding BoundedModule unwrap_type as_model
pets-BoundedModule = (((ground arith, ground arith), tt), tt)

new_context_total_example : new_context 3 heap pets_module ≢ out_of_fuel
new_context_total_example = new_context_total 2 heap pets_module heap-BoundedHeap pets-BoundedModule
