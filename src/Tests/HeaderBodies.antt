-- ===== src/Tests/HeaderBodies.antt =====
-- codegen/headerTraits.ts, `getHeaderDeserialization`, at concrete headers.
use typespec_rust.Prelude.{text, ◌≡◌, refl}
use typespec_rust.Codemodel.Types.RustType.{string}
use typespec_rust.Codemodel.Client.{ResponseHeader, response_header_hash_map}
use typespec_rust.Codegen.Use.{Use, models_other, new_use}
use typespec_rust.Codegen.Emission.Braces.{Nested}
use typespec_rust.Codegen.HeaderTraits.Deserialization.{
  get_header_const_name, get_header_deserialization,
}
use typespec_rust.Codegen.HeaderTraits.Nesting.{get_header_deserialization-Nested}
use typespec_rust.Tests.Fixtures.{no_docs, root}

abbrev metadata : ResponseHeader
metadata =
    response_header_hash_map
      (record { name = text "metadata"; header = text "x-ms-Meta"; type = string; docs = no_docs })

metadata_name : get_header_const_name metadata ≡ text "META"
unfolding get_header_const_name
metadata_name = refl

abbrev start : Use
start = new_use root models_other

get_header_deserialization-Nested_example :
    Nested start 2 1 (get_header_deserialization metadata start (record { level = 2 }))
get_header_deserialization-Nested_example = get_header_deserialization-Nested metadata start 2 1
