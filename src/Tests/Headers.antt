-- ===== src/Tests/Headers.antt =====
-- codegen/headerTraits.ts: two traits of one name.
use typespec_rust.Prelude.{Text, text, Bool, true, false, some, List, [], ◌∷◌, ◌≡◌, refl, ◌==◌}
use typespec_rust.Codemodel.Kinds.{public, PayloadFormatType}
use typespec_rust.Codemodel.Types.{RustType}
use typespec_rust.Codemodel.Types.RustType.{string}
use typespec_rust.Codemodel.Client.{
  Client, MethodType, async, AsyncReturn, ResponseHeader, response_header_scalar,
  ResponseHeadersTrait, response, model,
}
use typespec_rust.Codegen.HeaderTraits.{
  group_clients, group_methods, method_trait, add_optional, add_source,
}
use typespec_rust.Tests.Fixtures.{no_docs, root, response_path, pet_client, send_base, send_pet}

-- Strings are the one type that is compared here.
abbrev same_string : RustType → RustType → Bool
same_string string string = true
same_string t u = false

abbrev header : Text → ResponseHeader
header name =
    response_header_scalar (record { name = name; header = name; type = string; docs = no_docs })

abbrev trait : List ResponseHeader → ResponseHeadersTrait
trait headers = record {
  name = text "PetHeaders";
  impl_for = response response_path (model 0) PayloadFormatType.json_format;
  headers = headers;
  docs = text "get";
  visibility = public;
  container = root;
}

abbrev first : ResponseHeadersTrait
first = trait (header (text "etag") ∷ [])

abbrev second : ResponseHeadersTrait
second = trait (header (text "date") ∷ header (text "etag") ∷ [])

abbrev merged : ResponseHeadersTrait
merged = record first {
  headers = header (text "etag") ∷ header (text "date") ∷ [];
  docs =
      text
        "/// Provides access to typed response headers for the following methods:\n/// * get\n/// * get\n";
}

-- A method whose response has a trait for its headers.
abbrev headed : ResponseHeadersTrait → MethodType
headed t = async (record {
  base = record send_base { response_headers = some t };
  returns = AsyncReturn.response response_path (RustType.model 1) PayloadFormatType.xml_format;
})

abbrev headed_client : Client
headed_client = record pet_client { methods = headed first ∷ send_pet ∷ headed second ∷ [] }

two_grouped : group_clients (headed_client ∷ []) [] ≡ (first, second ∷ []) ∷ []
unfolding group_clients group_methods method_trait add_optional add_source ◌==◌
two_grouped = refl
