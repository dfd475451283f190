-- ===== src/Codemodel/Construct.antt =====
-- codemodel/types.ts: the constructors of the types, with the dependencies that those of external types
-- add to the crate.
pub mod Registered
use typespec_rust.Prelude.{
  Text, text, Bool, true, false, Option, none, some, List, [], ◌∷◌, ◌++◌, ◌==◌, ◌&&◌, eqb,
  if◌then◌else◌,
}
use typespec_rust.Codemodel.Kinds.{
  Lifetime, QualifiedType, PagerContinuationKind, PayloadFormatType, Scalar, LiteralValue,
  BytesEncoding, DateTimeEncoding, ModelResponse, TokenCredential, StructId, ModelId, EnumId,
  UnionId, EncodedBytes, Decimal, ClientMethodOptions, ExternalType, OffsetDateTime, PagerOptions,
  PollerOptions, SafeInt,
}
use typespec_rust.Codemodel.Types.{RustType, AsyncContent, LiteralKind, no_result}
use typespec_rust.Codemodel.Types.RustType.{
  arc, async_response, box, bytes, client_method_options, decimal, encoded_bytes, etag, external,
  hashmap, impl_trait, json_value, literal, offset_date_time, option, pager, pager_options, poller,
  poller_options, raw_response, ref, request_content, response, result, safeint, slice, str,
  token_credential, unit, url, vec,
}
use typespec_rust.Codemodel.Crate.{CrateDependency, add_dependency}

-- The text before the first `::`, if there is one.
unfoldable pub before_separator : Text → Option Text
before_separator [] = none
before_separator (c ∷ []) = none
before_separator (c ∷ d ∷ rest) =
    let later = before_separator (d ∷ rest) in
    if eqb c b':' && eqb d b':' then some [] else elim later [ none ↦ none | some x ↦ some (c ∷ x) ]

-- `pathSep > 0`
unfoldable pub prefix_or : Text → Option Text → Text
prefix_or path none = path
prefix_or path (some []) = path
prefix_or path (some (c ∷ x)) = c ∷ x

-- The crate that an external type comes from.
unfoldable pub crate_name : Text → Text
unfolding before_separator prefix_or
crate_name path = prefix_or path (before_separator path)

-- The constructor of `External`: what it adds to the dependencies.
unfoldable pub register : Text → List Text → List CrateDependency → List CrateDependency
register path features deps =
    if crate_name path == text "crate"
    then deps
    else add_dependency (record { name = crate_name path; features = features }) deps

-- The calls of the constructors; a name for each class, with its arguments beside the crate.
pub data New : Type 0 where
  new_arc : TokenCredential → New
  new_async_response : AsyncContent → New
  new_box : RustType → New
  new_bytes : New
  new_client_method_options : Lifetime → New
  new_decimal : Bool → New
  new_encoded_bytes : BytesEncoding → Bool → New
  new_etag : New
  new_external : Text → Text → New
  new_hash_map : RustType → New
  new_impl_trait : Text → RustType → New
  new_json_value : New
  new_literal : LiteralKind → LiteralValue → New
  new_offset_date_time : DateTimeEncoding → Bool → New
  new_option : RustType → New
  new_pager : ModelResponse → PagerContinuationKind → New
  new_pager_options : Lifetime → PagerContinuationKind → New
  new_poller : ModelResponse → New
  new_poller_options : Lifetime → New
  new_raw_response : New
  new_ref : RustType → New
  new_request_content : RustType → PayloadFormatType → New
  new_response : RustType → PayloadFormatType → New
  new_result : RustType → New
  new_safe_int : Bool → New
  new_scalar : Scalar → New
  new_slice : RustType → New
  new_string_slice : New
  new_string_type : New
  new_token_credential : List Text → New
  new_unit : New
  new_url : New
  new_vector : RustType → New

abbrev pub named_at : Text → Text → QualifiedType
named_at name path = record { name = name; path = path }

abbrev pub http : Text
http = text "azure_core::http"

-- The type that the call makes.
unfoldable pub construct : New → RustType
construct (new_arc t) = arc (named_at (text "Arc") (text "std::sync")) t
construct (new_async_response c) = async_response (named_at (text "AsyncResponse") http) c
construct (new_box t) = box t
construct new_bytes = bytes (named_at (text "Bytes") (text "azure_core"))
construct (new_client_method_options l) =
    client_method_options
      (record { qualified = named_at (text "ClientMethodOptions") http; lifetime = l })
construct (new_decimal s) =
    decimal
      (record { qualified = named_at (text "Decimal") (text "rust_decimal"); string_encoding = s })
construct (new_encoded_bytes e s) = encoded_bytes (record { encoding = e; slice = s })
construct new_etag = etag (named_at (text "Etag") http)
construct (new_external name path) =
    external (record { qualified = named_at name path; lifetime = none })
construct (new_hash_map t) = hashmap (named_at (text "HashMap") (text "std::collections")) t
construct (new_impl_trait name t) = impl_trait name t
construct new_json_value = json_value (named_at (text "Value") (text "azure_core"))
construct (new_literal k v) = literal k v
construct (new_offset_date_time e u) = offset_date_time (record {
  qualified = named_at (text "OffsetDateTime") (text "azure_core::time");
  encoding = e;
  utc = u;
})
construct (new_option t) = option t
construct (new_pager r k) = pager (named_at (text "Pager") http) r k
construct (new_pager_options l k) = pager_options (record {
  qualified = named_at (text "PagerOptions") (text "azure_core::http::pager");
  lifetime = l;
  continuation = k;
})
construct (new_poller s) = poller (named_at (text "Poller") http) no_result s
construct (new_poller_options l) = poller_options (record {
  qualified = named_at (text "PollerOptions") (text "azure_core::http::poller");
  lifetime = l;
})
construct new_raw_response = raw_response (named_at (text "RawResponse") http)
construct (new_ref t) = ref t none
construct (new_request_content t f) = request_content (named_at (text "RequestContent") http) t f
construct (new_response t f) = response (named_at (text "Response") http) t f
construct (new_result t) = result (named_at (text "Result") (text "azure_core")) t
construct (new_safe_int s) =
    safeint
      (record { qualified = named_at (text "Number") (text "serde_json"); string_encoding = s })
construct (new_scalar s) = RustType.scalar s
construct (new_slice t) = slice t
construct new_string_slice = str
construct new_string_type = RustType.string
construct (new_token_credential scopes) = token_credential (record {
  qualified = named_at (text "TokenCredential") (text "azure_core::credentials");
  scopes = scopes;
})
construct new_unit = unit
construct new_url = url (named_at (text "Url") http)
construct (new_vector t) = vec t

-- The path and features that the constructor passes to that of `External`, in the classes that extend it.
unfoldable pub external_part : New → Option (Text × List Text)
external_part (new_async_response c) = some (http, [])
external_part new_bytes = some (text "azure_core", [])
external_part (new_client_method_options l) = some (http, [])
external_part (new_decimal s) =
    some (text "rust_decimal", (if s then [] else text "serde-with-float" ∷ []))
external_part new_etag = some (http, [])
external_part (new_external name path) = some (path, [])
external_part new_json_value = some (text "azure_core", [])
external_part (new_offset_date_time e u) = some (text "azure_core::time", [])
external_part (new_pager r k) = some (http, [])
external_part (new_pager_options l k) = some (text "azure_core::http::pager", [])
external_part (new_poller s) = some (http, [])
external_part (new_poller_options l) = some (text "azure_core::http::poller", [])
external_part new_raw_response = some (http, [])
external_part (new_request_content t f) = some (http, [])
external_part (new_response t f) = some (http, [])
external_part (new_result t) = some (text "azure_core", [])
external_part (new_safe_int s) = some (text "serde_json", [])
external_part (new_token_credential scopes) = some (text "azure_core::credentials", [])
external_part new_url = some (http, [])
external_part c = none

unfoldable pub register_part :
    Option (Text × List Text) → List CrateDependency → List CrateDependency
register_part none deps = deps
register_part (some (path, features)) deps = register path features deps

-- The crate's dependencies after calls one after the other.
unfoldable pub construct_all : List New → List CrateDependency → List CrateDependency
construct_all [] deps = deps
construct_all (c ∷ cs) deps = construct_all cs (register_part (external_part c) deps)
