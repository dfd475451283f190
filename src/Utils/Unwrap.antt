-- ===== src/Utils/Unwrap.antt =====
-- utils/utils.ts, `unwrapOption`, `unwrapRef`, `asTypeOf` and `unwrap`.
pub mod Chains
use typespec_rust.Prelude.{
  Text, text, List, [], ◌∷◌, Option, none, some, ◌==◌, ==_iff, if◌then◌else◌, ◌≡◌, refl, arith,
}
use typespec_rust.Codemodel.Kinds.{PayloadFormatType, ModelPayloadFormatType}
use typespec_rust.Codemodel.Types.{RustType, LiteralKind}
use typespec_rust.Codemodel.Types.RustType.{
  arc, async_response, box, bytes, client_method_options, decimal, discriminated_union,
  encoded_bytes, enum, enum_value, etag, external, hashmap, impl_trait, json_value, literal, marker,
  model, offset_date_time, option, pager, pager_options, poller, poller_options, raw_response, ref,
  request_content, response, result, safeint, slice, str, struct, token_credential, unit,
  untagged_union, url, vec,
}

-- The field `kind` of a type.
unfoldable pub kind : RustType → Text
kind (arc _ _) = text "arc"
kind (async_response _ _) = text "asyncResponse"
kind (box _) = text "box"
kind (bytes _) = text "bytes"
kind (client_method_options _) = text "clientMethodOptions"
kind (decimal _) = text "decimal"
kind (discriminated_union _) = text "discriminatedUnion"
kind (encoded_bytes _) = text "encodedBytes"
kind (enum _) = text "enum"
kind (enum_value _) = text "enumValue"
kind (etag _) = text "Etag"
kind (external _) = text "external"
kind (hashmap _ _) = text "hashmap"
kind (impl_trait _ _) = text "implTrait"
kind (json_value _) = text "jsonValue"
kind (literal _ _) = text "literal"
kind (marker _) = text "marker"
kind (model _) = text "model"
kind (offset_date_time _) = text "offsetDateTime"
kind (option _) = text "option"
kind (pager _ _ _) = text "pager"
kind (pager_options _) = text "pagerOptions"
kind (poller _ _ _) = text "poller"
kind (poller_options _) = text "pollerOptions"
kind (raw_response _) = text "rawResponse"
kind (ref _ _) = text "ref"
kind (request_content _ _ _) = text "requestContent"
kind (response _ _ _) = text "response"
kind (result _ _) = text "result"
kind (safeint _) = text "safeint"
kind (RustType.scalar _) = text "scalar"
kind (slice _) = text "slice"
kind str = text "str"
kind RustType.string = text "String"
kind (struct _) = text "struct"
kind (token_credential _) = text "tokenCredential"
kind unit = text "unit"
kind (untagged_union _) = text "untaggedUnion"
kind (url _) = text "Url"
kind (vec _) = text "Vec"

unfoldable pub unwrap_option : RustType → RustType
unwrap_option (option t) = t
unwrap_option t = t

unfoldable pub unwrap_ref : RustType → RustType
unwrap_ref (ref t l) = t
unwrap_ref t = t

-- A payload format of a model, among all payload formats.
unfoldable pub payload_format : ModelPayloadFormatType → PayloadFormatType
payload_format ModelPayloadFormatType.json_format = PayloadFormatType.json_format
payload_format ModelPayloadFormatType.xml_format = PayloadFormatType.xml_format

unfoldable pub literal_type : LiteralKind → RustType
literal_type (LiteralKind.scalar s) = RustType.scalar s
literal_type LiteralKind.string = RustType.string

-- The private function `unwrap`.
unfoldable pub unwrap : RustType → Option RustType
unfolding payload_format literal_type
unwrap (vec t) = some t
unwrap (arc q t) = some (token_credential t)
unwrap (box t) = some t
unwrap (hashmap q t) = some t
unwrap (impl_trait n t) = some t
unwrap (literal k v) = some (literal_type k)
unwrap (option t) = some t
unwrap (pager q r c) = some (response r.qualified (model r.content) (payload_format r.format))
unwrap (ref t l) = some t
unwrap (request_content q t f) = some t
unwrap (response q t f) = some t
unwrap (result q t) = some t
unwrap (RustType.scalar s) = some (RustType.scalar s)
unwrap (slice t) = some t
unwrap t = none

-- The loop of `asTypeOf`; `none` is undefined.
unfoldable pub peel : List Text → Option RustType → Option RustType
unfolding kind unwrap ◌==◌
peel [] current = current
peel (w ∷ ws) none = none
peel (w ∷ ws) (some t) = peel ws (if kind t == w then unwrap t else none)

unfoldable pub of_kind : Text → Option RustType → Option RustType
of_kind target none = none
of_kind target (some t) = if kind t == target then some t else none

unfoldable pub as_type_of : RustType → Text → List Text → Option RustType
unfolding peel of_kind
as_type_of t target wrapped_in = of_kind target (peel wrapped_in (some t))
