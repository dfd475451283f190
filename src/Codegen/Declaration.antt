-- ===== src/Codegen/Declaration.antt =====
-- codegen/helpers.ts: `getTypeDeclaration`, `getGenericLifetimeAnnotation`, `unwrapType` and
-- `convertResponseFormat`.
pub mod Lifetimes
pub mod Unwrapping
pub mod Nests
pub mod Parts
pub mod Brackets
use typespec_rust.Prelude.{
  Text, text, Bool, true, false, Option, none, some, ◌++◌, [], if◌then◌else◌,
}
use typespec_rust.Codemodel.Kinds.{
  Lifetime, Scalar, ScalarType, EncodedBytes, PayloadFormatType, ModelPayloadFormatType,
}
use typespec_rust.Codemodel.Types.{RustType, AsyncContent, LiteralKind}
use typespec_rust.Codemodel.Types.RustType.{
  arc, async_response, box, bytes, client_method_options, decimal, discriminated_union,
  encoded_bytes, enum, enum_value, etag, external, hashmap, impl_trait, json_value, literal, marker,
  model, offset_date_time, option, pager, pager_options, poller, poller_options, raw_response, ref,
  request_content, response, result, safeint, slice, str, struct, token_credential, unit,
  untagged_union, url, vec,
}
use typespec_rust.Codemodel.Objects.{Heap}
use typespec_rust.Codemodel.Client.{Client, ResponseHeadersTrait}
use typespec_rust.Codegen.Use.{format_name}
use typespec_rust.Utils.Unwrap.{payload_format}

pub data WithLifetime : Type 0 where
  default anonymous omit : WithLifetime

-- `ModelFormat`
pub data ModelFormat : Type 0 where
  json xml : ModelFormat

unfoldable pub convert_response_format : ModelPayloadFormatType → ModelFormat
convert_response_format ModelPayloadFormatType.json_format = json
convert_response_format ModelPayloadFormatType.xml_format = xml

abbrev pub anonymous_lifetime_annotation : Text
anonymous_lifetime_annotation = text "<'_>"

unfoldable pub get_generic_lifetime_annotation : Lifetime → Text
get_generic_lifetime_annotation l = text "<" ++ l.name ++ text ">"

-- The case of `external`, `model` and `struct`.
unfoldable pub named : Text → Option Lifetime → WithLifetime → Text
unfolding get_generic_lifetime_annotation
named name none w = name
named name (some l) default = name ++ get_generic_lifetime_annotation l
named name (some l) anonymous = name ++ anonymous_lifetime_annotation
named name (some l) omit = name

-- The second type argument; JSON is the default and elided.
unfoldable pub format_argument : PayloadFormatType → Text
unfolding format_name
format_argument PayloadFormatType.json_format = []
format_argument f = text ", " ++ format_name f

unfoldable pub scalar_name : ScalarType → Text
scalar_name ScalarType.bool = text "bool"
scalar_name ScalarType.f32 = text "f32"
scalar_name ScalarType.f64 = text "f64"
scalar_name ScalarType.i8 = text "i8"
scalar_name ScalarType.i16 = text "i16"
scalar_name ScalarType.i32 = text "i32"
scalar_name ScalarType.i64 = text "i64"
scalar_name ScalarType.u8 = text "u8"
scalar_name ScalarType.u16 = text "u16"
scalar_name ScalarType.u32 = text "u32"
scalar_name ScalarType.u64 = text "u64"

unfoldable pub literal_name : LiteralKind → Text
unfolding scalar_name
literal_name (LiteralKind.scalar s) = scalar_name s.type
literal_name LiteralKind.string = text "String"

-- The unit type is the default and elided.
unfoldable pub async_argument : AsyncContent → Text
async_argument (AsyncContent.marker m) = text "<" ++ m.name ++ text ">"
async_argument AsyncContent.unit = []

unfoldable pub ref_lifetime : Option Lifetime → Text
ref_lifetime none = []
ref_lifetime (some l) = l.name ++ text " "

-- `&...` around a declaration; with `omit` the reference itself goes too.
unfoldable pub ref_text : WithLifetime → Option Lifetime → Text → Text
unfolding ref_lifetime
ref_text omit l d = d
ref_text w l d = text "&" ++ ref_lifetime l ++ d

unfoldable pub get_type_declaration : Heap → RustType → WithLifetime → Text
get_type_declaration h (arc q t) w = q.name ++ (text "<dyn " ++ t.qualified.name ++ text ">")
get_type_declaration h (async_response q c) w = q.name ++ async_argument c
get_type_declaration h (box t) w = text "Box<" ++ get_type_declaration h t default ++ text ">"
get_type_declaration h (bytes q) w = q.name
get_type_declaration h (decimal d) w = d.qualified.name
get_type_declaration h (marker m) w = m.name
get_type_declaration h (client_method_options o) w =
    o.qualified.name ++ get_generic_lifetime_annotation o.lifetime
get_type_declaration h (poller_options o) w =
    o.qualified.name ++ get_generic_lifetime_annotation o.lifetime
get_type_declaration h (encoded_bytes e) w = if e.slice then text "[u8]" else text "Vec<u8>"
get_type_declaration h (enum_value v) w = (h.enums v.type).name
get_type_declaration h (etag q) w = text "Etag"
get_type_declaration h (hashmap q t) w =
    q.name ++ (text "<String, " ++ get_type_declaration h t w ++ text ">")
get_type_declaration h (impl_trait n t) w =
    text "impl " ++ n ++ (text "<" ++ get_type_declaration h t w ++ text ">")
get_type_declaration h (literal k v) w = literal_name k
get_type_declaration h (option t) w = text "Option<" ++ get_type_declaration h t w ++ text ">"
get_type_declaration h (pager q r c) w =
    text "Pager<"
    ++ (named (h.models r.content).name (h.models r.content).lifetime w
        ++ format_argument (payload_format r.format))
    ++ text ">"
get_type_declaration h (pager_options o) w =
    o.qualified.name ++ (text "<" ++ o.lifetime.name ++ text ">")
get_type_declaration h (poller q r s) w =
    text "Poller<" ++ named (h.models s.content).name (h.models s.content).lifetime w ++ text ">"
get_type_declaration h (ref t l) w = ref_text w l (get_type_declaration h t default)
get_type_declaration h (request_content q t f) w =
    q.name ++ (text "<" ++ (get_type_declaration h t w ++ format_argument f) ++ text ">")
get_type_declaration h (result q t) w =
    q.name ++ (text "<" ++ get_type_declaration h t w ++ text ">")
get_type_declaration h (response q t f) w =
    q.name ++ (text "<" ++ (get_type_declaration h t default ++ format_argument f) ++ text ">")
get_type_declaration h RustType.string w = text "String"
get_type_declaration h (url q) w = text "Url"
get_type_declaration h str w = text "str"
get_type_declaration h (RustType.scalar s) w = scalar_name s.type
get_type_declaration h (slice t) w = text "[" ++ get_type_declaration h t default ++ text "]"
get_type_declaration h (discriminated_union i) w = (h.unions i).name
get_type_declaration h (enum e) w = (h.enums e).name
get_type_declaration h (json_value q) w = q.name
get_type_declaration h (offset_date_time o) w = o.qualified.name
get_type_declaration h (raw_response q) w = q.name
get_type_declaration h (safeint s) w = s.qualified.name
get_type_declaration h (token_credential t) w = t.qualified.name
get_type_declaration h (untagged_union i) w = (h.untagged_unions i).name
get_type_declaration h (external e) w = named e.qualified.name e.lifetime w
get_type_declaration h (model m) w = named (h.models m).name (h.models m).lifetime w
get_type_declaration h (struct s) w = named (h.structs s).name (h.structs s).lifetime w
get_type_declaration h unit w = text "()"
get_type_declaration h (vec t) w = text "Vec<" ++ get_type_declaration h t w ++ text ">"

unfoldable pub unwrap_type : RustType → RustType
unwrap_type (arc q t) = token_credential t
unwrap_type (hashmap q t) = unwrap_type t
unwrap_type (option t) = unwrap_type t
unwrap_type (ref t l) = unwrap_type t
unwrap_type (slice t) = unwrap_type t
unwrap_type (vec t) = unwrap_type t
unwrap_type (pager q r c) = model r.content
unwrap_type (poller q r s) = model s.content
unwrap_type t = t
