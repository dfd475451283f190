-- ===== src/Codegen/HeaderTraits/Deserialization.antt =====
-- codegen/headerTraits.ts: `getHeaderConstName` and `getHeaderDeserialization`.
use typespec_rust.Prelude.{ℕ, ◌-◌, Text, text, none, [], ◌∷◌, ◌++◌, map, join, drop, if◌then◌else◌}
use typespec_rust.Prelude.Spaces.{starts_with}
use typespec_rust.Codemodel.Kinds.{DateTimeEncoding}
use typespec_rust.Codemodel.Types.{RustType}
use typespec_rust.Codemodel.Types.RustType.{
  encoded_bytes, etag, enum, scalar, string, offset_date_time,
}
use typespec_rust.Codemodel.Client.{
  ResponseHeader, response_header_hash_map, response_header_scalar,
}
use typespec_rust.Utils.SnakeCase.{is_lower, lower_case, deconstruct}
use typespec_rust.Codegen.Use.{Use, add}
use typespec_rust.Codegen.Indentation.{
  Emit, ◌>>=◌, pure, get, push, pop, ◌+>◌, line, silently, calling,
}
use typespec_rust.Codegen.Blocks.{build_if_block}
use typespec_rust.Codegen.Encodings.{get_bytes_encoding_method, decode, date_time_encoding}
use typespec_rust.Codegen.HeaderTraits.{header_of}

-- `toUpperCase()` on an ASCII character.
unfoldable pub upper_case : ℕ → ℕ
unfolding is_lower
upper_case c = if is_lower c then c - 32 else c

-- `replace(/^x-ms-/i, '')`
unfoldable pub strip_prefix : Text → Text
unfolding starts_with lower_case
strip_prefix t = if starts_with (text "x-ms-") (map lower_case t) then drop 5 t else t

unfoldable pub const_name : Text → Text
unfolding strip_prefix deconstruct upper_case join
const_name header = join (text "_") (map (map upper_case) (deconstruct (strip_prefix header)))

-- `getHeaderConstName`
unfoldable pub get_header_const_name : ResponseHeader → Text
unfolding const_name header_of
get_header_const_name header = const_name (header_of header)

-- The condition for a header with the prefix, and what is done with it.
unfoldable pub prefix_condition : Text → Text
prefix_condition name =
    text "name.len() > " ++ (name ++ (text ".len() && name.starts_with(" ++ (name ++ text ")")))

unfoldable pub collect_line : Text → Emit Use Text
unfolding line
collect_line name = line (
    text "values.insert(name["
    ++ (name ++ text ".len()..].to_owned(), h.1.as_str().to_owned());\n"))

-- The statements that collect the headers with a prefix.
unfoldable pub hash_map_body : Text → Emit Use Text
unfolding line push pop get build_if_block prefix_condition collect_line
hash_map_body name =
    line (text "let mut values = HashMap::new();\n")
    +> line (text "for h in self.headers().iter() {\n")
    +> silently push
    +> line (text "let name = h.0.as_str();\n")
    +> get
    +> build_if_block (record { condition = prefix_condition name; body = collect_line name }) none
    +> silently pop
    +> line (text "}\n")
    +> pure (text "Ok(values)\n")

-- The case of bytes in an encoding.
unfoldable pub decoded_line : Text → Text → Emit Use Text
unfolding line
decoded_line name decoder = line (
    text "Headers::get_optional_with(self.headers(), &"
    ++ (name ++ (text ", |h| " ++ (decoder ++ text "(h.as_str()))\n"))))

unfoldable pub optional_line : Text → Emit Use Text
unfolding line
optional_line name =
    line (text "Headers::get_optional_as(self.headers(), &" ++ (name ++ text ")\n"))

unfoldable pub date_line : Text → DateTimeEncoding → Emit Use Text
unfolding decoded_line date_time_encoding add
date_line name e =
    let parse = text "parse_" ++ date_time_encoding e in
    calling (add (text "azure_core") ((text "time::" ++ parse) ∷ [])) +> decoded_line name parse

-- The switch on the type of the header.
unfoldable pub scalar_body : Text → RustType → Emit Use Text
unfolding decoded_line optional_line date_line get_bytes_encoding_method line
scalar_body name (encoded_bytes e) =
    get_bytes_encoding_method e.encoding decode >>= λ decoder. decoded_line name decoder
scalar_body name (etag q) = optional_line name
scalar_body name (enum e) = optional_line name
scalar_body name (scalar s) = optional_line name
scalar_body name string = optional_line name
scalar_body name (offset_date_time o) = date_line name o.encoding
scalar_body name t = line (text "todo!();\n")

-- `getHeaderDeserialization`
unfoldable pub get_header_deserialization : ResponseHeader → Emit Use Text
unfolding get_header_const_name hash_map_body scalar_body add
get_header_deserialization (response_header_hash_map h) =
    hash_map_body (get_header_const_name (response_header_hash_map h))
get_header_deserialization (response_header_scalar h) =
    calling (add (text "azure_core::http") (text "headers::Headers" ∷ []))
    +> scalar_body (get_header_const_name (response_header_scalar h)) h.type
