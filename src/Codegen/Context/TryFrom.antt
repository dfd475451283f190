-- ===== src/Codegen/Context/TryFrom.antt =====
-- codegen/context.ts: `getTryFromForRequestContent` and `getTryFromForError`.
use typespec_rust.Prelude.{Text, text, Option, none, some, List, [], ◌∷◌, ◌++◌, ◌==◌, if◌then◌else◌}
use typespec_rust.Codemodel.Kinds.{ModelPayloadFormatType}
use typespec_rust.Codemodel.Types.{RustType}
use typespec_rust.Codemodel.Objects.{Heap}
use typespec_rust.Codegen.Declaration.{
  ModelFormat, json, xml, default, get_type_declaration, convert_response_format,
}
use typespec_rust.Codegen.Use.{Use, add, add_model_format}
use typespec_rust.Codegen.Indentation.{
  Emit, pure, push, pop, ◌+>◌, line, silently, calling, freshly,
}
use typespec_rust.Codegen.Context.Populate.{Context}

-- `tryFromForRequestTypes.get`
unfoldable pub try_from_of :
    Text → List (Text × ModelPayloadFormatType) → Option ModelPayloadFormatType
unfolding ◌==◌
try_from_of name [] = none
try_from_of name ((k, f) ∷ fs) = if k == name then some f else try_from_of name fs

-- A model format in a template.
unfoldable pub format_module : ModelFormat → Text
format_module json = text "json"
format_module xml = text "xml"

-- `formatTypeDeclaration`; JSON is the default.
unfoldable pub format_type_declaration : ModelPayloadFormatType → Text
format_type_declaration ModelPayloadFormatType.json_format = []
format_type_declaration ModelPayloadFormatType.xml_format = text ", XmlFormat"

-- The implementation for a type of this declaration, in an indentation of its own.
unfoldable pub request_content_impl : Text → Text → Text → Emit Use Text
unfolding line push pop freshly
request_content_impl declaration format_type module_name = freshly (
    pure (
      text "impl TryFrom<"
      ++ (declaration
          ++ (text "> for RequestContent<" ++ (declaration ++ (format_type ++ text "> {\n")))))
    +> line (text "type Error = azure_core::Error;\n")
    +> line (text "fn try_from(value: " ++ (declaration ++ text ") -> Result<Self> {\n"))
    +> silently push
    +> line (text "Ok(to_" ++ (module_name ++ text "(&value)?.into())\n"))
    +> silently pop
    +> line (text "}\n")
    +> pure (text "}\n\n"))

-- The part of `getTryFromForRequestContent` behind the look-up of the format.
unfoldable pub try_from_with : Text → Option ModelPayloadFormatType → Emit Use Text
unfolding add add_model_format request_content_impl format_module format_type_declaration
    convert_response_format
try_from_with declaration none = pure []
try_from_with declaration (some format) =
    let name = format_module (convert_response_format format) in
    calling (add_model_format format)
    +> calling (add (text "azure_core") (text "Result" ∷ []))
    +> calling (add (text "azure_core::http") (text "RequestContent" ∷ []))
    +> calling (add (text "azure_core") ((name ++ (text "::to_" ++ name)) ∷ []))
    +> request_content_impl declaration (format_type_declaration format) name

unfoldable pub get_try_from_for_request_content : Heap → Context → RustType → Emit Use Text
unfolding try_from_of try_from_with get_type_declaration
get_try_from_for_request_content h c t =
    let declaration = get_type_declaration h t default in
    try_from_with declaration (try_from_of declaration c.try_from_for_request_types)
