-- ===== src/Codegen/Context/Monitors.antt =====
-- codegen/context.ts: `getTryFromForError` and `getStatusMonitorImplForType`.
use typespec_rust.Prelude.{
  ◌/◌, ◌%◌, Text, text, Bool, Option, none, some, List, [], ◌∷◌, ◌++◌, any, map, eqb, ◌==◌,
  if◌then◌else◌,
}
use typespec_rust.Codemodel.Kinds.{ModelId}
use typespec_rust.Codemodel.Types.{RustType}
use typespec_rust.Codemodel.Types.RustType.{model, option}
use typespec_rust.Codemodel.Objects.{Heap, Model, ModelFieldType, field_base}
use typespec_rust.Codegen.Declaration.{ModelFormat, json, xml, default, get_type_declaration}
use typespec_rust.Utils.SnakeCase.{lower_case}
use typespec_rust.Codegen.Use.{Use, add, add_for_type}
use typespec_rust.Codegen.Indentation.{
  Emit, ◌>>=◌, pure, push, pop, ◌+>◌, line, silently, calling, freshly,
}
use typespec_rust.Codegen.Context.Populate.{Context, get_model_body_format}

-- `(model.flags & Error) === 0`
unfoldable pub is_error : Model → Bool
is_error m = eqb (m.flags / 8 % 2) 1

unfoldable pub deserialize_text : ModelFormat → Text
deserialize_text json = text "Ok(raw_response.body().json()?)"
deserialize_text xml = text "Ok(raw_response.body().xml()?)"

unfoldable pub error_impl : Text → Text → Emit Use Text
unfolding line push pop freshly
error_impl declaration deserialize = freshly (
    pure (text "impl TryFrom<azure_core::Error> for " ++ (declaration ++ text " {\n"))
    +> line (text "type Error = azure_core::Error;\n")
    +> line
        (text "fn try_from(error: azure_core::Error) -> std::result::Result<Self, Self::Error> {\n")
    +> silently push
    +> line (text "match error.kind() {")
    +> silently push
    +> line (
        text "ErrorKind::HttpResponse { raw_response: Some(raw_response), .. } => "
        ++ (deserialize ++ text ","))
    +> line (
        text
          "_ => Err(azure_core::Error::with_message(azure_core::error::ErrorKind::DataConversion, \"ErrorKind was not HttpResponse and could not be parsed.\"))")
    +> silently pop
    +> line (text "}\n")
    +> silently pop
    +> line (text "}\n")
    +> pure (text "}\n\n"))

-- `getTryFromForError`; for a model that is no error there is no text.
unfoldable pub get_try_from_for_error : Heap → Context → ModelId → Emit Use Text
unfolding is_error add error_impl deserialize_text get_type_declaration get_model_body_format
get_try_from_for_error h c m =
    if is_error (h.models m)
    then calling (add (text "azure_core::error") (text "ErrorKind" ∷ []))
      +> error_impl (get_type_declaration h (model m) default)
          (deserialize_text (get_model_body_format c m))
    else pure []

-- The type of the field called status, if there is one.
unfoldable pub status_type : List ModelFieldType → Option RustType
unfolding lower_case field_base ◌==◌
status_type [] = none
status_type (f ∷ fs) =
    let later = status_type fs in
    if map lower_case (field_base f).name == text "status" then some (field_base f).type else later

unfoldable pub status_line : Option RustType → Text
status_line none = text "PollerStatus::Succeeded\n"
status_line (some (option t)) =
    text
      "match &self.status { Some(v) => PollerStatus::from(v.as_ref()), None => PollerStatus::InProgress }\n"
status_line (some t) =
    text "self.status.as_deref().map(Into::into).unwrap_or(PollerStatus::InProgress)\n"

-- `lroResultTypes.get`
unfoldable pub result_of : ModelId → List (ModelId × RustType) → Option RustType
result_of m [] = none
result_of m ((k, t) ∷ ts) = if eqb k m then some t else result_of m ts

unfoldable pub format_type : ModelFormat → Text
format_type json = text "JsonFormat"
format_type xml = text "XmlFormat"

-- `addForType` on the result type, if there is one.
unfoldable pub add_result : Heap → Option RustType → Emit Use Text
unfolding add_for_type
add_result h none = pure []
add_result h (some t) = calling (add_for_type h t)

unfoldable pub output_type : Heap → Option RustType → Text
unfolding get_type_declaration
output_type h none = text "()"
output_type h (some t) = get_type_declaration h t default

unfoldable pub monitor_impl : Model → Text → Text → Emit Use Text
unfolding line push pop freshly status_line status_type
monitor_impl m output format = freshly (
    pure (text "impl StatusMonitor for " ++ (m.name ++ text " {\n"))
    +> line (text "type Output = " ++ (output ++ text ";\n"))
    +> line (text "type Format = " ++ (format ++ text ";\n"))
    +> line (text "fn status(&self) -> PollerStatus {\n")
    +> silently push
    +> line (status_line (status_type m.fields))
    +> silently pop
    +> line (text "}\n")
    +> pure (text "}\n\n"))

unfoldable pub monitor : Heap → ModelId → Option RustType → Text → Emit Use Text
unfolding add add_for_type add_result output_type monitor_impl
monitor h m result format =
    calling (add (text "azure_core::http") (format ∷ []))
    +> calling (add_for_type h (model m))
    +> add_result h result
    +> calling
        (add (text "azure_core::http::poller") (text "StatusMonitor" ∷ text "PollerStatus" ∷ []))
    +> monitor_impl (h.models m) (output_type h result) format

-- `getStatusMonitorImplForType`; for a model that is no status there is no text.
unfoldable pub get_status_monitor_impl_for_type : Heap → Context → ModelId → Emit Use (Option Text)
unfolding monitor result_of format_type get_model_body_format any
get_status_monitor_impl_for_type h c m =
    if any (eqb m) c.lro_status_types
    then (monitor h m (result_of m c.lro_result_types) (format_type (get_model_body_format c m))
        >>= (λ t. pure (some t)))
    else pure none
