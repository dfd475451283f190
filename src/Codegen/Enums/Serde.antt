-- ===== src/Codegen/Enums/Serde.antt =====
-- codegen/enums.ts: `emitEnumsSerde` and `emitEnumSerdeDefinitions`.
use typespec_rust.Prelude.{Text, text, Bool, true, false, [], ◌∷◌, ◌++◌}
use typespec_rust.Codemodel.Kinds.{EnumId}
use typespec_rust.Codemodel.Objects.{Enum, Heap}
use typespec_rust.Codegen.Use.{Use, add, add_enum}
use typespec_rust.Codegen.Indentation.{Emit, ◌+>◌, line, push, calling}
use typespec_rust.Codegen.Enums.{enum_type, is_string}
use typespec_rust.Codegen.Enums.Impls.{opened, closed}

unfoldable pub deserialize_body : Bool → Enum → Emit Use Text
unfolding line enum_type
deserialize_body true e =
    line (text "let s = String::deserialize(deserializer)?;\n")
    +> line (text "s.parse().map_err(serde::de::Error::custom)\n")
deserialize_body false e = line (
    enum_type e.type
    ++ text "::deserialize(deserializer)?.try_into().map_err(serde::de::Error::custom)\n")

unfoldable pub serialize_body : Bool → Enum → Emit Use Text
unfolding line enum_type
serialize_body true e = line (text "s.serialize_str(self.as_ref())\n")
serialize_body false e = line (
    text "s.serialize_"
    ++ (enum_type e.type ++ (text "(" ++ (enum_type e.type ++ text "::from(*self))\n"))))

unfoldable pub deserialize_impl : Enum → Emit Use Text
unfolding line opened closed deserialize_body is_string push
deserialize_impl e =
    opened (text "impl<'de> Deserialize<'de> for " ++ (e.name ++ text " {\n"))
    +> line (text "fn deserialize<D>(deserializer: D) -> ::core::result::Result<Self, D::Error>\n")
    +> line (text "where\n")
    +> line (text "D: Deserializer<'de>,\n")
    +> opened (text "{\n")
    +> deserialize_body (is_string e.type) e
    +> closed (text "}\n")
    +> closed (text "}\n\n")

unfoldable pub serialize_impl : Enum → Emit Use Text
unfolding line opened closed serialize_body is_string push
serialize_impl e =
    opened (text "impl Serialize for " ++ (e.name ++ text " {\n"))
    +> line (text "fn serialize<S>(&self, s: S) -> ::core::result::Result<S::Ok, S::Error>\n")
    +> line (text "where\n")
    +> line (text "S: Serializer,\n")
    +> opened (text "{\n")
    +> serialize_body (is_string e.type) e
    +> closed (text "}\n")
    +> closed (text "}\n\n")

unfoldable pub emit_enum_serde_definitions : Heap → EnumId → Emit Use Text
unfolding add_enum add deserialize_impl serialize_impl
emit_enum_serde_definitions h e =
    calling (add_enum h e)
    +> calling (
        add (text "serde")
          (text "Deserialize" ∷ text "Serialize" ∷ text "Serializer" ∷ text "Deserializer" ∷ []))
    +> deserialize_impl (h.enums e)
    +> serialize_impl (h.enums e)
