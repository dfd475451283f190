-- ===== src/Tests/Enums.antt =====
-- codegen/enums.ts at concrete enums.
use typespec_rust.Prelude.{ℕ, zero, suc, Text, text, true, false, none, some, [], ◌∷◌, ◌≡◌, refl}
use typespec_rust.Prelude.Result.{ok}
use typespec_rust.Codemodel.Kinds.{
  public, EnumLiteral, EnumValue, string, i32, ModelPayloadFormatType,
}
use typespec_rust.Codemodel.Objects.{Enum, Heap}
use typespec_rust.Codegen.Use.{models_other, new_use}
use typespec_rust.Codegen.Context.Populate.{Context, empty_context}
use typespec_rust.Codegen.Indentation.{get, ◌+>◌, silently}
use typespec_rust.Codegen.Emission.Braces.{brace_free, Nested}
use typespec_rust.Codegen.Enums.{literal_text}
use typespec_rust.Codegen.Enums.Definitions.{emit_enum_public_definitions}
use typespec_rust.Codegen.Enums.Files.{Enums, emit_enums, impls_text}
use typespec_rust.Codegen.Enums.Sound.{PlainEnums, impls_text-Nested}
use typespec_rust.Codegen.Enums.Total.{emit_enums_total}
use typespec_rust.Tests.Fixtures.{no_docs, root, heap}

abbrev value : Text → EnumLiteral → EnumValue
value name v = record { name = name; docs = no_docs; type = 0; value = v }

abbrev size : Enum
size = record {
  name = text "Size";
  docs = record { summary = some (text "A size."); description = none };
  visibility = public;
  values = value (text "Big") (EnumLiteral.string (text "big")) ∷ [];
  extensible = true;
  type = string;
  container = root;
}

abbrev level : Enum
level = record {
  name = text "Level";
  docs = no_docs;
  visibility = public;
  values = value (text "One") (EnumLiteral.number (text "1")) ∷ [];
  extensible = false;
  type = i32;
  container = root;
}

abbrev two_enums : ℕ → Enum
two_enums zero = size
two_enums (suc e) = level

abbrev enum_heap : Heap
enum_heap = record heap { enums = two_enums }

abbrev context : Context
context = record empty_context {
  try_from_for_request_types = (text "Size", ModelPayloadFormatType.xml_format) ∷ [];
}

size_definition :
    emit_enum_public_definitions size (tt {0}) (record { level = 0 })
    ≡ ok (
      text
          "/// A size.\n#[derive(Clone, Debug, Eq, PartialEq)]\npub enum Size {\n    Big,\n\n    /// Any other value not defined in `Size`.\n    UnknownValue(String),\n}\n\n",
      tt,
      record { level = 0 },
    )
unfolding emit_enum_public_definitions get ◌+>◌ silently
size_definition = refl

size-PlainEnums : PlainEnums enum_heap (0 ∷ 1 ∷ [])
unfolding brace_free literal_text
size-PlainEnums = (
  record { name = refl; values = ((refl, refl), tt) },
  (record { name = refl; values = ((refl, refl), tt) }, tt),
)

impls_text-Nested_example :
    Nested
      (new_use root models_other)
      1
      0
      (impls_text enum_heap context (0 ∷ 1 ∷ []) (new_use root models_other) (record { level = 1 }))
impls_text-Nested_example =
    impls_text-Nested enum_heap context (0 ∷ 1 ∷ []) (new_use root models_other) 1 0 size-PlainEnums

emit_enums_total_example :
    (enums : Enums) × (emit_enums enum_heap context root (0 ∷ 1 ∷ []) ≡ ok enums)
emit_enums_total_example = emit_enums_total enum_heap context root (0 ∷ 1 ∷ [])
