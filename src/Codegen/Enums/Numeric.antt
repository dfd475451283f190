-- ===== src/Codegen/Enums/Numeric.antt =====
-- codegen/enums.ts: `emitNumericEnumImplDefinitions`.
use typespec_rust.Prelude.{Text, text, Bool, true, false, none, List, [], ◌∷◌, ◌++◌, map}
use typespec_rust.Codemodel.Kinds.{EnumValue}
use typespec_rust.Codemodel.Objects.{Enum}
use typespec_rust.Codegen.Use.{Use, add}
use typespec_rust.Codegen.Indentation.{Emit, pure, get, push, pop, ◌+>◌, line, silently}
use typespec_rust.Codegen.Blocks.{MatchArm, build_match}
use typespec_rust.Codegen.Enums.{enum_type, literal_text}
use typespec_rust.Codegen.Enums.Impls.{adding, variant}

abbrev pub arm : Text → Emit Use Text → MatchArm Use
arm p b = record { pattern_text = p; returns = none; body = b }

-- A function whose body is a match, up to the end of the implementation.
unfoldable pub match_function : Text → Text → List (MatchArm Use) → Emit Use Text
unfolding line push pop get build_match
match_function declaration expr arms =
    line declaration
    +> silently push
    +> get
    +> build_match expr arms
    +> pure (text "\n")
    +> silently pop
    +> line (text "}\n")
    +> pure (text "}\n\n")

-- An arm for an extensible enum only.
unfoldable pub arm_if : Bool → MatchArm Use → List (MatchArm Use)
arm_if true a = a ∷ []
arm_if false a = []

unfoldable pub try_from_rest : Bool → Enum → Emit Use Text
unfolding line add
try_from_rest true e = line (text "Ok(" ++ (e.name ++ text "::UnknownValue(value))\n"))
try_from_rest false e =
    adding (text "azure_core") (text "error::ErrorKind" ∷ [])
    +> line (
        text
          "Err(Error::with_message_fn(ErrorKind::DataConversion, || {format!(\"unknown variant of "
        ++ (e.name ++ text " found: {value}\")}))\n"))

unfoldable pub try_from_arm : Enum → EnumValue → MatchArm Use
unfolding line literal_text variant
try_from_arm e v = arm (literal_text v.value) (line (text "Ok(" ++ (variant e v ++ text ")\n")))

unfoldable pub try_from_error : Bool → Emit Use Text
unfolding line add
try_from_error true =
    adding (text "std") (text "convert::Infallible" ∷ [])
    +> line (text "type Error = Infallible;\n")
try_from_error false =
    adding (text "azure_core::error") (text "Error" ∷ text "ErrorKind" ∷ [])
    +> line (text "type Error = Error;\n")

unfoldable pub lints : Bool → Text
lints true = text "#[allow(unknown_lints)]\n#[allow(clippy::infallible_try_from)]\n"
lints false = []

unfoldable pub try_from_impl : Enum → Emit Use Text
unfolding match_function try_from_arm try_from_rest try_from_error lints enum_type
try_from_impl e =
    pure (
      lints e.extensible
      ++ (text "impl TryFrom<" ++ (enum_type e.type ++ (text "> for " ++ (e.name ++ text " {\n")))))
    +> try_from_error e.extensible
    +> match_function
        (text "fn try_from(value: "
          ++ (enum_type e.type ++ text ") -> Result<Self, Self::Error> {\n"))
        (text "value")
        (map (try_from_arm e) e.values ++ arm (text "_") (try_from_rest e.extensible e) ∷ [])

unfoldable pub from_arm : Enum → EnumValue → MatchArm Use
unfolding line literal_text variant
from_arm e v = arm (variant e v) (line (literal_text v.value ++ text "\n"))

-- The pattern of the variant for all other values.
unfoldable pub unknown_pattern : Enum → Text
unknown_pattern e = e.name ++ text "::UnknownValue(value)"

unfoldable pub numeric_from_impl : Enum → Emit Use Text
unfolding match_function from_arm arm_if unknown_pattern line enum_type
numeric_from_impl e =
    pure (text "impl From<" ++ (e.name ++ (text "> for " ++ (enum_type e.type ++ text " {\n"))))
    +> match_function (text "fn from(value: " ++ (e.name ++ text ") -> Self {\n")) (text "value") (
        map (from_arm e) e.values
        ++ arm_if e.extensible (arm (unknown_pattern e) (line (text "value\n"))))

unfoldable pub display_arm : Enum → EnumValue → MatchArm Use
unfolding line literal_text variant
display_arm e v =
    arm (variant e v) (line (text "Display::fmt(&" ++ (literal_text v.value ++ text ", f)\n")))

unfoldable pub numeric_display_impl : Enum → Emit Use Text
unfolding match_function display_arm arm_if unknown_pattern line add
numeric_display_impl e =
    adding (text "std::fmt") (text "Display" ∷ text "Formatter" ∷ [])
    +> pure (text "impl Display for " ++ (e.name ++ text " {\n"))
    +> match_function (text "fn fmt(&self, f: &mut Formatter<'_>) -> ::std::fmt::Result {\n")
        (text "self")
        (map (display_arm e) e.values
          ++ arm_if e.extensible
              (arm (unknown_pattern e) (line (text "Display::fmt(&value, f)\n"))))

unfoldable pub emit_numeric_enum_impl_definitions : Enum → Emit Use Text
unfolding try_from_impl numeric_from_impl numeric_display_impl
emit_numeric_enum_impl_definitions e =
    try_from_impl e +> numeric_from_impl e +> numeric_display_impl e
