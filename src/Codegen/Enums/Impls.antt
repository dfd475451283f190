-- ===== src/Codegen/Enums/Impls.antt =====
-- codegen/enums.ts: the trait implementations of enums, `emitStringEnumImplDefinitions` and
-- `emitNumericEnumImplDefinitions`.
use typespec_rust.Prelude.{Text, text, Bool, true, false, List, [], ◌∷◌, ◌++◌, if◌then◌else◌}
use typespec_rust.Codemodel.Kinds.{EnumValue}
use typespec_rust.Codemodel.Objects.{Enum}
use typespec_rust.Codegen.Use.{Use, add}
use typespec_rust.Codegen.Indentation.{Emit, pure, push, pop, ◌+>◌, line, silently, each, calling}
use typespec_rust.Codegen.Enums.{literal_text}

-- `use.add(path, …)`
abbrev pub adding : Text → List Text → Emit Use Text
adding path types = calling (add path types)

-- The ends of a match, a function and an implementation.
unfoldable pub closed : {S : Type 0} → Text → Emit S Text
unfolding line pop
closed t = silently pop +> line t

unfoldable pub closed_all : {S : Type 0} → Text → Emit S Text
unfolding closed
closed_all t = closed t +> closed (text "}\n") +> closed (text "}\n\n")

-- A line, with the indentation raised behind it.
unfoldable pub opened : {S : Type 0} → Text → Emit S Text
unfolding line push
opened t = line t +> silently push

-- `${rustEnum.name}::${value.name}`
unfoldable pub variant : Enum → EnumValue → Text
variant e v = e.name ++ (text "::" ++ v.name)

-- The arm that gives the text of a value.
unfoldable pub value_line : Enum → EnumValue → Emit Use Text
unfolding line variant literal_text
value_line e v = line (variant e v ++ (text " => \"" ++ (literal_text v.value ++ text "\",\n")))

-- The arm that gives the value of a text.
unfoldable pub parse_line : Enum → EnumValue → Emit Use Text
unfolding line variant literal_text
parse_line e v =
    line (text "\"" ++ (literal_text v.value ++ (text "\" => " ++ (variant e v ++ text ",\n"))))

-- `From<&'a E>` for `&'a str`, of an extensible enum.
unfoldable pub from_impl : Enum → Emit Use Text
unfolding opened closed_all each line value_line add
from_impl e =
    adding (text "std") (text "convert::From" ∷ [])
    +> opened (text "impl<'a> From<&'a " ++ (e.name ++ text "> for &'a str {\n"))
    +> opened (text "fn from(e: &'a " ++ (e.name ++ text ") -> Self {\n"))
    +> opened (text "match e {\n")
    +> each (value_line e) e.values
    +> line (e.name ++ text "::UnknownValue(s) => s.as_ref(),\n")
    +> closed_all (text "}\n")

-- The arm for all other values of an enum that is not extensible.
unfoldable pub unknown_error : Enum → Emit Use Text
unfolding line push pop
unknown_error e =
    line (text "_ => { \n")
    +> silently push
    +> pure (text "return Err(Error::with_message_fn(ErrorKind::DataConversion, || {\n")
    +> silently push
    +> pure (text "format!(\"unknown variant of " ++ (e.name ++ text " found: \\\"{s}\\\"\")\n"))
    +> silently pop
    +> line (text "}))\n")
    +> silently pop
    +> pure (text "}\n")

unfoldable pub from_str_error : Bool → Emit Use Text
unfolding line add
from_str_error true =
    adding (text "std") (text "convert::Infallible" ∷ []) +> line (text "type Err = Infallible;\n")
from_str_error false =
    adding (text "azure_core::error") (text "Error" ∷ text "ErrorKind" ∷ [])
    +> line (text "type Err = Error;\n")

unfoldable pub from_str_rest : Bool → Enum → Emit Use Text
unfolding line unknown_error
from_str_rest true e = line (text "_ => " ++ (e.name ++ text "::UnknownValue(s.to_string()),\n"))
from_str_rest false e = unknown_error e

unfoldable pub from_str_impl : Enum → Emit Use Text
unfolding opened closed_all each line parse_line add from_str_error from_str_rest
from_str_impl e =
    adding (text "std") (text "str::FromStr" ∷ [])
    +> opened (text "impl FromStr for " ++ (e.name ++ text " {\n"))
    +> from_str_error e.extensible
    +> opened
        (text "fn from_str(s: &str) -> ::core::result::Result<Self, <Self as FromStr>::Err> {\n")
    +> opened (text "Ok(match s {\n")
    +> each (parse_line e) e.values
    +> from_str_rest e.extensible e
    +> closed_all (text "})\n")

-- A line for an extensible enum only.
unfoldable pub if_extensible : {S : Type 0} → Bool → Text → Emit S Text
unfolding line
if_extensible true t = line t
if_extensible false t = pure []

unfoldable pub as_ref_impl : Enum → Emit Use Text
unfolding opened closed_all each line value_line add if_extensible
as_ref_impl e =
    adding (text "std") (text "convert::AsRef" ∷ [])
    +> opened (text "impl AsRef<str> for " ++ (e.name ++ text " {\n"))
    +> opened (text "fn as_ref(&self) -> &str {\n")
    +> opened (text "match self {\n")
    +> each (value_line e) e.values
    +> if_extensible e.extensible (e.name ++ text "::UnknownValue(s) => s.as_str(),\n")
    +> closed_all (text "}\n")

unfoldable pub display_text : Bool → EnumValue → Text
unfolding literal_text
display_text true v = text " => f.write_str(\"" ++ (literal_text v.value ++ text "\"),\n")
display_text false v = text " => Display::fmt(\"" ++ (literal_text v.value ++ text "\", f),\n")

unfoldable pub display_line : Enum → EnumValue → Emit Use Text
unfolding line variant display_text
display_line e v = line (variant e v ++ display_text e.extensible v)

unfoldable pub display_impl : Enum → Emit Use Text
unfolding opened closed_all each line display_line add if_extensible
display_impl e =
    adding (text "std::fmt") (text "Display" ∷ text "Formatter" ∷ [])
    +> opened (text "impl Display for " ++ (e.name ++ text " {\n"))
    +> opened (text "fn fmt(&self, f: &mut Formatter<'_>) -> ::std::fmt::Result {\n")
    +> opened (text "match self {\n")
    +> each (display_line e) e.values
    +> if_extensible e.extensible (e.name ++ text "::UnknownValue(s) => f.write_str(s.as_str()),\n")
    +> closed_all (text "}\n")

unfoldable pub emit_string_enum_impl_definitions : Enum → Emit Use Text
unfolding from_impl from_str_impl as_ref_impl display_impl
emit_string_enum_impl_definitions e =
    (if e.extensible then from_impl e else pure [])
    +> from_str_impl e
    +> as_ref_impl e
    +> display_impl e
