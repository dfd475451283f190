-- ===== src/Codegen/Enums.antt =====
-- codegen/enums.ts: the files of a module's enums.
pub mod Definitions
pub mod Impls
pub mod Numeric
pub mod Serde
pub mod Files
pub mod Nesting
pub mod NumericNesting
pub mod Sound
pub mod Total
use typespec_rust.Prelude.{Text, text, Bool, true, false}
use typespec_rust.Codemodel.Kinds.{EnumType, EnumLiteral}

-- `rustEnum.type` in a template.
unfoldable pub enum_type : EnumType → Text
enum_type EnumType.f32 = text "f32"
enum_type EnumType.f64 = text "f64"
enum_type EnumType.i32 = text "i32"
enum_type EnumType.i64 = text "i64"
enum_type EnumType.string = text "String"

-- `rustEnum.type === 'String'`
unfoldable pub is_string : EnumType → Bool
is_string EnumType.string = true
is_string t = false

-- `value.value` in a template.
unfoldable pub literal_text : EnumLiteral → Text
literal_text (EnumLiteral.number n) = n
literal_text (EnumLiteral.string s) = s
