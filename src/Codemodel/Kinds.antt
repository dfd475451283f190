-- ===== src/Codemodel/Kinds.antt =====
-- codemodel/types.ts, client.ts: the string unions and the small values that types are made of.
use typespec_rust.Prelude.{ℕ, Text, Bool, Option, List}

-- References to objects: two of them are equal exactly when they are the same object.
abbrev pub ModelId : Type 0
ModelId = ℕ

abbrev pub EnumId : Type 0
EnumId = ℕ

abbrev pub UnionId : Type 0
UnionId = ℕ

abbrev pub StructId : Type 0
StructId = ℕ

abbrev pub ClientId : Type 0
ClientId = ℕ

pub record Docs : Type 0 where
  pub summary : Option Text
  pub description : Option Text

pub data Visibility : Type 0 where
  public pub_crate : Visibility

-- The name holds the leading quote.
pub record Lifetime : Type 0 where
  pub name : Text

pub record QualifiedType : Type 0 where
  pub name : Text
  pub path : Text

pub data BytesEncoding : Type 0 where
  std url : BytesEncoding

pub data EnumType : Type 0 where
  f32 f64 i32 i64 string : EnumType

pub data DateTimeEncoding : Type 0 where
  rfc3339 rfc3339_fixed_width rfc7231 unix_time : DateTimeEncoding

pub data PagerContinuationKind : Type 0 where
  token next_link : PagerContinuationKind

pub data PayloadFormatType : Type 0 where
  binary_format json_format no_format xml_format : PayloadFormatType

-- `PayloadFormatType` without the binary and the missing format.
pub data ModelPayloadFormatType : Type 0 where
  json_format xml_format : ModelPayloadFormatType

pub data ScalarType : Type 0 where
  bool f32 f64 i8 i16 i32 i64 u8 u16 u32 u64 : ScalarType

pub record Scalar : Type 0 where
  pub type : ScalarType
  pub string_encoding : Bool

-- `number | string`; a number is kept as the text that it prints as.
pub data EnumLiteral : Type 0 where
  number string : Text → EnumLiteral

-- `boolean | number | string`
pub data LiteralValue : Type 0 where
  boolean : Bool → LiteralValue
  number string : Text → LiteralValue

pub data XmlKind : Type 0 where
  attribute content unwrapped_list : XmlKind

pub record EncodedBytes : Type 0 where
  pub encoding : BytesEncoding
  pub slice : Bool

pub record Decimal : Type 0 where
  pub qualified : QualifiedType
  pub string_encoding : Bool

pub record ClientMethodOptions : Type 0 where
  pub qualified : QualifiedType
  pub lifetime : Lifetime

pub record ExternalType : Type 0 where
  pub qualified : QualifiedType
  pub lifetime : Option Lifetime

pub record MarkerType : Type 0 where
  pub name : Text
  pub docs : Docs
  pub visibility : Visibility

pub record OffsetDateTime : Type 0 where
  pub qualified : QualifiedType
  pub encoding : DateTimeEncoding
  pub utc : Bool

pub record PagerOptions : Type 0 where
  pub qualified : QualifiedType
  pub lifetime : Lifetime
  pub continuation : PagerContinuationKind

pub record PollerOptions : Type 0 where
  pub qualified : QualifiedType
  pub lifetime : Lifetime

pub record SafeInt : Type 0 where
  pub qualified : QualifiedType
  pub string_encoding : Bool

pub record TokenCredential : Type 0 where
  pub qualified : QualifiedType
  pub scopes : List Text

-- `Response<Model, ModelPayloadFormatType>`
pub record ModelResponse : Type 0 where
  pub qualified : QualifiedType
  pub content : ModelId
  pub format : ModelPayloadFormatType

-- `RequestContent<Model>`
pub record ModelRequestContent : Type 0 where
  pub qualified : QualifiedType
  pub content : ModelId
  pub format : PayloadFormatType

pub record EnumValue : Type 0 where
  pub name : Text
  pub docs : Docs
  pub type : EnumId
  pub value : EnumLiteral
