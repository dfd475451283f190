-- ===== src/Codemodel/Parameters.antt =====
-- codemodel/method.ts, client.ts: parameters of methods and of clients.
use typespec_rust.Prelude.{ℕ, Text, Bool, Option}
use typespec_rust.Codemodel.Kinds.{
  StructId, Docs, QualifiedType, PayloadFormatType, ModelRequestContent,
}
use typespec_rust.Codemodel.Types.{RustType}

pub data ParameterLocation : Type 0 where
  client method : ParameterLocation

pub data ParameterStyle : Type 0 where
  simple path label matrix : ParameterStyle

pub data CollectionFormat : Type 0 where
  csv ssv tsv pipes : CollectionFormat

pub data ExtendedCollectionFormat : Type 0 where
  single : CollectionFormat → ExtendedCollectionFormat
  multi : ExtendedCollectionFormat

-- `ParameterGroup<T>`; the type is a struct, or an option of one.
pub record ParameterGroup : Type 0 where
  pub name : Text
  pub docs : Docs
  pub type : StructId

-- `Parameter` and `HTTPParameterBase`, without the type, which each kind of parameter narrows.
pub record HttpParameterBase : Type 0 where
  pub name : Text
  pub docs : Docs
  pub is_mut : Bool
  pub min_length : Option ℕ
  pub location : ParameterLocation
  pub optional : Bool
  pub group : Option ParameterGroup

pub record RequestContent : Type 0 where
  pub qualified : QualifiedType
  pub content : RustType
  pub format : PayloadFormatType

pub record BodyParameter : Type 0 where
  pub base : HttpParameterBase
  pub type : RequestContent

pub record HeaderCollectionParameter : Type 0 where
  pub base : HttpParameterBase
  pub header : Text
  pub type : RustType
  pub format : CollectionFormat

pub record HeaderHashMapParameter : Type 0 where
  pub base : HttpParameterBase
  pub header : Text
  pub type : RustType

pub record HeaderScalarParameter : Type 0 where
  pub base : HttpParameterBase
  pub header : Text
  pub type : RustType
  pub is_api_version : Bool

pub record PartialBodyParameter : Type 0 where
  pub base : HttpParameterBase
  pub param_type : RustType
  pub type : ModelRequestContent
  pub serde : Text

pub record PathCollectionParameter : Type 0 where
  pub base : HttpParameterBase
  pub segment : Text
  pub type : RustType
  pub encoded : Bool
  pub style : ParameterStyle
  pub explode : Bool

pub record PathHashMapParameter : Type 0 where
  pub base : HttpParameterBase
  pub segment : Text
  pub type : RustType
  pub encoded : Bool
  pub style : ParameterStyle
  pub explode : Bool

pub record PathScalarParameter : Type 0 where
  pub base : HttpParameterBase
  pub segment : Text
  pub type : RustType
  pub encoded : Bool
  pub style : ParameterStyle

pub record QueryCollectionParameter : Type 0 where
  pub base : HttpParameterBase
  pub key : Text
  pub type : RustType
  pub encoded : Bool
  pub format : ExtendedCollectionFormat

pub record QueryHashMapParameter : Type 0 where
  pub base : HttpParameterBase
  pub key : Text
  pub type : RustType
  pub encoded : Bool
  pub explode : Bool

pub record QueryScalarParameter : Type 0 where
  pub base : HttpParameterBase
  pub key : Text
  pub type : RustType
  pub encoded : Bool
  pub is_api_version : Bool

pub data MethodParameter : Type 0 where
  body : BodyParameter → MethodParameter
  header_collection : HeaderCollectionParameter → MethodParameter
  header_hash_map : HeaderHashMapParameter → MethodParameter
  header_scalar : HeaderScalarParameter → MethodParameter
  partial_body : PartialBodyParameter → MethodParameter
  path_collection : PathCollectionParameter → MethodParameter
  path_hash_map : PathHashMapParameter → MethodParameter
  path_scalar : PathScalarParameter → MethodParameter
  query_collection : QueryCollectionParameter → MethodParameter
  query_hash_map : QueryHashMapParameter → MethodParameter
  query_scalar : QueryScalarParameter → MethodParameter

unfoldable pub parameter_base : MethodParameter → HttpParameterBase
parameter_base (body p) = p.base
parameter_base (header_collection p) = p.base
parameter_base (header_hash_map p) = p.base
parameter_base (header_scalar p) = p.base
parameter_base (partial_body p) = p.base
parameter_base (path_collection p) = p.base
parameter_base (path_hash_map p) = p.base
parameter_base (path_scalar p) = p.base
parameter_base (query_collection p) = p.base
parameter_base (query_hash_map p) = p.base
parameter_base (query_scalar p) = p.base

pub record ClientParameterBase : Type 0 where
  pub name : Text
  pub type : RustType
  pub optional : Bool
  pub docs : Docs

pub data ClientParameter : Type 0 where
  client_credential : ClientParameterBase → ClientParameter
  client_endpoint : ClientParameterBase → ClientParameter
  client_method : ClientParameterBase → ClientParameter
  client_supplemental_endpoint : ClientParameterBase → Text → ClientParameter
