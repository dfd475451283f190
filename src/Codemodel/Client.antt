-- ===== src/Codemodel/Client.antt =====
-- codemodel/client.ts: clients, their methods and response headers, and the contents of modules.
use typespec_rust.Prelude.{ℕ, Text, Bool, Option, List}
use typespec_rust.Codemodel.Kinds.{
  ModelId, EnumId, UnionId, StructId, ClientId, Docs, Visibility, QualifiedType, MarkerType,
  PayloadFormatType, PagerContinuationKind, ModelResponse,
}
use typespec_rust.Codemodel.Types.{RustType, ResultType, AsyncContent}
use typespec_rust.Codemodel.Objects.{StructField, ModelField}
use typespec_rust.Codemodel.Crate.{ModuleContainer}
use typespec_rust.Codemodel.Parameters.{
  ParameterGroup, MethodParameter, ClientParameter, HeaderScalarParameter, QueryScalarParameter,
}

pub data HttpMethod : Type 0 where
  delete get head patch post put : HttpMethod

pub record ResponseHeaderHashMap : Type 0 where
  pub name : Text
  pub header : Text
  pub type : RustType
  pub docs : Docs

pub record ResponseHeaderScalar : Type 0 where
  pub name : Text
  pub header : Text
  pub type : RustType
  pub docs : Docs

pub data ResponseHeader : Type 0 where
  response_header_hash_map : ResponseHeaderHashMap → ResponseHeader
  response_header_scalar : ResponseHeaderScalar → ResponseHeader

-- `MarkerType | Model`
pub data HeadersTarget : Type 0 where
  marker : MarkerType → HeadersTarget
  model : ModelId → HeadersTarget

-- `AsyncResponse<MarkerType> | Response<MarkerType | Model>`
pub data ImplFor : Type 0 where
  async_response : QualifiedType → MarkerType → ImplFor
  response : QualifiedType → HeadersTarget → PayloadFormatType → ImplFor

pub record ResponseHeadersTrait : Type 0 where
  pub name : Text
  pub impl_for : ImplFor
  pub headers : List ResponseHeader
  pub docs : Text
  pub visibility : Visibility
  pub container : ModuleContainer

pub record NextLink : Type 0 where
  pub next_link_path : List ModelField
  pub reinjected_params : List MethodParameter

pub data RequestToken : Type 0 where
  header : HeaderScalarParameter → RequestToken
  query : QueryScalarParameter → RequestToken

pub data ResponseToken : Type 0 where
  header : ResponseHeaderScalar → ResponseToken
  next_link : NextLink → ResponseToken

pub data PageableStrategyKind : Type 0 where
  continuation_token : RequestToken → ResponseToken → PageableStrategyKind
  next_link : NextLink → PageableStrategyKind

pub data LroFinalResultStrategyKind : Type 0 where
  original_uri : LroFinalResultStrategyKind
  header : Text → Option Text → LroFinalResultStrategyKind

-- `Method` and `HTTPMethodBase`, without the result, which each kind of method narrows.
pub record HttpMethodBase : Type 0 where
  pub name : Text
  pub language_independent_name : Text
  pub docs : Docs
  pub visibility : Visibility
  pub impl : Text
  pub self_mut : Bool
  pub self_ref : Bool
  pub params : List MethodParameter
  pub options : ParameterGroup
  pub status_codes : List ℕ
  pub response_headers : Option ResponseHeadersTrait
  pub http_method : HttpMethod
  pub http_path : Text

-- `AsyncResponse | Response`
pub data AsyncReturn : Type 0 where
  async_response : QualifiedType → AsyncContent → AsyncReturn
  response : QualifiedType → RustType → PayloadFormatType → AsyncReturn

pub record AsyncMethod : Type 0 where
  pub base : HttpMethodBase
  pub returns : AsyncReturn

pub record PageableMethod : Type 0 where
  pub base : HttpMethodBase
  pub returns : ModelResponse
  pub continuation : PagerContinuationKind
  pub strategy : Option PageableStrategyKind

pub record LroMethod : Type 0 where
  pub base : HttpMethodBase
  pub returns : ModelResponse
  pub result_type : ResultType
  pub final_result_strategy : LroFinalResultStrategyKind

pub record ClientAccessor : Type 0 where
  pub name : Text
  pub impl : Text
  pub params : List MethodParameter
  pub returns : ClientId

pub data MethodType : Type 0 where
  async : AsyncMethod → MethodType
  client_accessor : ClientAccessor → MethodType
  pageable : PageableMethod → MethodType
  lro : LroMethod → MethodType

pub data Suppressed : Type 0 where
  keep ctor all : Suppressed

pub record SupplementalEndpoint : Type 0 where
  pub path : Text
  pub parameters : List ClientParameter

pub record Constructor : Type 0 where
  pub name : Text
  pub params : List ClientParameter
  pub docs : Docs

pub record ClientConstruction : Type 0 where
  pub options : StructId
  pub constructors : List Constructor
  pub endpoint : Option SupplementalEndpoint
  pub suppressed : Suppressed

pub record Client : Type 0 where
  pub name : Text
  pub docs : Docs
  pub language_independent_name : Text
  pub constructable : Option ClientConstruction
  pub endpoint : StructField
  pub fields : List StructField
  pub methods : List MethodType
  pub container : ModuleContainer
  pub parent : Option ClientId

-- `MarkerType | Model`
pub data ModuleModel : Type 0 where
  marker : MarkerType → ModuleModel
  model : ModelId → ModuleModel

-- `DiscriminatedUnion | UntaggedUnion`
pub data ModuleUnion : Type 0 where
  discriminated : UnionId → ModuleUnion
  untagged : UnionId → ModuleUnion

-- `ModuleBase`
pub record ModuleBase : Type 0 where
  pub clients : List Client
  pub enums : List EnumId
  pub models : List ModuleModel
  pub unions : List ModuleUnion

-- A crate or a sub-module with its sub-modules, from above.
mutual
  pub data Module : Type 0 where
    node : ModuleContainer → ModuleBase → SubModules → Module

  pub data SubModules : Type 0 where
    nil : SubModules
    cons : Module → SubModules → SubModules
