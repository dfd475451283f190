-- ===== src/Codemodel/Types.antt =====
-- codemodel/types.ts: the types of the emitted Rust code. A constructor stands for each `kind`, and
-- nominal types are references to objects.
use typespec_rust.Prelude.{Text, Option}
use typespec_rust.Codemodel.Kinds.{
  ModelId, EnumId, UnionId, StructId, Lifetime, QualifiedType, PagerContinuationKind,
  PayloadFormatType, ModelPayloadFormatType, Scalar, LiteralValue, EncodedBytes, Decimal,
  ClientMethodOptions, ExternalType, MarkerType, OffsetDateTime, PagerOptions, PollerOptions,
  SafeInt, TokenCredential, ModelResponse, EnumValue,
}

-- `Scalar | StringType`
pub data LiteralKind : Type 0 where
  scalar : Scalar → LiteralKind
  string : LiteralKind

-- `MarkerType | Unit`
pub data AsyncContent : Type 0 where
  marker : MarkerType → AsyncContent
  unit : AsyncContent

mutual
  -- `Type`
  pub data RustType : Type 0 where
    arc : QualifiedType → TokenCredential → RustType
    async_response : QualifiedType → AsyncContent → RustType
    box : RustType → RustType
    bytes : QualifiedType → RustType
    client_method_options : ClientMethodOptions → RustType
    decimal : Decimal → RustType
    discriminated_union : UnionId → RustType
    encoded_bytes : EncodedBytes → RustType
    enum : EnumId → RustType
    enum_value : EnumValue → RustType
    etag : QualifiedType → RustType
    external : ExternalType → RustType
    hashmap : QualifiedType → RustType → RustType
    impl_trait : Text → RustType → RustType
    json_value : QualifiedType → RustType
    literal : LiteralKind → LiteralValue → RustType
    marker : MarkerType → RustType
    model : ModelId → RustType
    offset_date_time : OffsetDateTime → RustType
    option : RustType → RustType
    pager : QualifiedType → ModelResponse → PagerContinuationKind → RustType
    pager_options : PagerOptions → RustType
    poller : QualifiedType → ResultType → ModelResponse → RustType
    poller_options : PollerOptions → RustType
    raw_response : QualifiedType → RustType
    ref : RustType → Option Lifetime → RustType
    request_content : QualifiedType → RustType → PayloadFormatType → RustType
    response : QualifiedType → RustType → PayloadFormatType → RustType
    result : QualifiedType → RustType → RustType
    safeint : SafeInt → RustType
    scalar : Scalar → RustType
    slice : RustType → RustType
    str : RustType
    string : RustType
    struct : StructId → RustType
    token_credential : TokenCredential → RustType
    unit : RustType
    untagged_union : UnionId → RustType
    url : QualifiedType → RustType
    vec : RustType → RustType

  -- `Poller.resultType`, a `Response<WireType, ModelPayloadFormatType>` or undefined
  pub data ResultType : Type 0 where
    no_result : ResultType
    with_result : QualifiedType → RustType → ModelPayloadFormatType → ResultType
