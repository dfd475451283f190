-- ===== src/Utils/Unwrap/Chains.antt =====
-- utils/utils.ts, `asTypeOf`: what the chains of wrappers are.
use typespec_rust.Prelude.{Text, text, List, [], ◌∷◌, Option, none, some}
use typespec_rust.Codemodel.Kinds.{
  QualifiedType, Lifetime, PayloadFormatType, ModelPayloadFormatType, Scalar, LiteralValue,
  TokenCredential, ModelResponse, PagerContinuationKind,
}
use typespec_rust.Codemodel.Types.{RustType, LiteralKind}
use typespec_rust.Codemodel.Types.RustType.{
  arc, box, hashmap, impl_trait, literal, model, option, pager, ref, request_content, response,
  result, slice, token_credential, vec,
}
use typespec_rust.Utils.Unwrap.{kind}

-- A format of a model, among all formats.
abbrev pub wide_format : ModelPayloadFormatType → PayloadFormatType
wide_format ModelPayloadFormatType.json_format = PayloadFormatType.json_format
wide_format ModelPayloadFormatType.xml_format = PayloadFormatType.xml_format

-- The text is the kind of the first type, and the second type stands directly in the first. The kinds
-- that no rule names have nothing in them; a scalar has itself, and a pager has its response.
pub data Inner : Text → RustType → RustType → Type 0 where
  vec_inner : {t : RustType} → Inner (text "Vec") (vec t) t
  arc_inner :
      {q : QualifiedType} {c : TokenCredential} → Inner (text "arc") (arc q c) (token_credential c)
  box_inner : {t : RustType} → Inner (text "box") (box t) t
  hashmap_inner : {q : QualifiedType} {t : RustType} → Inner (text "hashmap") (hashmap q t) t
  impl_inner : {n : Text} {t : RustType} → Inner (text "implTrait") (impl_trait n t) t
  scalar_literal :
      {s : Scalar} {v : LiteralValue}
      → Inner (text "literal") (literal (LiteralKind.scalar s) v) (RustType.scalar s)
  string_literal :
      {v : LiteralValue} → Inner (text "literal") (literal LiteralKind.string v) RustType.string
  option_inner : {t : RustType} → Inner (text "option") (option t) t
  pager_inner :
      {q : QualifiedType} {r : ModelResponse} {c : PagerContinuationKind}
      → Inner
          (text "pager")
          (pager q r c)
          (response r.qualified (model r.content) (wide_format r.format))
  ref_inner : {t : RustType} {l : Option Lifetime} → Inner (text "ref") (ref t l) t
  content_inner :
      {q : QualifiedType} {t : RustType} {f : PayloadFormatType}
      → Inner (text "requestContent") (request_content q t f) t
  response_inner :
      {q : QualifiedType} {t : RustType} {f : PayloadFormatType}
      → Inner (text "response") (response q t f) t
  result_inner : {q : QualifiedType} {t : RustType} → Inner (text "result") (result q t) t
  scalar_inner : {s : Scalar} → Inner (text "scalar") (RustType.scalar s) (RustType.scalar s)
  slice_inner : {t : RustType} → Inner (text "slice") (slice t) t

-- What a type is unwrapped to, if to anything, stands in it.
abbrev Stands : RustType → Option RustType → Type 0
Stands t none = Unit
Stands t (some u) = Inner (kind t) t u

-- Each kind of the list wraps the next, down to the inner type.
pub data Wraps : List Text → RustType → RustType → Type 0 where
  bare : {t : RustType} → Wraps [] t t
  wrapped :
      {w : Text} {ws : List Text} {t u v : RustType}
      → Inner w t u
      → Wraps ws u v
      → Wraps (w ∷ ws) t v
