-- ===== src/Codegen/Declaration/Parts.antt =====
-- codegen/helpers.ts, `getTypeDeclaration`: names without brackets, and the parts of a declaration.
use typespec_rust.Prelude.{
  ℕ, Text, text, Option, none, some, [], ◌++◌, ◌≡◌, refl, arith, if◌then◌else◌, true, false, Bool,
}
use typespec_rust.Codemodel.Kinds.{Lifetime, PayloadFormatType, ScalarType}
use typespec_rust.Codemodel.Types.{RustType, AsyncContent, LiteralKind}
use typespec_rust.Codemodel.Types.RustType.{
  arc, async_response, box, bytes, client_method_options, decimal, external, hashmap, impl_trait,
  json_value, marker, offset_date_time, option, pager_options, poller_options, raw_response, ref,
  request_content, response, result, safeint, slice, token_credential, vec,
}
use typespec_rust.Codemodel.Objects.{Heap}
use typespec_rust.Codegen.Use.{format_name}
use typespec_rust.Codegen.Declaration.{
  WithLifetime, default, anonymous, omit, named, format_argument, scalar_name, literal_name,
  ref_text, ref_lifetime, get_generic_lifetime_annotation,
}
use typespec_rust.Codegen.Declaration.Nests.{
  Nests, IsPlain, Nests-plain, Nests-append, Nests-wrap, Nests-generic,
}

-- The names of all models, enums, unions and structs, and the lifetimes of these, are plain.
pub record PlainHeap (h : Heap) : Type 0 where
  pub models : (m : ℕ) → IsPlain (h.models m).name
  pub model_lifetimes : (m : ℕ) (l : Lifetime) → (h.models m).lifetime ≡ some l → IsPlain l.name
  pub enums : (e : ℕ) → IsPlain (h.enums e).name
  pub unions : (i : ℕ) → IsPlain (h.unions i).name
  pub untagged_unions : (i : ℕ) → IsPlain (h.untagged_unions i).name
  pub structs : (s : ℕ) → IsPlain (h.structs s).name
  pub struct_lifetimes : (s : ℕ) (l : Lifetime) → (h.structs s).lifetime ≡ some l → IsPlain l.name

-- So are the names that the type itself holds.
abbrev pub PlainType : RustType → Type 0
PlainType (arc q t) = IsPlain q.name × IsPlain t.qualified.name
PlainType (async_response q (AsyncContent.marker m)) = IsPlain q.name × IsPlain m.name
PlainType (async_response q AsyncContent.unit) = IsPlain q.name
PlainType (box t) = PlainType t
PlainType (bytes q) = IsPlain q.name
PlainType (client_method_options o) = IsPlain o.qualified.name × IsPlain o.lifetime.name
PlainType (decimal d) = IsPlain d.qualified.name
PlainType (external e) =
    IsPlain e.qualified.name × ((l : Lifetime) → e.lifetime ≡ some l → IsPlain l.name)
PlainType (hashmap q t) = IsPlain q.name × PlainType t
PlainType (impl_trait n t) = IsPlain n × PlainType t
PlainType (json_value q) = IsPlain q.name
PlainType (marker m) = IsPlain m.name
PlainType (offset_date_time o) = IsPlain o.qualified.name
PlainType (option t) = PlainType t
PlainType (pager_options o) = IsPlain o.qualified.name × IsPlain o.lifetime.name
PlainType (poller_options o) = IsPlain o.qualified.name × IsPlain o.lifetime.name
PlainType (raw_response q) = IsPlain q.name
PlainType (ref t none) = PlainType t
PlainType (ref t (some l)) = PlainType t × IsPlain l.name
PlainType (request_content q t f) = IsPlain q.name × PlainType t
PlainType (response q t f) = IsPlain q.name × PlainType t
PlainType (result q t) = IsPlain q.name × PlainType t
PlainType (safeint s) = IsPlain s.qualified.name
PlainType (slice t) = PlainType t
PlainType (token_credential t) = IsPlain t.qualified.name
PlainType (vec t) = PlainType t
PlainType t = Unit

pub Nests-annotation : (l : Lifetime) → IsPlain l.name → Nests (get_generic_lifetime_annotation l)
unfolding get_generic_lifetime_annotation
Nests-annotation l p = Nests-wrap l.name (Nests-plain l.name p)

pub Nests-named :
    (n : Text) (l : Option Lifetime) (w : WithLifetime)
    → IsPlain n
    → ((k : Lifetime) → l ≡ some k → IsPlain k.name)
    → Nests (named n l w)
unfolding named
Nests-named n none w p q = Nests-plain n p
Nests-named n (some l) default p q =
    Nests-append n (get_generic_lifetime_annotation l) (Nests-plain n p)
      (Nests-annotation l (q l refl))
Nests-named n (some l) anonymous p q =
    Nests-generic n (text "'_") p (Nests-plain (text "'_") (omega arith))
Nests-named n (some l) omit p q = Nests-plain n p

pub Nests-format : (f : PayloadFormatType) → Nests (format_argument f)
unfolding format_argument format_name
Nests-format PayloadFormatType.json_format = Nests-plain [] tt
Nests-format PayloadFormatType.binary_format = Nests-plain (text ", BinaryFormat") (omega arith)
Nests-format PayloadFormatType.no_format = Nests-plain (text ", NoFormat") (omega arith)
Nests-format PayloadFormatType.xml_format = Nests-plain (text ", XmlFormat") (omega arith)

pub Nests-scalar : (s : ScalarType) → Nests (scalar_name s)
unfolding scalar_name
Nests-scalar ScalarType.bool = Nests-plain _ (omega arith)
Nests-scalar s = Nests-plain _ (omega arith)

pub Nests-literal : (k : LiteralKind) → Nests (literal_name k)
unfolding literal_name
Nests-literal (LiteralKind.scalar s) = Nests-scalar s.type
Nests-literal LiteralKind.string = Nests-plain (text "String") (omega arith)

pub Nests-encoded : (b : Bool) → Nests (if b then text "[u8]" else text "Vec<u8>")
Nests-encoded true = Nests-plain (text "[u8]") (omega arith)
Nests-encoded false =
    Nests-generic (text "Vec") (text "u8") (omega arith) (Nests-plain (text "u8") (omega arith))

pub Nests-ref :
    (w : WithLifetime) (t : RustType) (l : Option Lifetime) (d : Text)
    → PlainType (ref t l)
    → Nests d
    → Nests (ref_text w l d)
unfolding ref_text ref_lifetime
Nests-ref omit t l d p a = a
Nests-ref default t none d p a = Nests-append (text "&") d (Nests-plain (text "&") (omega arith)) a
Nests-ref anonymous t none d p a =
    Nests-append (text "&") d (Nests-plain (text "&") (omega arith)) a
Nests-ref w t (some l) d p a =
    Nests-append (text "&" ++ (l.name ++ text " ")) d
      (Nests-append (text "&") (l.name ++ text " ") (Nests-plain (text "&") (omega arith)) (
        Nests-append l.name (text " ") (Nests-plain l.name p.1)
          (Nests-plain (text " ") (omega arith))))
      a

pub plain_of_ref : (t : RustType) (l : Option Lifetime) → PlainType (ref t l) → PlainType t
plain_of_ref t none p = p
plain_of_ref t (some l) p = p.0
