-- ===== src/Codegen/Declaration/Brackets.antt =====
-- codegen/helpers.ts, `getTypeDeclaration`: the angle brackets of a declaration nest.
use typespec_rust.Prelude.{text, [], ◌++◌, arith}
use typespec_rust.Codemodel.Types.{RustType, AsyncContent}
use typespec_rust.Codemodel.Types.RustType.{
  arc, async_response, box, bytes, client_method_options, decimal, discriminated_union,
  encoded_bytes, enum, enum_value, etag, external, hashmap, impl_trait, json_value, literal, marker,
  model, offset_date_time, option, pager, pager_options, poller, poller_options, raw_response, ref,
  request_content, response, result, safeint, slice, str, struct, token_credential, unit,
  untagged_union, url, vec,
}
use typespec_rust.Codemodel.Objects.{Heap}
use typespec_rust.Codegen.Declaration.{
  WithLifetime, default, get_type_declaration, named, async_argument,
  get_generic_lifetime_annotation,
}
use typespec_rust.Codegen.Declaration.Nests.{
  Nests, Nests-plain, Nests-append, Nests-wrap, Nests-generic,
}
use typespec_rust.Codegen.Declaration.Parts.{
  PlainHeap, PlainType, Nests-annotation, Nests-named, Nests-format, Nests-scalar, Nests-literal,
  Nests-encoded, Nests-ref, plain_of_ref,
}

-- With plain names, the angle brackets of a declaration nest: none closes that was not open, and none
-- is left open.
pub get_type_declaration-Nests :
    (h : Heap) (t : RustType) (w : WithLifetime)
    → PlainHeap h
    → PlainType t
    → Nests (get_type_declaration h t w)
unfolding get_type_declaration async_argument
get_type_declaration-Nests h (arc q t) w ph p =
    Nests-generic q.name (text "dyn " ++ t.qualified.name) p.0 (
      Nests-append (text "dyn ") t.qualified.name (Nests-plain (text "dyn ") (omega arith))
        (Nests-plain t.qualified.name p.1))
get_type_declaration-Nests h (async_response q (AsyncContent.marker m)) w ph p =
    Nests-generic q.name m.name p.0 (Nests-plain m.name p.1)
get_type_declaration-Nests h (async_response q AsyncContent.unit) w ph p =
    Nests-append q.name [] (Nests-plain q.name p) (Nests-plain [] tt)
get_type_declaration-Nests h (box t) w ph p =
    Nests-generic (text "Box") _ (omega arith) (get_type_declaration-Nests h t default ph p)
get_type_declaration-Nests h (bytes q) w ph p = Nests-plain q.name p
get_type_declaration-Nests h (decimal d) w ph p = Nests-plain d.qualified.name p
get_type_declaration-Nests h (marker m) w ph p = Nests-plain m.name p
get_type_declaration-Nests h (client_method_options o) w ph p =
    Nests-append o.qualified.name (get_generic_lifetime_annotation o.lifetime)
      (Nests-plain o.qualified.name p.0) (Nests-annotation o.lifetime p.1)
get_type_declaration-Nests h (poller_options o) w ph p =
    Nests-append o.qualified.name (get_generic_lifetime_annotation o.lifetime)
      (Nests-plain o.qualified.name p.0) (Nests-annotation o.lifetime p.1)
get_type_declaration-Nests h (encoded_bytes e) w ph p = Nests-encoded e.slice
get_type_declaration-Nests h (enum_value v) w ph p = Nests-plain _ (ph.enums v.type)
get_type_declaration-Nests h (etag q) w ph p = Nests-plain (text "Etag") (omega arith)
get_type_declaration-Nests h (hashmap q t) w ph p =
    Nests-generic q.name (text "String, " ++ get_type_declaration h t w) p.0 (
      Nests-append (text "String, ") (get_type_declaration h t w)
        (Nests-plain (text "String, ") (omega arith)) (get_type_declaration-Nests h t w ph p.1))
get_type_declaration-Nests h (impl_trait n t) w ph p =
    Nests-append (text "impl " ++ n) (text "<" ++ get_type_declaration h t w ++ text ">")
      (Nests-append (text "impl ") n (Nests-plain (text "impl ") (omega arith)) (Nests-plain n p.0))
      (Nests-wrap _ (get_type_declaration-Nests h t w ph p.1))
get_type_declaration-Nests h (literal k v) w ph p = Nests-literal k
get_type_declaration-Nests h (option t) w ph p =
    Nests-generic (text "Option") _ (omega arith) (get_type_declaration-Nests h t w ph p)
get_type_declaration-Nests h (pager q r c) w ph p = Nests-generic (text "Pager") _ (omega arith) (
    Nests-append (named (h.models r.content).name (h.models r.content).lifetime w) _
      (Nests-named _ _ w (ph.models r.content) (ph.model_lifetimes r.content)) (Nests-format _))
get_type_declaration-Nests h (pager_options o) w ph p =
    Nests-generic o.qualified.name o.lifetime.name p.0 (Nests-plain o.lifetime.name p.1)
get_type_declaration-Nests h (poller q r s) w ph p =
    Nests-generic (text "Poller") _ (omega arith)
      (Nests-named _ _ w (ph.models s.content) (ph.model_lifetimes s.content))
get_type_declaration-Nests h (ref t l) w ph p =
    Nests-ref w t l _ p (get_type_declaration-Nests h t default ph (plain_of_ref t l p))
get_type_declaration-Nests h (request_content q t f) w ph p =
    Nests-generic q.name _ p.0
      (Nests-append _ _ (get_type_declaration-Nests h t w ph p.1) (Nests-format f))
get_type_declaration-Nests h (result q t) w ph p =
    Nests-generic q.name _ p.0 (get_type_declaration-Nests h t w ph p.1)
get_type_declaration-Nests h (response q t f) w ph p =
    Nests-generic q.name _ p.0
      (Nests-append _ _ (get_type_declaration-Nests h t default ph p.1) (Nests-format f))
get_type_declaration-Nests h RustType.string w ph p = Nests-plain (text "String") (omega arith)
get_type_declaration-Nests h (url q) w ph p = Nests-plain (text "Url") (omega arith)
get_type_declaration-Nests h str w ph p = Nests-plain (text "str") (omega arith)
get_type_declaration-Nests h (RustType.scalar s) w ph p = Nests-scalar s.type
get_type_declaration-Nests h (slice t) w ph p =
    Nests-append (text "[" ++ get_type_declaration h t default) (text "]")
      (Nests-append (text "[") (get_type_declaration h t default)
        (Nests-plain (text "[") (omega arith)) (get_type_declaration-Nests h t default ph p))
      (Nests-plain (text "]") (omega arith))
get_type_declaration-Nests h (discriminated_union i) w ph p = Nests-plain _ (ph.unions i)
get_type_declaration-Nests h (enum e) w ph p = Nests-plain _ (ph.enums e)
get_type_declaration-Nests h (json_value q) w ph p = Nests-plain q.name p
get_type_declaration-Nests h (offset_date_time o) w ph p = Nests-plain o.qualified.name p
get_type_declaration-Nests h (raw_response q) w ph p = Nests-plain q.name p
get_type_declaration-Nests h (safeint s) w ph p = Nests-plain s.qualified.name p
get_type_declaration-Nests h (token_credential t) w ph p = Nests-plain t.qualified.name p
get_type_declaration-Nests h (untagged_union i) w ph p = Nests-plain _ (ph.untagged_unions i)
get_type_declaration-Nests h (external e) w ph p = Nests-named _ _ w p.0 p.1
get_type_declaration-Nests h (model m) w ph p =
    Nests-named _ _ w (ph.models m) (ph.model_lifetimes m)
get_type_declaration-Nests h (struct s) w ph p =
    Nests-named _ _ w (ph.structs s) (ph.struct_lifetimes s)
get_type_declaration-Nests h unit w ph p = Nests-plain (text "()") (omega arith)
get_type_declaration-Nests h (vec t) w ph p =
    Nests-generic (text "Vec") _ (omega arith) (get_type_declaration-Nests h t w ph p)
