-- ===== src/Codegen/Declaration/Lifetimes.antt =====
-- codegen/helpers.ts, `getTypeDeclaration`: the argument `withLifetime`.
use typespec_rust.Prelude.{Text, none, some, Option, ◌≡◌, refl}
use typespec_rust.Codemodel.Kinds.{Lifetime}
use typespec_rust.Codemodel.Types.{RustType}
use typespec_rust.Codemodel.Types.RustType.{
  external, hashmap, impl_trait, model, option, pager, poller, ref, request_content, result, struct,
  vec,
}
use typespec_rust.Codemodel.Objects.{Heap}
use typespec_rust.Codegen.Declaration.{WithLifetime, get_type_declaration, named}

-- No lifetime stands where the argument reaches, and no reference.
abbrev pub LifetimeFree : Heap → RustType → Type 0
LifetimeFree h (external e) = e.lifetime ≡ none
LifetimeFree h (model m) = (h.models m).lifetime ≡ none
LifetimeFree h (struct s) = (h.structs s).lifetime ≡ none
LifetimeFree h (pager q r c) = (h.models r.content).lifetime ≡ none
LifetimeFree h (poller q r s) = (h.models s.content).lifetime ≡ none
LifetimeFree h (ref t l) = ⊥
LifetimeFree h (hashmap q t) = LifetimeFree h t
LifetimeFree h (impl_trait n t) = LifetimeFree h t
LifetimeFree h (option t) = LifetimeFree h t
LifetimeFree h (request_content q t f) = LifetimeFree h t
LifetimeFree h (result q t) = LifetimeFree h t
LifetimeFree h (vec t) = LifetimeFree h t
LifetimeFree h t = Unit

named_free :
    (name : Text) (l : Option Lifetime) (w w' : WithLifetime)
    → l ≡ none
    → named name l w ≡ named name l w'
unfolding named
named_free name none w w' e = refl
named_free name (some l) w w' e = cc

-- A type without lifetimes has one declaration, whatever `withLifetime` is.
pub get_type_declaration-LifetimeFree :
    (h : Heap) (t : RustType) (w w' : WithLifetime)
    → LifetimeFree h t
    → get_type_declaration h t w ≡ get_type_declaration h t w'
unfolding get_type_declaration
get_type_declaration-LifetimeFree h (external e) w w' f = named_free _ _ w w' f
get_type_declaration-LifetimeFree h (model m) w w' f = named_free _ _ w w' f
get_type_declaration-LifetimeFree h (struct s) w w' f = named_free _ _ w w' f
get_type_declaration-LifetimeFree h (pager q r c) w w' f =
    rw (named_free (h.models r.content).name (h.models r.content).lifetime w w' f)
get_type_declaration-LifetimeFree h (poller q r s) w w' f =
    rw (named_free (h.models s.content).name (h.models s.content).lifetime w w' f)
get_type_declaration-LifetimeFree h (ref t l) w w' f = absurd f
get_type_declaration-LifetimeFree h (hashmap q t) w w' f =
    rw (get_type_declaration-LifetimeFree h t w w' f)
get_type_declaration-LifetimeFree h (impl_trait n t) w w' f =
    rw (get_type_declaration-LifetimeFree h t w w' f)
get_type_declaration-LifetimeFree h (option t) w w' f =
    rw (get_type_declaration-LifetimeFree h t w w' f)
get_type_declaration-LifetimeFree h (request_content q t g) w w' f =
    rw (get_type_declaration-LifetimeFree h t w w' f)
get_type_declaration-LifetimeFree h (result q t) w w' f =
    rw (get_type_declaration-LifetimeFree h t w w' f)
get_type_declaration-LifetimeFree h (vec t) w w' f =
    rw (get_type_declaration-LifetimeFree h t w w' f)
get_type_declaration-LifetimeFree h t w w' f = refl
