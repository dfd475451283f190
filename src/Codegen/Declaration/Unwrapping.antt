-- ===== src/Codegen/Declaration/Unwrapping.antt =====
-- codegen/helpers.ts, `unwrapType`: the types that it looks into, and what it stops at.
use typespec_rust.Prelude.{Option, ◌≡◌, ◌↔◌, refl}
use mathlib.Core.Path.{subst}
use typespec_rust.Codemodel.Kinds.{
  QualifiedType, Lifetime, TokenCredential, ModelResponse, PagerContinuationKind,
}
use typespec_rust.Codemodel.Types.{RustType, ResultType}
use typespec_rust.Codemodel.Types.RustType.{
  arc, hashmap, option, ref, slice, vec, pager, poller, model, token_credential,
}
use typespec_rust.Codegen.Declaration.{unwrap_type}

-- The second type is the first, or stands in it behind options, vectors, slices, references and values
-- of hash maps, or in an Arc, or as the content of a pager or a poller. Nothing stands behind a box, a
-- response, a result, a request content or an impl trait.
pub data Reaches : RustType → RustType → Type 0 where
  here : {t : RustType} → Reaches t t
  in_option : {t u : RustType} → Reaches t u → Reaches (option t) u
  in_vec : {t u : RustType} → Reaches t u → Reaches (vec t) u
  in_slice : {t u : RustType} → Reaches t u → Reaches (slice t) u
  in_ref : {t u : RustType} {l : Option Lifetime} → Reaches t u → Reaches (ref t l) u
  in_hashmap : {t u : RustType} {q : QualifiedType} → Reaches t u → Reaches (hashmap q t) u
  in_arc : {q : QualifiedType} {c : TokenCredential} → Reaches (arc q c) (token_credential c)
  in_pager :
      {q : QualifiedType} {r : ModelResponse} {c : PagerContinuationKind}
      → Reaches (pager q r c) (model r.content)
  in_poller :
      {q : QualifiedType} {r : ResultType} {s : ModelResponse}
      → Reaches (poller q r s) (model s.content)

-- A type of one of the eight kinds that something stands behind.
abbrev pub IsOpened : RustType → Type 0
IsOpened (arc q t) = Unit
IsOpened (hashmap q t) = Unit
IsOpened (option t) = Unit
IsOpened (ref t l) = Unit
IsOpened (slice t) = Unit
IsOpened (vec t) = Unit
IsOpened (pager q r c) = Unit
IsOpened (poller q r s) = Unit
IsOpened t = ⊥

unwrap_type-Reaches : (t : RustType) → Reaches t (unwrap_type t)
unfolding unwrap_type
unwrap_type-Reaches (arc q t) = in_arc
unwrap_type-Reaches (hashmap q t) = in_hashmap (unwrap_type-Reaches t)
unwrap_type-Reaches (option t) = in_option (unwrap_type-Reaches t)
unwrap_type-Reaches (ref t l) = in_ref (unwrap_type-Reaches t)
unwrap_type-Reaches (slice t) = in_slice (unwrap_type-Reaches t)
unwrap_type-Reaches (vec t) = in_vec (unwrap_type-Reaches t)
unwrap_type-Reaches (pager q r c) = in_pager
unwrap_type-Reaches (poller q r s) = in_poller
unwrap_type-Reaches t = here

unwrap_type-IsOpened : (t : RustType) → ¬ IsOpened (unwrap_type t)
unfolding unwrap_type
unwrap_type-IsOpened (hashmap q t) = unwrap_type-IsOpened t
unwrap_type-IsOpened (option t) = unwrap_type-IsOpened t
unwrap_type-IsOpened (ref t l) = unwrap_type-IsOpened t
unwrap_type-IsOpened (slice t) = unwrap_type-IsOpened t
unwrap_type-IsOpened (vec t) = unwrap_type-IsOpened t
unwrap_type-IsOpened t = λ w. w

unwrap_type_unopened : (t : RustType) → ¬ IsOpened t → unwrap_type t ≡ t
unfolding unwrap_type
unwrap_type_unopened (arc q t) n = absurd (n tt)
unwrap_type_unopened (hashmap q t) n = absurd (n tt)
unwrap_type_unopened (option t) n = absurd (n tt)
unwrap_type_unopened (ref t l) n = absurd (n tt)
unwrap_type_unopened (slice t) n = absurd (n tt)
unwrap_type_unopened (vec t) n = absurd (n tt)
unwrap_type_unopened (pager q r c) n = absurd (n tt)
unwrap_type_unopened (poller q r s) n = absurd (n tt)
unwrap_type_unopened t n = refl

-- What a type reaches and nothing stands behind is what it unwraps to.
pub Reaches-unwrap_type : {t u : RustType} → Reaches t u → ¬ IsOpened u → unwrap_type t ≡ u
unfolding unwrap_type
Reaches-unwrap_type (here {t}) n = unwrap_type_unopened t n
Reaches-unwrap_type (in_option r) n = Reaches-unwrap_type r n
Reaches-unwrap_type (in_vec r) n = Reaches-unwrap_type r n
Reaches-unwrap_type (in_slice r) n = Reaches-unwrap_type r n
Reaches-unwrap_type (in_ref r) n = Reaches-unwrap_type r n
Reaches-unwrap_type (in_hashmap r) n = Reaches-unwrap_type r n
Reaches-unwrap_type in_arc n = refl
Reaches-unwrap_type in_pager n = refl
Reaches-unwrap_type in_poller n = refl

-- `unwrapType` gives the one type that stands behind options, vectors, slices, references, values of
-- hash maps, an Arc, a pager or a poller and is of none of these eight kinds. It does not look into a
-- box, a response, a result, a request content or an impl trait.
pub unwrap_type_iff : (t u : RustType) → (unwrap_type t ≡ u) ↔ (Reaches t u × (¬ IsOpened u))
unwrap_type_iff t u = (
  λ e. (
    subst (Reaches t) e (unwrap_type-Reaches t),
    subst (λ v. ¬ IsOpened v) e (unwrap_type-IsOpened t),
  ),
  λ r. Reaches-unwrap_type r.0 r.1,
)
