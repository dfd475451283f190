-- ===== src/Prelude/Sort/Texts.antt =====
-- The sort of strings: the result depends only on how often each string occurs.
use Prim.Native.Nat.{ℕ, suc, ◌<◌}
use mathlib.Core.Path.{◌≡◌, refl, ap₂, sym, ◌∙◌}
use mathlib.Core.Bool.{false}
use mathlib.Core.List.{List, [], ◌∷◌}
use native.Mathlib.Omega.{arith}
use typespec_rust.Prelude.Tests.{if◌then◌else◌}
use typespec_rust.Prelude.Lists.{All}
use typespec_rust.Prelude.Strings.{Text, ◌==◌, ==_iff, ==-refl}
use typespec_rust.Prelude.Order.{less, less_irrefl, less_trans, less_asymm, less_total}
use typespec_rust.Prelude.Sort.{insert_sorted, sort_by}

-- How often a string occurs.
unfoldable pub occurrences : Text → List Text → ℕ
occurrences x [] = 0
occurrences x (y ∷ ys) = if y == x then suc (occurrences x ys) else occurrences x ys

-- Each string occurs as often in the one list as in the other.
abbrev pub SameTexts : List Text → List Text → Type 0
SameTexts xs ys = (x : Text) → occurrences x xs ≡ occurrences x ys

abbrev Lower : Text → List Text → Type 0
Lower x = All (λ y. less y x ≡ false)

abbrev pub Ascending : List Text → Type 0
Ascending [] = Unit
Ascending (x ∷ xs) = Lower x xs × Ascending xs

abbrev self : Text → Text
self t = t

not_less_trans : (y x a : Text) → less y x ≡ false → less x a ≡ false → less y a ≡ false
not_less_trans y x a h k = ground (arith, less_trans x y a, less_total x y)

Lower-trans : (x a : Text) (ys : List Text) → less x a ≡ false → Lower x ys → Lower a ys
Lower-trans x a [] h l = tt
Lower-trans x a (y ∷ ys) h l = (not_less_trans y x a l.0 h, Lower-trans x a ys h l.1)

Lower-insert_sorted :
    (x a : Text) (ys : List Text)
    → less a x ≡ false
    → Lower x ys
    → Lower x (insert_sorted self a ys)
unfolding insert_sorted
Lower-insert_sorted x a [] h l = (h, tt)
Lower-insert_sorted x a (y ∷ ys) h l = ground (arith, Lower-insert_sorted x a ys h l.1)

insert_sorted-Ascending :
    (a : Text) (ys : List Text) → Ascending ys → Ascending (insert_sorted self a ys)
unfolding insert_sorted
insert_sorted-Ascending a [] s = (tt, tt)
insert_sorted-Ascending a (y ∷ ys) s = ground (
  arith,
  insert_sorted-Ascending a ys s.1,
  Lower-insert_sorted y a ys,
  less_asymm y a,
  Lower-trans y a ys,
)

pub sort_by-Ascending : (xs : List Text) → Ascending (sort_by self xs)
unfolding sort_by
sort_by-Ascending [] = tt
sort_by-Ascending (x ∷ xs) = insert_sorted-Ascending x _ (sort_by-Ascending xs)

occurrences-insert_sorted :
    (x a : Text) (ys : List Text) → occurrences x (insert_sorted self a ys) ≡ occurrences x (a ∷ ys)
unfolding occurrences insert_sorted
occurrences-insert_sorted x a [] = refl
occurrences-insert_sorted x a (y ∷ ys) = ground (arith, occurrences-insert_sorted x a ys)

pub occurrences-sort_by :
    (x : Text) (xs : List Text) → occurrences x (sort_by self xs) ≡ occurrences x xs
unfolding occurrences sort_by
occurrences-sort_by x [] = refl
occurrences-sort_by x (y ∷ ys) =
    ground (arith, occurrences-insert_sorted x y (sort_by self ys), occurrences-sort_by x ys)

-- What occurs is not below a lower bound.
not_below : (m x : Text) (ys : List Text) → Lower m ys → 0 < occurrences x ys → less x m ≡ false
unfolding occurrences
not_below m x [] l h = absurd (omega arith)
not_below m x (y ∷ ys) l h = ground (arith, not_below m x ys l.1, ==_iff y x)

heads_eq :
    (x y : Text) (xs ys : List Text) → Lower x xs → Lower y ys → SameTexts (x ∷ xs) (y ∷ ys) → x ≡ y
unfolding occurrences
heads_eq x y xs ys l k same = ground (
  arith,
  same x,
  same y,
  not_below x y xs l,
  not_below y x ys k,
  less_total x y,
  ==-refl x,
  ==-refl y,
  ==_iff x y,
  ==_iff y x,
  less_irrefl x,
)

-- Ascending lists of the same strings are equal.
Ascending-canonical : (xs ys : List Text) → Ascending xs → Ascending ys → SameTexts xs ys → xs ≡ ys
unfolding occurrences
Ascending-canonical [] [] s t same = refl
Ascending-canonical [] (y ∷ ys) s t same = ground (arith, same y, ==-refl y)
Ascending-canonical (x ∷ xs) [] s t same = ground (arith, same x, ==-refl x)
Ascending-canonical (x ∷ xs) (y ∷ ys) s t same =
    let e = heads_eq x y xs ys s.0 t.0 same in
    ap₂ ◌∷◌ e (Ascending-canonical xs ys s.1 t.1 λ z. ground (arith, same z, e))

-- Sorting lists with the same strings gives the same list.
pub sort_by_canonical : (xs ys : List Text) → SameTexts xs ys → sort_by self xs ≡ sort_by self ys
sort_by_canonical xs ys same =
    Ascending-canonical _ _ (sort_by-Ascending xs) (sort_by-Ascending ys)
      λ x. occurrences-sort_by x xs ∙ same x ∙ sym (occurrences-sort_by x ys)
