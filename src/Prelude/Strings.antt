-- ===== src/Prelude/Strings.antt =====
-- JavaScript strings as lists of UTF-16 code units. The literals of the source are ASCII.
use Prim.Native.Nat.{ℕ}
use Prim.Native.Char.{code}
use Prim.Native.String.{String}
use mathlib.Core.Path.{◌≡◌, refl, ap₂}
use mathlib.Core.Logic.{◌↔◌, ◌≢◌}
use mathlib.Core.Bool.{Bool, true, false, ◌&&◌}
use mathlib.Core.List.{List, [], ◌∷◌, ◌++◌}
use native.Mathlib.Omega.{arith}
use typespec_rust.Prelude.Tests.{eqb}

abbrev pub Text : Type 0
Text = List ℕ

-- A string literal.
abbrev pub text : String → Text
text String.[] = []
text (String.◌∷◌ c s) = code c ∷ text s

infix 50 ◌==◌
-- `===` on strings
unfoldable pub ◌==◌ : Text → Text → Bool
[] == [] = true
[] == (y ∷ ys) = false
(x ∷ xs) == [] = false
(x ∷ xs) == (y ∷ ys) = eqb x y && xs == ys

pub ==-refl : (xs : Text) → (xs == xs) ≡ true
unfolding ◌==◌
==-refl [] = refl
==-refl (x ∷ xs) = ground (arith, ==-refl xs)

pub ==_eq : (xs ys : Text) → (xs == ys) ≡ true → xs ≡ ys
unfolding ◌==◌
==_eq [] [] h = refl
==_eq [] (y ∷ ys) h = cc
==_eq (x ∷ xs) [] h = cc
==_eq (x ∷ xs) (y ∷ ys) h = ap₂ ◌∷◌ (ground arith) (==_eq xs ys (ground arith))

pub ==_iff : (xs ys : Text) → ((xs == ys) ≡ true) ↔ (xs ≡ ys)
==_iff xs ys = (==_eq xs ys, λ e. rw e (==-refl ys))

pub ==_ne : (xs ys : Text) → xs ≢ ys → (xs == ys) ≡ false
==_ne xs ys h = ground (arith, ==_iff xs ys)

pub ==_sym : (xs ys : Text) → (xs == ys) ≡ (ys == xs)
==_sym xs ys = ground (arith, ==_iff xs ys, ==_iff ys xs)

-- Array.prototype.join
unfoldable pub join : Text → List Text → Text
join sep [] = []
join sep (x ∷ []) = x
join sep (x ∷ y ∷ ys) = x ++ sep ++ join sep (y ∷ ys)
