-- ===== src/Prelude/Order.antt =====
-- The order of JavaScript strings, by code units.
use typespec_rust.Prelude.Tests.{ltb, eqb}
use typespec_rust.Prelude.Strings.{Text}
use mathlib.Core.Path.{◌≡◌, refl, ap₂}
use mathlib.Core.Bool.{Bool, true, false, ◌&&◌, ◌||◌}
use mathlib.Core.List.{[], ◌∷◌}
use native.Mathlib.Omega.{arith}

-- `a < b` on strings
unfoldable pub less : Text → Text → Bool
less [] [] = false
less [] (y ∷ ys) = true
less (x ∷ xs) [] = false
less (x ∷ xs) (y ∷ ys) = ltb x y || (eqb x y && less xs ys)

pub less_irrefl : (xs : Text) → less xs xs ≡ false
unfolding less
less_irrefl [] = refl
less_irrefl (x ∷ xs) = ground (arith, less_irrefl xs)

pub less_trans : (xs ys zs : Text) → less xs ys ≡ true → less ys zs ≡ true → less xs zs ≡ true
unfolding less
less_trans xs [] [] h k = cc
less_trans [] (y ∷ ys) [] h k = cc
less_trans (x ∷ xs) (y ∷ ys) [] h k = cc
less_trans [] ys (z ∷ zs) h k = refl
less_trans (x ∷ xs) [] (z ∷ zs) h k = cc
less_trans (x ∷ xs) (y ∷ ys) (z ∷ zs) h k = ground (arith, less_trans xs ys zs)

pub less_asymm : (xs ys : Text) → less xs ys ≡ true → less ys xs ≡ false
less_asymm xs ys h = ground (arith, less_trans xs ys xs, less_irrefl xs)

-- Of two different strings one is less.
pub less_total : (xs ys : Text) → less xs ys ≡ false → less ys xs ≡ false → xs ≡ ys
unfolding less
less_total [] [] h k = refl
less_total [] (y ∷ ys) h k = cc
less_total (x ∷ xs) [] h k = cc
less_total (x ∷ xs) (y ∷ ys) h k =
    ap₂ ◌∷◌ (ground arith) (less_total xs ys (ground arith) (ground arith))
