-- ===== src/Prelude/Sort.antt =====
-- Array.prototype.sort, which is stable: each entry is inserted behind those that are less than it.
pub mod Texts
use mathlib.Core.List.{List, [], ◌∷◌}
use typespec_rust.Prelude.Tests.{if◌then◌else◌}
use typespec_rust.Prelude.Strings.{Text}
use typespec_rust.Prelude.Order.{less}

module _ {ℓ} {A : Type ℓ} (key : A → Text) where
  unfoldable pub insert_sorted : A → List A → List A
  insert_sorted a [] = a ∷ []
  insert_sorted a (x ∷ xs) = if less (key x) (key a) then x ∷ insert_sorted a xs else a ∷ x ∷ xs

  unfoldable pub sort_by : List A → List A
  unfolding insert_sorted
  sort_by [] = []
  sort_by (x ∷ xs) = insert_sorted x (sort_by xs)
