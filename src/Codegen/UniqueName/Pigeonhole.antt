-- ===== src/Codegen/UniqueName/Pigeonhole.antt =====
-- codegen/helpers.ts, `getUniqueVarName`: a list of names does not collide with more different names
-- than it has entries.
use typespec_rust.Prelude.{
  ℕ, zero, suc, ◌+◌, ◌≤◌, ◌<◌, Text, true, List, [], ◌∷◌, ◌==◌, ==_iff, any, length, if◌then◌else◌,
  ◌≡◌, ◌≢◌, arith,
}
use typespec_rust.Codegen.UniqueName.{collides}

without : Text → List Text → List Text
without x [] = []
without x (y ∷ ys) = let rest = without x ys in if y == x then ys else y ∷ rest

length-without :
    (x : Text) (ys : List Text) → collides ys x ≡ true → length (without x ys) + 1 ≡ length ys
unfolding without collides any
length-without x [] h = cc
length-without x (y ∷ ys) h = ground (arith, length-without x ys)

collides-without :
    (x z : Text) (ys : List Text) → x ≢ z → collides ys z ≡ true → collides (without x ys) z ≡ true
unfolding without collides any
collides-without x z [] n h = cc
collides-without x z (y ∷ ys) n h =
    ground (arith, collides-without x z ys n, ==_iff y x, ==_iff y z)

-- If the first `m` of a sequence of different names all collide, the list has `m` entries at least.
pub pigeonhole :
    (m : ℕ) (g : ℕ → Text) (ys : List Text)
    → ((i j : ℕ) → g i ≡ g j → i ≡ j)
    → ((k : ℕ) → k < m → collides ys (g k) ≡ true)
    → m ≤ length ys
pigeonhole zero g ys inj h = omega arith
pigeonhole (suc m) g ys inj h = omega (
  arith,
  length-without (g m) ys (h m (omega arith)),
  pigeonhole m g (without (g m) ys) inj (λ k lt.
      collides-without (g m) (g k) ys (λ e. absurd (omega (arith, inj m k e))) (h k (omega arith))),
)
