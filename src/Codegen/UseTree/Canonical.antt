-- ===== src/Codegen/UseTree/Canonical.antt =====
-- codegen/use.ts: two sorted trees that hold the same paths are one tree.
use typespec_rust.Prelude.{Text, true, false, List, [], ◌∷◌, ==_iff, ==-refl, ◌≡◌, refl, arith}
use typespec_rust.Prelude.Order.{less, less_irrefl, less_asymm}
use typespec_rust.Codegen.UseTree.{UseNodes, leaf, node}
use typespec_rust.Codegen.UseTree.Paths.{holds}
use typespec_rust.Codegen.UseTree.Sorted.{Above, Sorted}

-- The same paths.
abbrev pub SamePaths : UseNodes → UseNodes → Type 0
SamePaths ns ms = (p : List Text) → holds p ns ≡ holds p ms

holds-Above : (x : Text) (p : List Text) (ns : UseNodes) → Above x ns → holds (x ∷ p) ns ≡ false
unfolding holds
holds-Above x p leaf a = refl
holds-Above x p (node n c rest) a = ground (arith, holds-Above x p rest, ==_iff n x, less_irrefl x)

less_of_holds :
    (m x : Text) (p : List Text) (ns : UseNodes)
    → Above m ns
    → holds (x ∷ p) ns ≡ true
    → less m x ≡ true
unfolding holds
less_of_holds m x p leaf a h = cc
less_of_holds m x p (node n c rest) a h = ground (arith, less_of_holds m x p rest, ==_iff n x)

heads_eq :
    (n m : Text) (c d ns ms : UseNodes)
    → Above n ns
    → Above m ms
    → SamePaths (node n c ns) (node m d ms)
    → n ≡ m
unfolding holds
heads_eq n m c d ns ms a b same = ground (
  arith,
  same (n ∷ []),
  same (m ∷ []),
  less_of_holds m n [] ms b,
  less_of_holds n m [] ns a,
  less_asymm n m,
  ==_iff n m,
  ==_iff m n,
  ==-refl n,
  ==-refl m,
)

module _ (n m : Text) (c d ns ms : UseNodes) (a : Above n ns) (b : Above m ms)
    (same : SamePaths (node n c ns) (node m d ms)) where
  children_same : SamePaths c d
  unfolding holds
  children_same p = ground (
    arith,
    same (n ∷ p),
    heads_eq n m c d ns ms a b same,
    holds-Above n p ns a,
    holds-Above m p ms b,
    ==-refl n,
  )

  rest_same : SamePaths ns ms
  unfolding holds
  rest_same [] = refl
  rest_same (x ∷ p) = ground (
    arith,
    same (x ∷ p),
    heads_eq n m c d ns ms a b same,
    holds-Above n p ns a,
    holds-Above m p ms b,
    ==_iff n x,
  )

-- Sorted trees with the same paths are equal.
pub canonical : (ns ms : UseNodes) → Sorted ns → Sorted ms → SamePaths ns ms → ns ≡ ms
unfolding holds
canonical leaf leaf s t same = refl
canonical leaf (node m d ms) s t same = ground (arith, same (m ∷ []), ==-refl m)
canonical (node n c ns) leaf s t same = ground (arith, same (n ∷ []), ==-refl n)
canonical (node n c ns) (node m d ms) s t same = ground (
  arith,
  heads_eq n m c d ns ms s.0 t.0 same,
  canonical c d s.1 t.1 (children_same n m c d ns ms s.0 t.0 same),
  canonical ns ms s.2 t.2 (rest_same n m c d ns ms s.0 t.0 same),
)
