-- ===== src/Codegen/UseTree/Paths.antt =====
-- codegen/use.ts, `useTree`: which paths a tree of use statements holds.
use typespec_rust.Prelude.{
  Text, Bool, true, false, List, [], ◌∷◌, ◌&&◌, ◌||◌, ◌==◌, ==_iff, ==-refl, ◌≡◌, refl, arith,
}
use typespec_rust.Codegen.UseTree.{UseNodes, leaf, node, insert}

-- A name stands among the nodes.
unfoldable pub names : Text → UseNodes → Bool
names x leaf = false
names x (node n children rest) = n == x || names x rest

-- The path goes down the tree, from one of the nodes on. The empty path does.
unfoldable pub holds : List Text → UseNodes → Bool
holds [] ns = true
holds (x ∷ p) leaf = false
holds (x ∷ p) (node n children rest) = (n == x && holds p children) || holds (x ∷ p) rest

-- The first path is where the second begins.
unfoldable pub starts : List Text → List Text → Bool
starts [] q = true
starts (x ∷ p) [] = false
starts (x ∷ p) (y ∷ q) = x == y && starts p q

-- Siblings have different names, at every node.
abbrev pub Distinct : UseNodes → Type 0
Distinct leaf = Unit
Distinct (node n children rest) = (names n rest ≡ false) × Distinct children × Distinct rest

holds-leaf : (p q : List Text) → holds p (insert q leaf) ≡ (holds p leaf || starts p q)
unfolding holds insert starts
holds-leaf [] q = refl
holds-leaf (x ∷ p) [] = refl
holds-leaf (x ∷ []) (y ∷ q) = ground (arith, ==_iff x y, ==_iff y x)
holds-leaf (x ∷ z ∷ p) (y ∷ q) = ground (arith, holds-leaf (z ∷ p) q, ==_iff x y, ==_iff y x)

-- Inserting a path adds the paths that it begins with, and no other.
pub holds-insert :
    (p q : List Text) (ns : UseNodes) → holds p (insert q ns) ≡ (holds p ns || starts p q)
unfolding holds insert starts
holds-insert [] q ns = refl
holds-insert (x ∷ p) [] ns = ground arith
holds-insert (x ∷ p) (y ∷ q) leaf = holds-leaf (x ∷ p) (y ∷ q)
holds-insert (x ∷ p) (y ∷ q) (node n children rest) = ground (
  arith,
  holds-insert p q children,
  holds-insert (x ∷ p) (y ∷ q) rest,
  ==_iff x y,
  ==_iff n y,
  ==_iff n x,
)

names-insert :
    (x y : Text) (q : List Text) (ns : UseNodes)
    → names x (insert (y ∷ q) ns) ≡ (names x ns || y == x)
unfolding names insert
names-insert x y q leaf = ground arith
names-insert x y q (node n children rest) =
    ground (arith, names-insert x y q rest, ==_iff n y, ==_iff n x, ==_iff y x)

-- Inserting keeps the names of siblings different.
pub insert-Distinct : (q : List Text) (ns : UseNodes) → Distinct ns → Distinct (insert q ns)
unfolding insert names
insert-Distinct [] ns d = d
insert-Distinct (y ∷ q) leaf d = (refl, insert-Distinct q leaf tt, tt)
insert-Distinct (y ∷ q) (node n children rest) d = ground (
  arith,
  insert-Distinct q children,
  insert-Distinct (y ∷ q) rest,
  names-insert n y q rest,
  ==_iff n y,
  ==_iff y n,
)

-- A path that is inserted again changes nothing.
pub insert_idem : (q : List Text) (ns : UseNodes) → insert q (insert q ns) ≡ insert q ns
unfolding insert
insert_idem [] ns = refl
insert_idem (y ∷ q) leaf = ground (arith, ==-refl y, insert_idem q leaf)
insert_idem (y ∷ q) (node n children rest) =
    ground (arith, insert_idem q children, insert_idem (y ∷ q) rest)

holds-names :
    (x : Text) (p : List Text) (ns : UseNodes) → names x ns ≡ false → holds (x ∷ p) ns ≡ false
unfolding holds names
holds-names x p leaf h = refl
holds-names x p (node n children rest) h = ground (arith, holds-names x p rest)

-- A path that the tree holds is not inserted.
pub insert-held :
    (q : List Text) (ns : UseNodes) → Distinct ns → holds q ns ≡ true → insert q ns ≡ ns
unfolding insert holds
insert-held [] ns d h = refl
insert-held (y ∷ q) leaf d h = cc
insert-held (y ∷ q) (node n children rest) d h = ground (
  arith,
  insert-held q children d.1,
  insert-held (y ∷ q) rest d.2,
  holds-names y q rest,
  ==_iff n y,
)

pub starts_refl : (q : List Text) → starts q q ≡ true
unfolding starts
starts_refl [] = refl
starts_refl (y ∷ q) = ground (arith, starts_refl q, ==-refl y)
