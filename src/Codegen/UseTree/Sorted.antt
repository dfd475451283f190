-- ===== src/Codegen/UseTree/Sorted.antt =====
-- codegen/use.ts, the sort in `text`: it keeps the paths and puts siblings in strict order.
use typespec_rust.Prelude.{
  Text, true, false, List, [], ◌∷◌, ◌||◌, ◌==◌, ==_iff, ◌≡◌, refl, arith, ◌∙◌,
}
use typespec_rust.Prelude.Order.{less, less_trans, less_total}
use typespec_rust.Codegen.UseTree.{UseNodes, leaf, node, insert_node, sort_nodes}
use typespec_rust.Codegen.UseTree.Paths.{names, holds, Distinct}

-- The name is less than those of all the nodes.
abbrev pub Above : Text → UseNodes → Type 0
Above x leaf = Unit
Above x (node n children rest) = (less x n ≡ true) × Above x rest

-- Strictly ascending names, at every node.
abbrev pub Sorted : UseNodes → Type 0
Sorted leaf = Unit
Sorted (node n children rest) = Above n rest × Sorted children × Sorted rest

holds-insert_node :
    (p : List Text) (n : Text) (c ns : UseNodes)
    → holds p (insert_node n c ns) ≡ holds p (node n c ns)
unfolding holds insert_node
holds-insert_node [] n c ns = refl
holds-insert_node (x ∷ p) n c leaf = refl
holds-insert_node (x ∷ p) n c (node m d rest) = ground (arith, holds-insert_node (x ∷ p) n c rest)

-- Sorting keeps the paths.
pub holds-sort_nodes : (p : List Text) (ns : UseNodes) → holds p (sort_nodes ns) ≡ holds p ns
unfolding holds sort_nodes
holds-sort_nodes [] ns = refl
holds-sort_nodes (x ∷ p) leaf = refl
holds-sort_nodes (x ∷ p) (node n children rest) = ground (
  arith,
  holds-insert_node (x ∷ p) n (sort_nodes children) (sort_nodes rest),
  holds-sort_nodes p children,
  holds-sort_nodes (x ∷ p) rest,
)

names-insert_node :
    (x n : Text) (c ns : UseNodes) → names x (insert_node n c ns) ≡ (n == x || names x ns)
unfolding names insert_node
names-insert_node x n c leaf = refl
names-insert_node x n c (node m d rest) = ground (arith, names-insert_node x n c rest)

pub names-sort_nodes : (x : Text) (ns : UseNodes) → names x (sort_nodes ns) ≡ names x ns
unfolding names sort_nodes
names-sort_nodes x leaf = refl
names-sort_nodes x (node n children rest) =
    ground (
      arith,
      names-insert_node x n (sort_nodes children) (sort_nodes rest),
      names-sort_nodes x rest,
    )

Above-insert_node :
    (x n : Text) (c ns : UseNodes) → less x n ≡ true → Above x ns → Above x (insert_node n c ns)
unfolding insert_node
Above-insert_node x n c leaf h a = (h, tt)
Above-insert_node x n c (node m d rest) h a = ground (arith, Above-insert_node x n c rest)

Above-trans : (x y : Text) (ns : UseNodes) → less x y ≡ true → Above y ns → Above x ns
Above-trans x y leaf h a = tt
Above-trans x y (node m d rest) h a = (less_trans x y m h a.0, Above-trans x y rest h a.1)

insert_node-Sorted :
    (n : Text) (c ns : UseNodes)
    → names n ns ≡ false
    → Sorted c
    → Sorted ns
    → Sorted (insert_node n c ns)
unfolding insert_node names
insert_node-Sorted n c leaf u sc s = (tt, sc, tt)
insert_node-Sorted n c (node m d rest) u sc s = ground (
  arith,
  insert_node-Sorted n c rest,
  Above-insert_node m n c rest,
  less_total m n,
  Above-trans n m rest,
  ==_iff m n,
)

-- With different siblings, sorting puts them in strict order.
pub sort_nodes-Sorted : (ns : UseNodes) → Distinct ns → Sorted (sort_nodes ns)
unfolding sort_nodes
sort_nodes-Sorted leaf d = tt
sort_nodes-Sorted (node n children rest) d =
    insert_node-Sorted n (sort_nodes children) (sort_nodes rest) (names-sort_nodes n rest ∙ d.0)
      (sort_nodes-Sorted children d.1) (sort_nodes-Sorted rest d.2)
