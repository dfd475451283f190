-- ===== src/Codegen/Use/RoundTrip.antt =====
-- codegen/use.ts, `Use.text`: the text read back holds the paths of the `Use`.
use typespec_rust.Prelude.{
  ℕ, zero, suc, ◌+◌, ◌≤◌, Text, text, true, false, some, [], ◌≡◌, refl, arith, if◌then◌else◌,
}
use typespec_rust.Prelude.Order.{less}
use typespec_rust.Codegen.UseTree.{UseNodes, leaf, node, insert_node, sort_nodes}
use typespec_rust.Codegen.UseTree.Sorted.{holds-sort_nodes}
use typespec_rust.Codegen.UseTree.Canonical.{SamePaths}
use typespec_rust.Codegen.UseTree.Parsing.{strip, parse_end, parse_uses}
use typespec_rust.Codegen.UseTree.RoundTrip.{PlainName, PlainNodes, weight, trees_back}
use typespec_rust.Codegen.Use.{Use, use_text, sorted_text}

-- What a step of the sort keeps.
record Keeps (n : Text) (c ns : UseNodes) (after : UseNodes) : Type 0 where
  pub plain : PlainNodes after
  pub same_weight : weight after ≡ suc (weight c + weight ns)

insert_node-Keeps :
    (n : Text) (c ns : UseNodes)
    → PlainName n
    → PlainNodes c
    → PlainNodes ns
    → Keeps n c ns (insert_node n c ns)
unfolding insert_node weight
insert_node-Keeps n c leaf p q r = record { plain = (p, q, tt); same_weight = refl }
insert_node-Keeps n c (node m d rest) p q r =
    let k = insert_node-Keeps n c rest p q r.2 in
    elim (less m n)
      as (λ b.
        Keeps n c (node m d rest)
          (if b then node m d (insert_node n c rest) else node n c (node m d rest))) [
            | true ↦ record {
              plain = (r.0, r.1, k.plain);
              same_weight = ground (arith, k.same_weight);
            }
            | false ↦ record { plain = (p, q, r); same_weight = refl }
          ]

sort_nodes-PlainNodes :
    (ns : UseNodes)
    → PlainNodes ns
    → PlainNodes (sort_nodes ns) × (weight (sort_nodes ns) ≡ weight ns)
unfolding sort_nodes weight
sort_nodes-PlainNodes leaf p = (tt, refl)
sort_nodes-PlainNodes (node n c r) p =
    let (pc, wc) = sort_nodes-PlainNodes c p.1 in
    let (pr, wr) = sort_nodes-PlainNodes r p.2 in
    let k = insert_node-Keeps n (sort_nodes c) (sort_nodes r) p.0 pc pr in
    (k.plain, ground (arith, k.same_weight))

sorted_back :
    (ns : UseNodes) (fuel : ℕ)
    → PlainNodes ns
    → weight ns ≤ fuel
    → parse_uses fuel (sorted_text [] ns) ≡ some ns
unfolding sorted_text strip parse_end weight parse_uses
sorted_back leaf (suc fuel) p e = refl
sorted_back leaf zero p e = absurd (omega arith)
sorted_back (node n c r) fuel p e = trees_back (node n c r) fuel (text "\n") p refl refl e

-- Where no name has a character that separates names, and the parser is given fuel for the number of nodes, the use statements that `text` emits are read back, and the trees that are read hold exactly the paths of the `Use`.
pub parse_uses-use_text :
    (u : Use) (fuel : ℕ)
    → PlainNodes u.trees
    → weight u.trees ≤ fuel
    → (ns : UseNodes) × (parse_uses fuel (use_text [] u).0 ≡ some ns) × SamePaths ns u.trees
unfolding use_text
parse_uses-use_text u fuel p e =
    let (q, w) = sort_nodes-PlainNodes u.trees p in
    (
      sort_nodes u.trees,
      sorted_back (sort_nodes u.trees) fuel q (ground arith),
      λ x. holds-sort_nodes x u.trees,
    )
