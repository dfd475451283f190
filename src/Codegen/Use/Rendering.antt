-- ===== src/Codegen/Use/Rendering.antt =====
-- codegen/use.ts, `Use.text`: the text depends on the set of paths alone.
use typespec_rust.Prelude.{Text, List, ◌≡◌, arith, ap, sym, ◌∙◌}
use typespec_rust.Prelude.Result.{ok}
use typespec_rust.Codegen.UseTree.{UseNodes, sort_nodes}
use typespec_rust.Codegen.UseTree.Paths.{Distinct}
use typespec_rust.Codegen.UseTree.Sorted.{holds-sort_nodes, sort_nodes-Sorted}
use typespec_rust.Codegen.UseTree.Canonical.{SamePaths, canonical}
use typespec_rust.Codegen.Use.{Use, add, use_text, sorted_text}
use typespec_rust.Codegen.Use.Adds.{holds-add, add-Distinct}

sort_nodes_canonical :
    (ns ms : UseNodes) → Distinct ns → Distinct ms → SamePaths ns ms → sort_nodes ns ≡ sort_nodes ms
sort_nodes_canonical ns ms d e same =
    canonical (sort_nodes ns) (sort_nodes ms) (sort_nodes-Sorted ns d) (sort_nodes-Sorted ms e)
      (λ p. holds-sort_nodes p ns ∙ same p ∙ sym (holds-sort_nodes p ms))

-- Two `Use` objects that hold the same paths, with different names of siblings, emit the same text.
pub use_text_canonical :
    (indent : Text) (u v : Use)
    → Distinct u.trees
    → Distinct v.trees
    → SamePaths u.trees v.trees
    → (use_text indent u).0 ≡ (use_text indent v).0
unfolding use_text
use_text_canonical indent u v d e same =
    ap (sorted_text indent) (sort_nodes_canonical u.trees v.trees d e same)

-- From a `Use` with different names of siblings, two calls of `add` that succeed lead to the same text in
-- either order.
pub use_text-add_comm :
    (indent path other : Text) (types others : List Text) (u v w v' w' : Use)
    → Distinct u.trees
    → add path types u ≡ ok v
    → add other others v ≡ ok w
    → add other others u ≡ ok v'
    → add path types v' ≡ ok w'
    → (use_text indent w).0 ≡ (use_text indent w').0
use_text-add_comm indent path other types others u v w v' w' d a b a' b' =
    use_text_canonical indent w w'
      (add-Distinct other others v w b (add-Distinct path types u v a d))
      (add-Distinct path types v' w' b' (add-Distinct other others u v' a' d)) same
  where
    same : SamePaths w.trees w'.trees
    same p = ground (
      arith,
      holds-add path types u v p a,
      holds-add other others v w p b,
      holds-add other others u v' p a',
      holds-add path types v' w' p b',
    )
