-- ===== src/Codegen/UseTree.antt =====
-- codegen/use.ts, the classes `useTree` and `useNode`. A list of nodes is `leaf`, or a first node,
-- with its name and its children, and the nodes behind it.
pub mod Paths
pub mod Sorted
pub mod Canonical
pub mod Parsing
pub mod RoundTrip
use typespec_rust.Prelude.{Text, text, Bool, List, [], ◌∷◌, ◌++◌, ◌==◌, if◌then◌else◌}
use typespec_rust.Prelude.Order.{less}

pub data UseNodes : Type 0 where
  leaf : UseNodes
  node : Text → UseNodes → UseNodes → UseNodes

-- The loop of `useTree.insert`: each item is found among the children of the node before it, or is
-- put behind them.
unfoldable pub insert : List Text → UseNodes → UseNodes
insert [] ns = ns
insert (i ∷ is) leaf = node i (insert is leaf) leaf
insert (i ∷ is) (node n children rest) =
    let found = node n (insert is children) rest in
    let beyond = node n children (insert (i ∷ is) rest) in if n == i then found else beyond

-- One step of the sort by name: the node goes in front of the first that is not less.
unfoldable pub insert_node : Text → UseNodes → UseNodes → UseNodes
insert_node n children leaf = node n children leaf
insert_node n children (node m c rest) =
    if less m n then node m c (insert_node n children rest) else node n children (node m c rest)

-- `children.sort(...)` at every node
unfoldable pub sort_nodes : UseNodes → UseNodes
unfolding insert_node less
sort_nodes leaf = leaf
sort_nodes (node n children rest) = insert_node n (sort_nodes children) (sort_nodes rest)

unfoldable mutual
  -- What `recursiveText` puts behind the name of a node that has these children.
  pub children_text : UseNodes → Text
  children_text leaf = []
  children_text (node n children leaf) = text "::" ++ n ++ children_text children
  children_text (node n children (node m c rest)) =
      text "::{"
      ++ n
      ++ children_text children
      ++ text ", "
      ++ siblings_text (node m c rest)
      ++ text "}"

  -- Each sibling, with the comma and the space behind it.
  pub siblings_text : UseNodes → Text
  siblings_text leaf = []
  siblings_text (node n children rest) =
      n ++ children_text children ++ text ", " ++ siblings_text rest

-- The loop over the trees in `text`.
unfoldable pub trees_text : Text → UseNodes → Text
unfolding children_text
trees_text indent leaf = []
trees_text indent (node n children rest) =
    indent ++ text "use " ++ n ++ children_text children ++ text ";\n" ++ trees_text indent rest
