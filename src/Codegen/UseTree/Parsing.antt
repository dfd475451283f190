-- ===== src/Codegen/UseTree/Parsing.antt =====
-- Rust use statements read back: a parser for the statements that codegen/use.ts emits.
use typespec_rust.Prelude.{
  ℕ, zero, suc, Text, text, Bool, not, Option, none, some, [], ◌∷◌, any, eqb, if◌then◌else◌,
}
use typespec_rust.Codegen.UseTree.{UseNodes, leaf, node}

-- A character of a name.
unfoldable pub is_name : ℕ → Bool
unfolding any
is_name c = not (any (eqb c) (text ":,;{} \n"))

-- The name at the start of a text.
unfoldable pub word : Text → Text
unfolding is_name
word [] = []
word (c ∷ t) = if is_name c then c ∷ word t else []

-- What stands behind that name.
unfoldable pub behind : Text → Text
unfolding is_name
behind [] = []
behind (c ∷ t) = if is_name c then behind t else c ∷ t

-- The text without a beginning, if it begins so.
unfoldable pub strip : Text → Text → Option Text
strip [] t = some t
strip (p ∷ ps) [] = none
strip (p ∷ ps) (c ∷ t) = if eqb p c then strip ps t else none

unfoldable mutual
  -- What stands behind a name: nothing, one name, or several in braces.
  pub parse_children : ℕ → Text → Option (UseNodes × Text)
  parse_children zero t = none
  parse_children (suc fuel) t = elim (strip (text "::{") t) [
    | some s ↦ parse_siblings fuel s
    | none ↦ elim (strip (text "::") t) [
      | some s ↦ elim (parse_children fuel (behind s)) [
        | some (children, rest) ↦ some (node (word s) children leaf, rest)
        | none ↦ none
      ]
      | none ↦ some (leaf, t)
    ]
  ]

  -- Names, each with a comma behind it, up to the brace.
  pub parse_siblings : ℕ → Text → Option (UseNodes × Text)
  parse_siblings zero t = none
  parse_siblings (suc fuel) t = elim (strip (text "}") t) [
    | some s ↦ some (leaf, s)
    | none ↦ elim (parse_children fuel (behind t)) [
      | none ↦ none
      | some (children, s) ↦ elim (strip (text ", ") s) [
        | none ↦ none
        | some r ↦ elim (parse_siblings fuel r) [
          | none ↦ none
          | some (siblings, rest) ↦ some (node (word t) children siblings, rest)
        ]
      ]
    ]
  ]

-- The end of the statements, before which there may be a blank line.
unfoldable pub parse_end : Text → Option UseNodes
parse_end [] = some leaf
parse_end (c ∷ []) = if eqb c b'\n' then some leaf else none
parse_end (c ∷ d ∷ t) = none

-- The statements, one behind the other.
unfoldable pub parse_uses : ℕ → Text → Option UseNodes
unfolding strip parse_children parse_end
parse_uses zero t = none
parse_uses (suc fuel) t = elim (strip (text "use ") t) [
  | none ↦ parse_end t
  | some s ↦ elim (parse_children fuel (behind s)) [
    | none ↦ none
    | some (children, q) ↦ elim (strip (text ";\n") q) [
      | none ↦ none
      | some r ↦ elim (parse_uses fuel r) [
        | none ↦ none
        | some rest ↦ some (node (word s) children rest)
      ]
    ]
  ]
]
