-- ===== src/Codegen/UseTree/RoundTrip.antt =====
-- codegen/use.ts, `text`: the use statements read back are the trees that were emitted.
use typespec_rust.Prelude.{
  ℕ, zero, suc, ◌+◌, ◌≤◌, Text, text, Bool, true, false, none, some, [], ◌∷◌, ◌++◌, All, ◌≡◌, refl,
  arith, ◌∙◌, sym, append_assoc,
}
use mathlib.Core.Path.{subst}
use typespec_rust.Codegen.UseTree.{UseNodes, leaf, node, children_text, siblings_text, trees_text}
use typespec_rust.Codegen.UseTree.Parsing.{
  is_name, word, behind, strip, parse_children, parse_siblings, parse_end, parse_uses,
}

-- A name without the characters that separate names.
abbrev pub PlainName : Text → Type 0
PlainName n = All (λ c. is_name c ≡ true) n

-- Such names at every node.
abbrev pub PlainNodes : UseNodes → Type 0
PlainNodes leaf = Unit
PlainNodes (node n children rest) = PlainName n × PlainNodes children × PlainNodes rest

-- The number of nodes, and one for each end of siblings.
unfoldable pub weight : UseNodes → ℕ
weight leaf = 1
weight (node n children rest) = suc (weight children + weight rest)

weight_positive : (ns : UseNodes) → 1 ≤ weight ns
unfolding weight
weight_positive leaf = omega arith
weight_positive (node n c r) = omega arith

-- A text at which a name ends.
record Halts (t : Text) : Type 0 where
  pub no_word : word t ≡ []
  pub same : behind t ≡ t
  pub no_brace : strip (text "{") t ≡ none
  pub no_end : strip (text "}") t ≡ none

-- A comma or a semicolon, and more.
abbrev stop : Bool → Text → Text
stop true t = b',' ∷ t
stop false t = b';' ∷ t

stop-Halts : (b : Bool) (t : Text) → Halts (stop b t)
unfolding word behind strip is_name
stop-Halts true t = record { no_word = refl; same = refl; no_brace = refl; no_end = refl }
stop-Halts false t = record { no_word = refl; same = refl; no_brace = refl; no_end = refl }

children-Halts : (ns : UseNodes) (b : Bool) (t : Text) → Halts (children_text ns ++ stop b t)
unfolding word behind strip is_name children_text
children-Halts leaf b t = stop-Halts b t
children-Halts (node n c leaf) b t = record {
  no_word = refl;
  same = refl;
  no_brace = refl;
  no_end = refl;
}
children-Halts (node n c (node m d r)) b t = record {
  no_word = refl;
  same = refl;
  no_brace = refl;
  no_end = refl;
}

word-append : (n t : Text) → PlainName n → Halts t → word (n ++ t) ≡ n
unfolding word
word-append [] t p h = h.no_word
word-append (c ∷ n) t p h = ground (arith, word-append n t p.1 h, p.0)

behind-append : (n t : Text) → PlainName n → Halts t → behind (n ++ t) ≡ t
unfolding behind
behind-append [] t p h = h.same
behind-append (c ∷ n) t p h = ground (arith, behind-append n t p.1 h, p.0)

strip-brace : (n t : Text) → PlainName n → Halts t → strip (text "{") (n ++ t) ≡ none
unfolding strip is_name
strip-brace [] t p h = h.no_brace
strip-brace (c ∷ n) t p h = ground (arith, p.0)

strip-end : (n t : Text) → PlainName n → Halts t → strip (text "}") (n ++ t) ≡ none
unfolding strip is_name
strip-end [] t p h = h.no_end
strip-end (c ∷ n) t p h = ground (arith, p.0)

siblings_shape :
    (n c s rest : Text)
    → (n ++ c ++ text ", " ++ s) ++ rest ≡ n ++ (c ++ stop true (b' ' ∷ (s ++ rest)))
siblings_shape n c s rest =
    append_assoc (n ++ c ++ text ", ") s rest
    ∙ append_assoc (n ++ c) (text ", ") (s ++ rest)
    ∙ append_assoc n c (text ", " ++ (s ++ rest))

mutual
  unfolding children_text siblings_text parse_children parse_siblings strip weight

  children_back :
      (ns : UseNodes) (fuel : ℕ) (b : Bool) (t : Text)
      → PlainNodes ns
      → suc (weight ns) ≤ fuel
      → parse_children fuel (children_text ns ++ stop b t) ≡ some (ns, stop b t)
  children_back ns zero b t p e = absurd (omega arith)
  children_back leaf (suc fuel) true t p e = refl
  children_back leaf (suc fuel) false t p e = refl
  children_back (node n c leaf) (suc fuel) b t p e =
      let q = children_text c ++ stop b t in
      let h = children-Halts c b t in
      subst (λ x. parse_children (suc fuel) (text "::" ++ x) ≡ some (node n c leaf, stop b t))
        (sym (append_assoc n (children_text c) (stop b t)))
        (rw
          (
            parse_children,
            strip-brace n q p.0 h,
            behind-append n q p.0 h,
            children_back c fuel b t p.1 (omega arith),
            word-append n q p.0 h,
          )
          refl)
  children_back (node n c (node m d r)) (suc fuel) b t p e =
      let ns = node n c (node m d r) in
      subst (λ x. parse_children (suc fuel) (text "::{" ++ x) ≡ some (ns, stop b t))
        (sym (append_assoc (siblings_text ns) (text "}") (stop b t)))
        (siblings_back ns fuel (stop b t) p (omega arith))

  siblings_back :
      (ns : UseNodes) (fuel : ℕ) (t : Text)
      → PlainNodes ns
      → weight ns ≤ fuel
      → parse_siblings fuel (siblings_text ns ++ (text "}" ++ t)) ≡ some (ns, t)
  siblings_back ns zero t p e = absurd (ground (arith, weight_positive ns))
  siblings_back leaf (suc fuel) t p e = refl
  siblings_back (node n c r) (suc fuel) t p e =
      let later = b' ' ∷ (siblings_text r ++ (text "}" ++ t)) in
      let q = children_text c ++ stop true later in
      let h = children-Halts c true later in
      subst (λ x. parse_siblings (suc fuel) x ≡ some (node n c r, t))
        (sym (siblings_shape n (children_text c) (siblings_text r) (text "}" ++ t)))
        (rw
          (
            parse_siblings,
            strip-end n q p.0 h,
            behind-append n q p.0 h,
            children_back c fuel true later p.1 (ground (arith, weight_positive r)),
            siblings_back r fuel t p.2 (omega arith),
            word-append n q p.0 h,
          )
          refl)

-- The statements, up to the blank line behind them.
pub trees_back :
    (ns : UseNodes) (fuel : ℕ) (last : Text)
    → PlainNodes ns
    → parse_end last ≡ some leaf
    → strip (text "use ") last ≡ none
    → weight ns ≤ fuel
    → parse_uses fuel (trees_text [] ns ++ last) ≡ some ns
unfolding trees_text parse_uses strip weight
trees_back ns zero last p l u e = absurd (ground (arith, weight_positive ns))
trees_back leaf (suc fuel) last p l u e = rw u l
trees_back (node n c r) (suc fuel) last p l u e =
    let later = b'\n' ∷ (trees_text [] r ++ last) in
    let q = children_text c ++ stop false later in
    let h = children-Halts c false later in
    let shape : (n ++ children_text c ++ text ";\n" ++ trees_text [] r) ++ last ≡ n ++ q =
      append_assoc (n ++ children_text c ++ text ";\n") (trees_text [] r) last
      ∙ append_assoc (n ++ children_text c) (text ";\n") (trees_text [] r ++ last)
      ∙ append_assoc n (children_text c) (text ";\n" ++ (trees_text [] r ++ last)) in
    subst (λ x. parse_uses (suc fuel) (text "use " ++ x) ≡ some (node n c r)) (sym shape)
      (rw
        (
          parse_uses,
          behind-append n q p.0 h,
          children_back c fuel false later p.1 (ground (arith, weight_positive r)),
          trees_back r fuel last p.2 l u (omega arith),
          word-append n q p.0 h,
        )
        refl)
