-- ===== src/Codegen/Emission/Braces.antt =====
-- The braces of emitted text, and the `Use` object that the emitting code only adds to.
use typespec_rust.Prelude.{
  ℕ, zero, suc, Text, Bool, true, ◌&&◌, not, Option, none, some, List, [], ◌∷◌, ◌++◌, ◌≡◌, refl,
  arith, eqb, if◌then◌else◌,
}
use typespec_rust.Prelude.Result.{Result, ok}
use typespec_rust.Codegen.Indentation.{Indentation, Emit, ◌+>◌, calling, spaces}
use typespec_rust.Codegen.Use.{Use, add}
use typespec_rust.Codegen.Use.Extends.{Extends, Extends-refl, Extends-trans, add-Lawful}
use typespec_rust.Codegen.Use.Adds.{add_total}
use typespec_rust.Codegen.Emission.{Account, Sound, seq-Sound, calling-Sound}

-- One less, if there is one.
unfoldable pub lower : ℕ → Option ℕ
lower zero = none
lower (suc n) = some n

-- The open braces behind a text, from a number of open ones; nothing, if one is closed that was not opened.
unfoldable pub braces : ℕ → Text → Option ℕ
unfolding lower
braces n [] = some n
braces n (c ∷ t) =
    let more = braces (suc n) t in
    let same = braces n t in
    let less : Option ℕ = elim (lower n) [ none ↦ none | some m ↦ braces m t ] in
    if eqb c b'{' then more else if eqb c b'}' then less else same

-- No brace in the text.
unfoldable pub brace_free : Text → Bool
brace_free [] = true
brace_free (c ∷ t) = (not (eqb c b'{') && not (eqb c b'}')) && brace_free t

abbrev pub BraceFree : Text → Type 0
BraceFree t = brace_free t ≡ true

pub braces-through : (t rest : Text) (n : ℕ) → BraceFree t → braces n (t ++ rest) ≡ braces n rest
unfolding braces brace_free
braces-through [] rest n f = refl
braces-through (c ∷ t) rest n f = ground (arith, braces-through t rest n)

pub BraceFree-append : (t u : Text) → BraceFree t → BraceFree u → BraceFree (t ++ u)
unfolding brace_free
BraceFree-append [] u f g = g
BraceFree-append (c ∷ t) u f g = ground (arith, BraceFree-append t u)

pub braces-append :
    (a b c : ℕ) (t u : Text)
    → braces a t ≡ some b
    → braces b u ≡ some c
    → braces a (t ++ u) ≡ some c
unfolding braces lower
braces-append a b c [] u e f = ground arith
braces-append zero b c (x ∷ t) u e f =
    ground (arith, braces-append 1 b c t u, braces-append 0 b c t u)
braces-append (suc a) b c (x ∷ t) u e f = ground (
  arith,
  braces-append (suc (suc a)) b c t u,
  braces-append (suc a) b c t u,
  braces-append a b c t u,
)

pub braces-spaces : (k n : ℕ) → braces k (spaces n) ≡ some k
unfolding spaces braces
braces-spaces k zero = refl
braces-spaces k (suc n) = braces-spaces k n

pub braces-empty : (k : ℕ) → braces k [] ≡ some k
unfolding braces
braces-empty k = refl

-- Each step keeps what the use statements hold; the count is that of open braces, under a condition on
-- what the text is made of.
abbrev pub using : Type 0 → Account Use
using P = record {
  Kept = Extends;
  kept_refl = Extends-refl;
  kept_trans = λ a b c. Extends-trans;
  Counts = λ n t m. P → braces n t ≡ some m;
  counts_empty = λ k h. braces-empty k;
  counts_append = λ a b c t u e f h. braces-append a b c t u (e h) (f h);
  counts_spaces = λ k n h. braces-spaces k n;
}

infixl 5 ◌▸◌
pub ◌▸◌ :
    {P : Type 0} {n m p k l q : ℕ} {e f : Emit Use Text}
    → Sound (using P) n k e m l
    → Sound (using P) m l f p q
    → Sound (using P) n k (e +> f) p q
◌▸◌ {P = P} a b = seq-Sound (using P) a b

pub add-Sound :
    {P : Type 0} {n k : ℕ} (path t : Text) (types : List Text)
    → Sound (using P) n k (calling (add path (t ∷ types))) n k
add-Sound {P} path t types = calling-Sound (using P) (add path (t ∷ types)) (λ u.
    let (v, e) = add_total path t types u in (v, e, (add-Lawful path (t ∷ types)).extending u v e))

-- A run that adds to the use statements, ends at the level where it began, and nests its braces.
pub record Nested (u : Use) (n k : ℕ) (r : Result (Text × Use × Indentation)) : Type 0 where
  pub emitted : Text
  pub after : Use
  pub succeeds : r ≡ ok (emitted, after, record { level = n })
  pub keeps : Extends u after
  pub nests : braces k emitted ≡ some k

pub Sound-Nested :
    {n k : ℕ} (e : Emit Use Text) (u : Use)
    → Sound (using (Unit {0})) n k e n k
    → Nested u n k (e u (record { level = n }))
Sound-Nested e u h =
    let x = h.run u in
    record {
      emitted = x.emitted;
      after = x.after;
      succeeds = x.succeeds;
      keeps = x.keeps;
      nests = x.counts tt;
    }
