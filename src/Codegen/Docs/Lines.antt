-- ===== src/Codegen/Docs/Lines.antt =====
-- utils/utils.ts, `comment`: lines and words.
use typespec_rust.Prelude.{
  ℕ, Text, text, true, false, List, [], ◌∷◌, ◌++◌, join, eqb, All, ◌≡◌, ◌≢◌, refl, arith, ap, ap₂,
  ◌∙◌, append_assoc, if◌then◌else◌,
}
use typespec_rust.Prelude.Spaces.{is_space, split_lines, push_first, split_spaces, behind_space}

-- Without line breaks.
abbrev pub NoBreak : Text → Type 0
NoBreak = All (λ c. c ≢ b'\n')

push_first-append :
    (c : ℕ) (x : Text) (xs ys : List Text)
    → push_first c ((x ∷ xs) ++ ys) ≡ push_first c (x ∷ xs) ++ ys
unfolding push_first
push_first-append c x xs ys = refl

split_lines-cons : (t : Text) → (x : Text) × (xs : List Text) × (split_lines t ≡ x ∷ xs)
unfolding split_lines push_first
split_lines-cons [] = ([], [], refl)
split_lines-cons (c ∷ t) =
    let (x, xs, e) = split_lines-cons t in
    elim (eqb c b'\n')
      as (λ b.
        (y : Text) × (ys : List Text) × ((if b
            then [] ∷ split_lines t
            else push_first c (split_lines t))
          ≡ y ∷ ys)) [ true ↦ ([], split_lines t, refl) | false ↦ (c ∷ x, xs, ap (push_first c) e) ]

-- A line break between two texts splits the lines there.
pub split_lines-append :
    (a b : Text) → split_lines (a ++ b'\n' ∷ b) ≡ split_lines a ++ split_lines b
unfolding split_lines
split_lines-append [] b = refl
split_lines-append (c ∷ a) b =
    let (x, xs, e) = split_lines-cons a in
    ground (arith, split_lines-append a b, e, push_first-append c x xs (split_lines b))

pub split_lines-NoBreak : (x : Text) → NoBreak x → split_lines x ≡ x ∷ []
unfolding split_lines push_first
split_lines-NoBreak [] n = refl
split_lines-NoBreak (c ∷ x) n = ground (arith, split_lines-NoBreak x n.1)

-- Joined lines are split into the same lines.
pub split_lines-join :
    (x : Text) (xs : List Text)
    → NoBreak x
    → All NoBreak xs
    → split_lines (join (text "\n") (x ∷ xs)) ≡ x ∷ xs
unfolding join
split_lines-join x [] n a = split_lines-NoBreak x n
split_lines-join x (y ∷ ys) n a =
    let rest = join (text "\n") (y ∷ ys) in
    ap split_lines (append_assoc x (text "\n") rest)
    ∙ (split_lines-append x rest
        ∙ ap₂ (λ (u v : List Text). u ++ v) (split_lines-NoBreak x n)
            (split_lines-join y ys a.0 a.1))

-- Without white space.
abbrev pub NoSpace : Text → Type 0
NoSpace = All (λ c. is_space c ≡ false)

NoSpace-push_first :
    (c : ℕ) (xs : List Text) → is_space c ≡ false → All NoSpace xs → All NoSpace (push_first c xs)
unfolding push_first
NoSpace-push_first c [] e a = ((e, tt), tt)
NoSpace-push_first c (x ∷ xs) e a = ((e, a.0), a.1)

NoSpace-behind_space :
    (t : Text) (xs : List Text) → All NoSpace xs → All NoSpace (behind_space t xs)
unfolding behind_space
NoSpace-behind_space [] xs a = (tt, a)
NoSpace-behind_space (d ∷ t) xs a = ground arith

-- The words hold no white space.
pub split_spaces-NoSpace : (t : Text) → All NoSpace (split_spaces t)
unfolding split_spaces
split_spaces-NoSpace [] = (tt, tt)
split_spaces-NoSpace (c ∷ t) = ground (
  arith,
  split_spaces-NoSpace t,
  NoSpace-behind_space t (split_spaces t),
  NoSpace-push_first c (split_spaces t),
)

NoBreak-NoSpace : (x : Text) → NoSpace x → NoBreak x
unfolding is_space
NoBreak-NoSpace [] n = tt
NoBreak-NoSpace (c ∷ x) n = (λ e. ground arith, NoBreak-NoSpace x n.1)

All-NoBreak : (xs : List Text) → All NoSpace xs → All NoBreak xs
All-NoBreak [] a = tt
All-NoBreak (x ∷ xs) a = (NoBreak-NoSpace x a.0, All-NoBreak xs a.1)

pub split_spaces-NoBreak : (t : Text) → All NoBreak (split_spaces t)
split_spaces-NoBreak t = All-NoBreak (split_spaces t) (split_spaces-NoSpace t)

pub NoBreak-append : (x y : Text) → NoBreak x → NoBreak y → NoBreak (x ++ y)
NoBreak-append [] y a b = b
NoBreak-append (c ∷ x) y a b = (a.0, NoBreak-append x y a.1 b)
