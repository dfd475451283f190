-- ===== src/Utils/SnakeCase/Shape.antt =====
-- utils/utils.ts, `snakeCaseName`: what the characters of a name in snake case are.
use typespec_rust.Prelude.{
  ℕ, Text, text, Bool, true, false, ◌||◌, List, [], ◌∷◌, ◌++◌, map, eqb, join, All, ◌≡◌, refl,
  arith, if◌then◌else◌,
}
use typespec_rust.Prelude.Spaces.{push_first}
use typespec_rust.Utils.SnakeCase.{
  is_lower, is_upper, is_digit, is_alnum, lower_case, behind_separator, split_words, deconstruct,
  snake_case_name, split_first, spread, letter_or_bar, fix_e_tag_name, remove_illegal_chars,
}

-- A lower-case letter or a digit.
unfoldable pub is_small : ℕ → Bool
unfolding is_lower is_digit
is_small c = is_lower c || is_digit c

abbrev pub SmallWord : Text → Type 0
SmallWord w = All (λ c. is_small c ≡ true) w

abbrev pub AlnumWord : Text → Type 0
AlnumWord w = All (λ c. is_alnum c ≡ true) w

push_first-All :
    (c : ℕ) (ws : List Text)
    → is_alnum c ≡ true
    → All AlnumWord ws
    → All AlnumWord (push_first c ws)
unfolding push_first
push_first-All c [] p a = ((p, tt), tt)
push_first-All c (w ∷ ws) p a = ((p, a.0), a.1)

behind_separator-All :
    (t : Text) (ws : List Text) → All AlnumWord ws → All AlnumWord (behind_separator t ws)
unfolding behind_separator
behind_separator-All [] ws a = (tt, a)
behind_separator-All (d ∷ t) ws a =
    elim (is_alnum d) as (λ b. All AlnumWord (if b then [] ∷ ws else ws)) [
      | true ↦ (tt, a)
      | false ↦ a
    ]

-- A character that is no letter or digit ends a word.
split_step :
    (b : Bool) (c : ℕ) (t : Text) (ws : List Text)
    → is_alnum c ≡ b
    → All AlnumWord ws
    → All AlnumWord (if b then push_first c ws else behind_separator t ws)
split_step true c t ws p a = push_first-All c ws p a
split_step false c t ws p a = behind_separator-All t ws a

split_words-All : (t : Text) → All AlnumWord (split_words t)
unfolding split_words
split_words-All [] = (tt, tt)
split_words-All (c ∷ t) = split_step (is_alnum c) c t (split_words t) refl (split_words-All t)

lower_case-small : (c : ℕ) → is_alnum c ≡ true → is_small (lower_case c) ≡ true
unfolding is_alnum is_small lower_case is_lower is_upper is_digit
lower_case-small c p = ground arith

lowered : (w : Text) → AlnumWord w → SmallWord (map lower_case w)
lowered [] a = tt
lowered (c ∷ w) a = (lower_case-small c a.0, lowered w a.1)

lowered_words : (ws : List Text) → All AlnumWord ws → All SmallWord (map (map lower_case) ws)
lowered_words [] a = tt
lowered_words (w ∷ ws) a = (lowered w a.0, lowered_words ws a.1)

-- `deconstruct` gives words of lower-case letters and digits only.
pub deconstruct-SmallWord : (identifier : Text) → All SmallWord (deconstruct identifier)
unfolding deconstruct
deconstruct-SmallWord identifier =
    let pieces =
      split_first true (spread is_digit letter_or_bar (spread is_lower is_upper identifier)) in
    lowered_words (split_words pieces) (split_words-All pieces)

-- A lower-case letter, a digit or an underscore.
unfoldable pub is_snake : ℕ → Bool
unfolding is_small
is_snake c = is_small c || eqb c b'_'

abbrev pub IsSnake : Text → Type 0
IsSnake t = All (λ c. is_snake c ≡ true) t

SmallWord-IsSnake : (w : Text) → SmallWord w → IsSnake w
unfolding is_snake
SmallWord-IsSnake [] a = tt
SmallWord-IsSnake (c ∷ w) a = (ground (arith, a.0), SmallWord-IsSnake w a.1)

IsSnake-append : (s t : Text) → IsSnake s → IsSnake t → IsSnake (s ++ t)
IsSnake-append [] t a b = b
IsSnake-append (c ∷ s) t a b = (a.0, IsSnake-append s t a.1 b)

join-IsSnake : (ws : List Text) → All SmallWord ws → IsSnake (join (text "_") ws)
unfolding join is_snake
join-IsSnake [] a = tt
join-IsSnake (w ∷ []) a = SmallWord-IsSnake w a.0
join-IsSnake (w ∷ v ∷ ws) a =
    IsSnake-append (w ++ text "_") (join (text "_") (v ∷ ws))
      (IsSnake-append w (text "_") (SmallWord-IsSnake w a.0) (refl, tt)) (join-IsSnake (v ∷ ws) a.1)

-- Whatever the name holds, `snakeCaseName` gives a text of lower-case letters, digits and underscores only.
pub snake_case_name-IsSnake : (name : Text) → IsSnake (snake_case_name name)
unfolding snake_case_name
snake_case_name-IsSnake name =
    let plain = fix_e_tag_name (remove_illegal_chars name) in
    join-IsSnake (deconstruct plain) (deconstruct-SmallWord plain)
