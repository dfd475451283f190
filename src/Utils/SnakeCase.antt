-- ===== src/Utils/SnakeCase.antt =====
-- utils/utils.ts: `deconstruct` and `snakeCaseName`. The regular expressions are functions on the text;
-- all that they match are ASCII characters.
pub mod Shape
use typespec_rust.Prelude.{
  ℕ, ◌+◌, Text, text, Bool, true, false, not, ◌&&◌, ◌||◌, Option, none, some, List, [], ◌∷◌, ◌++◌,
  map, any, eqb, leb, ◌==◌, join, if◌then◌else◌,
}
use typespec_rust.Prelude.Spaces.{push_first}

unfoldable pub is_lower : ℕ → Bool
is_lower c = leb b'a' c && leb c b'z'

unfoldable pub is_upper : ℕ → Bool
is_upper c = leb b'A' c && leb c b'Z'

unfoldable pub is_digit : ℕ → Bool
is_digit c = leb b'0' c && leb c b'9'

-- A letter or a digit.
unfoldable pub is_alnum : ℕ → Bool
unfolding is_lower is_upper is_digit
is_alnum c = is_lower c || (is_upper c || is_digit c)

-- `toLowerCase()` on an ASCII character.
unfoldable pub lower_case : ℕ → ℕ
unfolding is_upper
lower_case c = if is_upper c then c + 32 else c

-- A space behind each character of the first kind that stands before one of the second.
unfoldable pub spread : (ℕ → Bool) → (ℕ → Bool) → Text → Text
spread before after [] = []
spread before after (c ∷ []) = c ∷ []
spread before after (c ∷ d ∷ t) =
    let rest = spread before after (d ∷ t) in
    if before c && after d then c ∷ b' ' ∷ rest else c ∷ rest

-- `[a-z|A-Z]`
unfoldable pub letter_or_bar : ℕ → Bool
unfolding is_lower is_upper
letter_or_bar c = is_lower c || (is_upper c || eqb c b'|')

-- `([A-Z]+)([A-Z])([a-z])` at the start: the text with a space before the second group.
unfoldable pub split_capitals : Text → Option Text
unfolding is_lower is_upper
split_capitals (a ∷ b ∷ c ∷ t) =
    let more : Option Text = elim (split_capitals (b ∷ c ∷ t)) [
      | none ↦ none
      | some r ↦ some (a ∷ r)
    ] in
    if is_upper a && is_upper b
    then if is_lower c then some (a ∷ b' ' ∷ b ∷ c ∷ t) else more
    else none
split_capitals t = none

-- `\w`
unfoldable pub is_word : ℕ → Bool
unfolding is_alnum
is_word c = is_alnum c || eqb c b'_'

-- The replacement of the first match at a boundary; the flag says that there is a boundary before the text.
unfoldable pub split_first : Bool → Text → Text
unfolding split_capitals is_word
split_first boundary [] = []
split_first boundary (c ∷ t) =
    let later = c ∷ split_first (not (is_word c)) t in
    let here : Text = elim (split_capitals (c ∷ t)) [ none ↦ later | some r ↦ r ] in
    if boundary then here else later

-- The pieces behind a run of separators.
unfoldable pub behind_separator : Text → List Text → List Text
unfolding is_alnum
behind_separator [] pieces = [] ∷ pieces
behind_separator (d ∷ t) pieces = if is_alnum d then [] ∷ pieces else pieces

-- `split(/[\W|_]+/)`
unfoldable pub split_words : Text → List Text
unfolding behind_separator push_first is_alnum
split_words [] = [] ∷ []
split_words (c ∷ t) =
    let rest = split_words t in if is_alnum c then push_first c rest else behind_separator t rest

-- `deconstruct`
unfoldable pub deconstruct : Text → List Text
unfolding spread letter_or_bar split_first split_words lower_case is_lower is_upper is_digit
deconstruct identifier = map (map lower_case) (
    split_words
      (split_first true (spread is_digit letter_or_bar (spread is_lower is_upper identifier))))

-- `fixETagName`
unfoldable pub fix_e_tag_name : Text → Text
unfolding lower_case ◌==◌
fix_e_tag_name name = if map lower_case name == text "etag" then text "etag" else name

-- `removeIllegalChars`
unfoldable pub remove_illegal_chars : Text → Text
unfolding any
remove_illegal_chars [] = []
remove_illegal_chars (c ∷ t) =
    let rest = remove_illegal_chars t in
    if any (eqb c) (text "!@#$%^&*()+=") then rest else c ∷ rest

unfoldable pub snake_case_name : Text → Text
unfolding deconstruct fix_e_tag_name remove_illegal_chars join
snake_case_name name = join (text "_") (deconstruct (fix_e_tag_name (remove_illegal_chars name)))
