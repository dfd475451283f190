-- ===== src/Codegen/Docs/Words.antt =====
-- utils/utils.ts, `comment`: the lines hold the words of the content, in order.
use typespec_rust.Prelude.{
  Text, text, Option, none, some, List, [], ◌∷◌, ◌++◌, map, join, ◌==◌, ◌≡◌, if◌then◌else◌,
}
use typespec_rust.Prelude.Spaces.{split_spaces}
use typespec_rust.Codegen.Docs.{break_mark, mark_breaks, comment}

-- The words, each behind a space.
unfoldable pub spaced : List Text → Text
spaced [] = []
spaced (w ∷ ws) = text " " ++ (w ++ spaced ws)

-- A line of the comment: the empty one, or the slashes and words.
unfoldable pub rendered : Option (List Text) → Text
unfolding spaced
rendered none = []
rendered (some ws) = text "///" ++ spaced ws

unfoldable pub line_words : Option (List Text) → List Text
line_words none = []
line_words (some ws) = ws

unfoldable pub all_words : List (Option (List Text)) → List Text
unfolding line_words
all_words [] = []
all_words (l ∷ ls) = line_words l ++ all_words ls

-- The words but for the marks of line breaks.
unfoldable pub kept : List Text → List Text
unfolding ◌==◌
kept [] = []
kept (w ∷ ws) = if w == break_mark then kept ws else w ∷ kept ws

-- The words of a line with one more.
abbrev more : Option (List Text) → Text → Option (List Text)
more l w = some (line_words l ++ w ∷ [])

-- Lines that hold the words.
pub record Holds (lines words : List Text) : Type 0 where
  pub groups : List (Option (List Text))
  pub are_lines : lines ≡ map rendered groups
  pub are_words : all_words groups ≡ words

-- A comment over several lines, with the words of the content in order.
pub record Rewraps (content comment : Text) : Type 0 where
  pub groups : List (Option (List Text))
  pub are_lines : comment ≡ join (text "\n") (map rendered groups)
  pub are_words : all_words groups ≡ kept (split_spaces (mark_breaks content))
