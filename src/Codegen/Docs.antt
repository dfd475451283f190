-- ===== src/Codegen/Docs.antt =====
-- codegen/helpers.ts, `formatDocComment`, and utils/utils.ts, `comment`: the comments of the emitted code.
pub mod Lines
pub mod Safe
pub mod Comment
pub mod Words
pub mod Width
use typespec_rust.Prelude.{
  ℕ, zero, suc, ◌+◌, ◌-◌, Text, text, Bool, true, false, not, ◌&&◌, ◌||◌, Option, none, some, List,
  [], ◌∷◌, ◌++◌, join, ◌==◌, eqb, ltb, leb, length, drop, if◌then◌else◌,
}
use typespec_rust.Prelude.Spaces.{is_space, blank, trim, split_lines, split_spaces, starts_with}
use typespec_rust.Codemodel.Kinds.{Docs}

-- `replace(/\r\n/g, '\n')`
unfoldable pub unix_lines : Text → Text
unix_lines [] = []
unix_lines (c ∷ []) = c ∷ []
unix_lines (c ∷ d ∷ rest) =
    let later = unix_lines (d ∷ rest) in if eqb c b'\r' && eqb d b'\n' then later else c ∷ later

-- `repeat(n)`
unfoldable pub repeated : ℕ → Text → Text
repeated zero t = []
repeated (suc n) t = t ++ repeated n t

-- The private function `indent`.
unfoldable pub indented : Text → ℕ → Text
unfolding unix_lines repeated trim split_lines join
indented content factor =
    let i = repeated factor (text "    ") in
    join (text "\n" ++ i) (split_lines (i ++ unix_lines (trim content)))

-- The mark that stands for a line break: U+00BB.
abbrev pub break_mark : Text
break_mark = 187 ∷ []

-- Behind a line break: a longer run of them is one mark.
unfoldable pub behind_break : Text → Text → Text
behind_break [] marked = (32 ∷ 187 ∷ 32 ∷ []) ++ marked
behind_break (d ∷ ds) marked = if eqb d b'\n' then marked else (32 ∷ 187 ∷ 32 ∷ []) ++ marked

-- `replace(/\n+/g, ' » ')`
unfoldable pub mark_breaks : Text → Text
unfolding behind_break
mark_breaks [] = []
mark_breaks (c ∷ cs) =
    let rest = mark_breaks cs in if eqb c b'\n' then behind_break cs rest else c ∷ rest

-- A word behind the line so far, which is begun with the prefix if it is empty.
unfoldable pub add_word : Text → Text → Text → Text
add_word prefix [] word = prefix ++ (text " " ++ word)
add_word prefix (c ∷ line) word = (c ∷ line) ++ (text " " ++ word)

-- The line at the end, if there is one.
unfoldable pub last_line : Text → List Text
last_line [] = []
last_line (c ∷ line) = (c ∷ line) ∷ []

-- The loop over the words, with the line so far.
unfoldable pub comment_lines : Text → ℕ → List Text → Text → List Text
unfolding add_word last_line ◌==◌
comment_lines prefix max_length [] line = last_line line
comment_lines prefix max_length (word ∷ words) line =
    let broken = comment_lines prefix max_length words prefix in
    let fresh = comment_lines prefix max_length words (add_word prefix [] word) in
    let longer = comment_lines prefix max_length words (add_word prefix line word) in
    if word == break_mark
    then line ∷ broken
    else if ltb max_length (length line)
    then line ∷ fresh
    else longer

unfoldable pub comment_trimmed : Text → Text → ℕ → Text
unfolding comment_lines mark_breaks split_spaces join
comment_trimmed [] prefix max_length = []
comment_trimmed (c ∷ cs) prefix max_length =
    join (text "\n") (comment_lines prefix max_length (split_spaces (mark_breaks (c ∷ cs))) [])

unfoldable pub comment : Text → Text → ℕ → ℕ → Text
unfolding comment_trimmed trim indented
comment content prefix factor max_length =
    comment_trimmed (trim content) (indented prefix factor) max_length

unfoldable pub is_digit : ℕ → Bool
is_digit c = leb b'0' c && leb c b'9'

-- The length of `\d+\.` at the start; the flag says that there was a digit.
unfoldable pub number_length : Bool → Text → Option ℕ
unfolding is_digit
number_length seen [] = none
number_length seen (c ∷ cs) =
    let more : Option ℕ = elim (number_length true cs) [ none ↦ none | some n ↦ some (suc n) ] in
    if is_digit c then more else if seen && eqb c b'.' then some 1 else none

-- The length of `\s*(?:[*-]|\d+\.)` at the start.
unfoldable pub marker_length : Text → Option ℕ
unfolding number_length is_space is_digit
marker_length [] = none
marker_length (c ∷ cs) =
    let more : Option ℕ = elim (marker_length cs) [ none ↦ none | some n ↦ some (suc n) ] in
    if is_space c
    then more
    else if eqb c b'*' || eqb c b'-'
    then some 1
    else number_length false (c ∷ cs)

-- `/^\/\/\/\s+([*-]|(?:\d+\.))/`: the length of the match behind the slashes.
unfoldable pub block_start : Text → Option ℕ
unfolding marker_length is_space
block_start [] = none
block_start (a ∷ b ∷ c ∷ d ∷ rest) =
    if (eqb a b'/' && eqb b b'/') && (eqb c b'/' && is_space d)
    then elim (marker_length rest) [ none ↦ none | some n ↦ some (suc n) ]
    else none
block_start t = none

-- `replace`, at the first place where the text begins with the sought one.
unfoldable pub replace_first : Text → Text → Text → Text
unfolding starts_with
replace_first sought by [] = []
replace_first sought by (c ∷ cs) =
    let later = c ∷ replace_first sought by cs in
    if starts_with sought (c ∷ cs) then by ++ drop (length sought) (c ∷ cs) else later

-- `replace` with a global expression; the number counts the characters of a match that are still there.
unfoldable pub replace_all : ℕ → Text → Text → Text → Text
unfolding starts_with
replace_all left sought by [] = []
replace_all (suc left) sought by (c ∷ cs) = replace_all left sought by cs
replace_all zero sought by (c ∷ cs) =
    let matched = replace_all (length sought - 1) sought by cs in
    let later = c ∷ replace_all zero sought by cs in
    if starts_with sought (c ∷ cs) then by ++ matched else later

abbrev pub slashes : Text
slashes = text "/// "

unfoldable pub align_rest : ℕ → List Text → List Text
unfolding replace_first repeated
align_rest n [] = []
align_rest n (x ∷ xs) = replace_first slashes (slashes ++ repeated n (text " ")) x ∷ align_rest n xs

-- All chunks but the first are moved below the text of a list's item.
unfoldable pub align : ℕ → List Text → List Text
unfolding align_rest
align n [] = []
align n (x ∷ xs) = x ∷ align_rest n xs

unfoldable pub aligned : Text → Option ℕ → Text
unfolding align split_lines join
aligned formatted none = formatted
aligned formatted (some n) = join (text "\n") (align n (split_lines formatted))

-- A line of the docs that is not empty.
unfoldable pub format_line : Text → Text → Text
unfolding aligned block_start comment trim
format_line indent line =
    let formatted = comment (trim line) (indent ++ slashes) 0 120 in
    aligned formatted (block_start formatted)

-- The loop of `commentLines`.
unfoldable pub format_lines : Bool → Text → List Text → Text
unfolding format_line blank
format_lines for_attr indent [] = []
format_lines for_attr indent (line ∷ lines) =
    (if blank line && not for_attr
      then indent ++ text "///\n"
      else format_line indent line ++ text "\n")
    ++ format_lines for_attr indent lines

-- `commentLines`
unfoldable pub comment_text : Bool → Text → Text → Text
unfolding format_lines split_lines replace_all
comment_text true indent docs =
    replace_all 0 slashes [] (format_lines true indent (split_lines docs))
comment_text false indent docs = format_lines false indent (split_lines docs)

-- The text of a part of the docs; the empty text counts as none.
unfoldable pub part : Option Text → Text
part none = []
part (some t) = t

-- The description behind the summary.
unfoldable pub describe : Bool → Text → Text → Text → Text → Text
unfolding comment_text
describe for_attr indent prefix summary [] = []
describe for_attr indent prefix [] (c ∷ cs) = comment_text for_attr indent (prefix ++ c ∷ cs)
describe for_attr indent prefix (s ∷ ss) (c ∷ cs) =
    (indent ++ text "///\n") ++ comment_text for_attr indent (c ∷ cs)

unfoldable pub summarise : Bool → Text → Text → Text → Text
unfolding comment_text
summarise for_attr indent prefix [] = []
summarise for_attr indent prefix (s ∷ ss) = comment_text for_attr indent (prefix ++ s ∷ ss)

-- `formatDocComment`; no prefix is the empty one, and no indentation the empty text.
unfoldable pub format_doc_comment : Docs → Bool → Text → Text → Text
unfolding summarise describe part
format_doc_comment docs for_attr prefix indent =
    summarise for_attr indent prefix (part docs.summary)
    ++ describe for_attr indent prefix (part docs.summary) (part docs.description)
