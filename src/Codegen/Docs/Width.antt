-- ===== src/Codegen/Docs/Width.antt =====
-- utils/utils.ts, `comment`: how long the lines of a comment are.
use typespec_rust.Prelude.{
  ℕ, ◌+◌, ◌≤◌, Text, text, Bool, true, false, List, [], ◌∷◌, ◌++◌, join, ltb, ◌==◌, All, length,
  length-append, ◌≡◌, refl, arith, ap, ◌∙◌, if◌then◌else◌,
}
use typespec_rust.Prelude.Spaces.{trim, split_spaces}
use typespec_rust.Codegen.Docs.{
  break_mark, mark_breaks, add_word, last_line, comment_lines, comment_trimmed, comment, repeated,
  slashes,
}
use typespec_rust.Codegen.Docs.Safe.{indented_lem}

-- No line is longer than this.
abbrev pub Within : ℕ → List Text → Type 0
Within bound ls = All (λ l. length l ≤ bound) ls

add_word-length :
    (prefix line word : Text) (max longest : ℕ)
    → length prefix ≤ max
    → length line ≤ max
    → length word ≤ longest
    → length (add_word prefix line word) ≤ max + 1 + longest
unfolding add_word
add_word-length prefix [] word max longest p l w =
    ground (arith, length-append prefix (text " " ++ word))
add_word-length prefix (c ∷ line) word max longest p l w =
    ground (arith, length-append line (text " " ++ word))

last_line-Within : (bound : ℕ) (line : Text) → length line ≤ bound → Within bound (last_line line)
unfolding last_line
last_line-Within bound [] h = tt
last_line-Within bound (c ∷ line) h = (h, tt)

-- A line that is full, or one that is not.
grow-Within :
    (full : Bool) (bound : ℕ) (line : Text) (fresh longer : List Text)
    → length line ≤ bound
    → (full ≡ true → Within bound fresh)
    → (full ≡ false → Within bound longer)
    → Within bound (if full then line ∷ fresh else longer)
grow-Within true bound line fresh longer h f g = (h, f refl)
grow-Within false bound line fresh longer h f g = g refl

broken-Within :
    (mark : Bool) (bound : ℕ) (line : Text) (broken rest : List Text)
    → length line ≤ bound
    → Within bound broken
    → Within bound rest
    → Within bound (if mark then line ∷ broken else rest)
broken-Within true bound line broken rest h f g = (h, f)
broken-Within false bound line broken rest h f g = g

comment_lines-Within :
    (prefix : Text) (max longest : ℕ) (words : List Text) (line : Text)
    → length prefix ≤ max
    → Within longest words
    → length line ≤ max + 1 + longest
    → Within (max + 1 + longest) (comment_lines prefix max words line)
unfolding comment_lines
comment_lines-Within prefix max longest [] line p w h = last_line-Within (max + 1 + longest) line h
comment_lines-Within prefix max longest (word ∷ words) line p w h =
    let next : (l : Text)
        → length l ≤ max + 1 + longest
        → Within (max + 1 + longest) (comment_lines prefix max words l) =
      λ l q. comment_lines-Within prefix max longest words l p w.1 q in
    broken-Within (word == break_mark) _ line _ _ h (next prefix (omega arith)) (
      grow-Within (ltb max (length line)) _ line _ _ h
        (λ e.
          next (add_word prefix [] word)
            (add_word-length prefix [] word max longest p (omega arith) w.0))
        (λ e.
          next (add_word prefix line word)
            (add_word-length prefix line word max longest p (ground arith) w.0)))

-- Where the maximum is at least the length of the slashes and no word is longer than a bound, no line of a comment behind these slashes is longer than the maximum, a space and the bound: a line may pass the maximum, by one word.
pub comment-Within :
    (content : Text) (k max longest : ℕ)
    → 3 ≤ max
    → Within longest (split_spaces (mark_breaks (trim content)))
    → (ls : List Text) × (comment content (repeated k (text " ") ++ slashes) 0 max
        ≡ join (text "\n") ls)
      × Within (max + 1 + longest) ls
unfolding comment
comment-Within content k max longest p w =
    let (ls, same, h) = trimmed (trim content) w in
    (ls, ap (λ (t : Text). comment_trimmed (trim content) t max) (indented_lem k) ∙ same, h)
  where
    trimmed :
        (t : Text)
        → Within longest (split_spaces (mark_breaks t))
        → (ls : List Text) × (comment_trimmed t (text "///") max ≡ join (text "\n") ls)
          × Within (max + 1 + longest) ls
    trimmed [] w = ([], refl, tt)
    trimmed (c ∷ cs) w =
        (_, refl, comment_lines-Within (text "///") max longest _ [] p w (omega arith))
