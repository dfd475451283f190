-- ===== src/Codegen/Docs/Comment.antt =====
-- codegen/helpers.ts, `formatDocComment`: all that it emits is a comment.
use typespec_rust.Prelude.{
  ℕ, Text, text, true, false, not, ◌&&◌, List, [], ◌∷◌, ◌++◌, join, All, ◌≡◌, refl, arith, ap, sym,
  ◌∙◌, append_assoc, append-nil, if◌then◌else◌,
}
use mathlib.Core.Path.{subst}
use typespec_rust.Prelude.Spaces.{blank, trim, trim_start, split_lines, starts_with}
use typespec_rust.Codemodel.Kinds.{Docs}
use typespec_rust.Codegen.Docs.{
  repeated, comment, comment_trimmed, block_start, slashes, aligned, format_line, format_lines,
  comment_text, part, describe, summarise, format_doc_comment,
}
use typespec_rust.Codegen.Docs.Lines.{split_lines-append, split_lines-NoBreak, NoBreak-append}
use typespec_rust.Codegen.Docs.Safe.{
  IsComment, is_comment_line, CommentLine, aligned-CommentLine, indented_lem, comment_trimmed-lines,
  trim_start-repeated, All-is_comment_line, NoBreak-repeated,
}

-- The indentation of a level.
abbrev level : ℕ → Text
level k = repeated k (text " ")

abbrev IsLine : Text → Type 0
IsLine l = is_comment_line l ≡ true

All-append : (xs ys : List Text) → All IsLine xs → All IsLine ys → All IsLine (xs ++ ys)
All-append [] ys a b = b
All-append (x ∷ xs) ys a b = (a.0, All-append xs ys a.1 b)

-- One comment, a line break and another.
append-IsComment : (x y : Text) → IsComment x → IsComment y → IsComment ((x ++ text "\n") ++ y)
append-IsComment x y a b =
    subst (All (λ l. is_comment_line l ≡ true))
      (sym (ap split_lines (append_assoc x (text "\n") y) ∙ split_lines-append x y))
      (All-append (split_lines x) (split_lines y) a b)

format_line-IsComment : (k : ℕ) (line : Text) → IsComment (format_line (level k) line)
unfolding format_line comment
format_line-IsComment k line =
    let (ls, a, e) = comment_trimmed-lines (trim (trim line)) 120 in
    let same : comment (trim line) (level k ++ slashes) 0 120 ≡ join (text "\n") ls =
      ap (λ (p : Text). comment_trimmed (trim (trim line)) p 120) (indented_lem k) ∙ e in
    All-is_comment_line _ (
      subst (λ f. All CommentLine (split_lines (aligned f (block_start f)))) (sym same)
        (aligned-CommentLine (block_start (join (text "\n") ls)) ls a))

separator_line : (k : ℕ) → is_comment_line (level k ++ text "///") ≡ true
unfolding is_comment_line
separator_line k =
    let slashed : starts_with (text "///") (trim_start (level k ++ text "///")) ≡ true =
      rw (trim_start-repeated k (text "///")) refl in
    ground arith

separator-IsComment : (k : ℕ) → IsComment (level k ++ text "///")
separator-IsComment k =
    subst (All IsLine)
      (sym (
        split_lines-NoBreak (level k ++ text "///")
          (NoBreak-append (level k) (text "///") (NoBreak-repeated k) (omega arith))))
      (separator_line k, tt)

before_separator :
    (k : ℕ) (rest : Text) → IsComment rest → IsComment ((level k ++ text "///\n") ++ rest)
before_separator k rest r =
    subst (λ t. IsComment (t ++ rest)) (append_assoc (level k) (text "///") (text "\n"))
      (append-IsComment (level k ++ text "///") rest (separator-IsComment k) r)

-- Commented lines before a comment.
before_lines :
    (k : ℕ) (lines : List Text) (rest : Text)
    → IsComment rest
    → IsComment (format_lines false (level k) lines ++ rest)
unfolding format_lines
before_lines k [] rest r = r
before_lines k (line ∷ lines) rest r =
    let behind = before_lines k lines rest r in
    let whole = format_lines false (level k) lines ++ rest in
    elim (blank line && not false)
      as (λ b. IsComment (
        ((if b then level k ++ text "///\n" else format_line (level k) line ++ text "\n")
          ++ format_lines false (level k) lines)
        ++ rest)) [
          | true ↦
              subst IsComment
                (sym (
                  append_assoc (level k ++ text "///\n") (format_lines false (level k) lines) rest))
                (before_separator k whole behind)
          | false ↦
              subst IsComment
                (sym (
                  append_assoc (format_line (level k) line ++ text "\n")
                    (format_lines false (level k) lines) rest))
                (append-IsComment (format_line (level k) line) whole (format_line-IsComment k line)
                  behind)
        ]

empty-IsComment : IsComment []
unfolding split_lines is_comment_line
empty-IsComment = (refl, tt)

comment_text-IsComment :
    (k : ℕ) (docs rest : Text)
    → IsComment rest
    → IsComment (comment_text false (level k) docs ++ rest)
unfolding comment_text
comment_text-IsComment k docs rest r = before_lines k (split_lines docs) rest r

comment_text_whole : (k : ℕ) (docs : Text) → IsComment (comment_text false (level k) docs)
comment_text_whole k docs =
    subst IsComment {y = comment_text false (level k) docs} (append-nil _)
      (comment_text-IsComment k docs [] empty-IsComment)

describe-IsComment :
    (k : ℕ) (prefix summary description : Text)
    → IsComment (describe false (level k) prefix summary description)
unfolding describe
describe-IsComment k prefix summary [] = empty-IsComment
describe-IsComment k prefix [] (c ∷ cs) = comment_text_whole k (prefix ++ c ∷ cs)
describe-IsComment k prefix (s ∷ ss) (c ∷ cs) =
    before_separator k (comment_text false (level k) (c ∷ cs)) (comment_text_whole k (c ∷ cs))

summarise-IsComment :
    (k : ℕ) (prefix summary rest : Text)
    → IsComment rest
    → IsComment (summarise false (level k) prefix summary ++ rest)
unfolding summarise
summarise-IsComment k prefix [] rest r = r
summarise-IsComment k prefix (s ∷ ss) rest r = comment_text-IsComment k (prefix ++ s ∷ ss) rest r

-- Whatever the docs hold, line breaks and marks included, each line that `formatDocComment` emits outside of an attribute, for a prefix and an indentation by spaces, is blank or begins with the slashes of a doc comment behind its indentation.
pub format_doc_comment-IsComment :
    (docs : Docs) (prefix : Text) (k : ℕ)
    → IsComment (format_doc_comment docs false prefix (repeated k (text " ")))
unfolding format_doc_comment
format_doc_comment-IsComment docs prefix k =
    summarise-IsComment k prefix (part docs.summary) _
      (describe-IsComment k prefix (part docs.summary) (part docs.description))
