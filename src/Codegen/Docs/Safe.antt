-- ===== src/Codegen/Docs/Safe.antt =====
-- codegen/helpers.ts, `formatDocComment`: no part of the docs gets out of the comment.
use typespec_rust.Prelude.{
  ℕ, zero, suc, Text, text, Bool, true, false, ◌||◌, Option, none, some, List, [], ◌∷◌, ◌++◌, join,
  ◌==◌, ltb, length, All, ◌≡◌, refl, arith, ap, sym, ◌∙◌, append_assoc, if◌then◌else◌,
}
use mathlib.Core.Path.{subst}
use typespec_rust.Prelude.Spaces.{
  is_space, blank, trim_start, trim, split_lines, split_spaces, starts_with,
}
use typespec_rust.Codegen.Docs.{
  repeated, indented, break_mark, mark_breaks, add_word, last_line, comment_lines, comment_trimmed,
  replace_first, slashes, align_rest, align, aligned,
}
use typespec_rust.Codegen.Docs.Lines.{
  NoBreak, split_lines-join, split_spaces-NoBreak, NoBreak-append,
}

-- A line of Rust that is blank, or a doc comment behind its indentation.
unfoldable pub is_comment_line : Text → Bool
unfolding blank trim_start starts_with
is_comment_line l = blank l || starts_with (text "///") (trim_start l)

-- All lines of the text are.
abbrev pub IsComment : Text → Type 0
IsComment t = All (λ l. is_comment_line l ≡ true) (split_lines t)

-- The lines that `comment` makes with the prefix of doc comments.
pub data CommentLine (l : Text) : Type 0 where
  nothing : l ≡ [] → CommentLine l
  bare : l ≡ text "///" → CommentLine l
  said : (r : Text) → NoBreak r → l ≡ slashes ++ r → CommentLine l

CommentLine-add_word :
    (line word : Text)
    → NoBreak word
    → CommentLine line
    → CommentLine (add_word (text "///") line word)
unfolding add_word
CommentLine-add_word [] word n c = said word n refl
CommentLine-add_word (x ∷ line) word n (nothing e) = absurd (ground arith)
CommentLine-add_word (x ∷ line) word n (bare e) =
    said word n (ap (λ (t : Text). t ++ (text " " ++ word)) e)
CommentLine-add_word (x ∷ line) word n (said r m e) =
    said (r ++ (text " " ++ word)) (NoBreak-append r (text " " ++ word) m (omega arith, n))
      (ap (λ (t : Text). t ++ (text " " ++ word)) e ∙ append_assoc slashes r (text " " ++ word))

last_line-CommentLine : (line : Text) → CommentLine line → All CommentLine (last_line line)
unfolding last_line
last_line-CommentLine [] c = tt
last_line-CommentLine (x ∷ line) c = (c, tt)

All-if :
    (b : Bool) (xs ys : List Text)
    → All CommentLine xs
    → All CommentLine ys
    → All CommentLine (if b then xs else ys)
All-if true xs ys a c = a
All-if false xs ys a c = c

comment_lines-CommentLine :
    (max : ℕ) (words : List Text) (line : Text)
    → All NoBreak words
    → CommentLine line
    → All CommentLine (comment_lines (text "///") max words line)
unfolding comment_lines
comment_lines-CommentLine max [] line a c = last_line-CommentLine line c
comment_lines-CommentLine max (w ∷ words) line a c =
    All-if (w == break_mark) _ _
      (c, comment_lines-CommentLine max words (text "///") a.1 (bare refl))
      (All-if (ltb max (length line)) _ _
        (
          c,
          comment_lines-CommentLine max words (add_word (text "///") [] w) a.1
              (CommentLine-add_word [] w a.0 (nothing refl)),
        )
        (comment_lines-CommentLine max words (add_word (text "///") line w) a.1
          (CommentLine-add_word line w a.0 c)))

NoBreak-CommentLine : (l : Text) → CommentLine l → NoBreak l
NoBreak-CommentLine l (nothing e) = subst NoBreak (sym e) tt
NoBreak-CommentLine l (bare e) = subst NoBreak (sym e) (omega arith)
NoBreak-CommentLine l (said r n e) =
    subst NoBreak (sym e) (NoBreak-append slashes r (omega arith) n)

is_comment_line-CommentLine : (l : Text) → CommentLine l → is_comment_line l ≡ true
unfolding is_comment_line is_space
is_comment_line-CommentLine l (nothing e) = rw e refl
is_comment_line-CommentLine l (bare e) = rw e refl
is_comment_line-CommentLine l (said r n e) = rw e refl

pub NoBreak-repeated : (k : ℕ) → NoBreak (repeated k (text " "))
unfolding repeated
NoBreak-repeated zero = tt
NoBreak-repeated (suc k) = (omega arith, NoBreak-repeated k)

replaced-CommentLine :
    (n : ℕ) (l : Text)
    → CommentLine l
    → CommentLine (replace_first slashes (slashes ++ repeated n (text " ")) l)
unfolding replace_first
replaced-CommentLine n l (nothing e) =
    nothing (ap (replace_first slashes (slashes ++ repeated n (text " "))) e)
replaced-CommentLine n l (bare e) =
    bare (ap (replace_first slashes (slashes ++ repeated n (text " "))) e)
replaced-CommentLine n l (said r m e) =
    said (repeated n (text " ") ++ r)
      (NoBreak-append (repeated n (text " ")) r (NoBreak-repeated n) m)
      (ap (replace_first slashes (slashes ++ repeated n (text " "))) e)

align_rest-CommentLine :
    (n : ℕ) (ls : List Text) → All CommentLine ls → All CommentLine (align_rest n ls)
unfolding align_rest
align_rest-CommentLine n [] a = tt
align_rest-CommentLine n (l ∷ ls) a =
    (replaced-CommentLine n l a.0, align_rest-CommentLine n ls a.1)

align-CommentLine : (n : ℕ) (ls : List Text) → All CommentLine ls → All CommentLine (align n ls)
unfolding align
align-CommentLine n [] a = tt
align-CommentLine n (l ∷ ls) a = (a.0, align_rest-CommentLine n ls a.1)

All-NoBreak : (ls : List Text) → All CommentLine ls → All NoBreak ls
All-NoBreak [] a = tt
All-NoBreak (l ∷ ls) a = (NoBreak-CommentLine l a.0, All-NoBreak ls a.1)

pub All-is_comment_line :
    (ls : List Text) → All CommentLine ls → All (λ l. is_comment_line l ≡ true) ls
All-is_comment_line [] a = tt
All-is_comment_line (l ∷ ls) a = (is_comment_line-CommentLine l a.0, All-is_comment_line ls a.1)

-- Lines of the kind that are joined and split again are of the kind.
split-CommentLine :
    (ls : List Text) → All CommentLine ls → All CommentLine (split_lines (join (text "\n") ls))
unfolding join split_lines
split-CommentLine [] a = (nothing refl, tt)
split-CommentLine (l ∷ ls) a =
    subst (All CommentLine)
      (sym (split_lines-join l ls (NoBreak-CommentLine l a.0) (All-NoBreak ls a.1))) a

pub aligned-CommentLine :
    (o : Option ℕ) (ls : List Text)
    → All CommentLine ls
    → All CommentLine (split_lines (aligned (join (text "\n") ls) o))
unfolding aligned
aligned-CommentLine none ls a = split-CommentLine ls a
aligned-CommentLine (some n) ls a =
    split-CommentLine _ (align-CommentLine n _ (split-CommentLine ls a))

pub trim_start-repeated :
    (k : ℕ) (t : Text) → trim_start (repeated k (text " ") ++ t) ≡ trim_start t
unfolding trim_start repeated
trim_start-repeated zero t = refl
trim_start-repeated (suc k) t = trim_start-repeated k t

-- The prefix loses its spaces: also where an indentation is asked for, `comment` begins lines with `///`.
pub indented_lem : (k : ℕ) → indented (repeated k (text " ") ++ slashes) 0 ≡ text "///"
unfolding indented trim
indented_lem k = rw (trim_start-repeated k slashes) refl

pub comment_trimmed-lines :
    (content : Text) (max : ℕ)
    → (ls : List Text) × All CommentLine ls
      × (comment_trimmed content (text "///") max ≡ join (text "\n") ls)
unfolding comment_trimmed
comment_trimmed-lines [] max = ([], tt, refl)
comment_trimmed-lines (c ∷ cs) max = (
  comment_lines (text "///") max (split_spaces (mark_breaks (c ∷ cs))) [],
  comment_lines-CommentLine max (split_spaces (mark_breaks (c ∷ cs))) []
      (split_spaces-NoBreak (mark_breaks (c ∷ cs))) (nothing refl),
  refl,
)
