-- ===== src/Prelude/Spaces.antt =====
-- White space and lines of JavaScript strings: `trim`, and `split` at spaces and at line breaks.
use Prim.Native.Nat.{ℕ}
use mathlib.Core.Bool.{Bool, true, false, ◌&&◌, ◌||◌}
use mathlib.Core.List.{List, [], ◌∷◌}
use typespec_rust.Prelude.Tests.{eqb, leb, if◌then◌else◌}
use typespec_rust.Prelude.Lists.{any}
use typespec_rust.Prelude.Strings.{Text}

-- `\s`, which is also what `trim` removes.
unfoldable pub is_space : ℕ → Bool
unfolding any
is_space c =
    (leb 9 c && leb c 13)
    || any (eqb c) (32 ∷ 160 ∷ 5760 ∷ 8232 ∷ 8233 ∷ 8239 ∷ 8287 ∷ 12288 ∷ 65279 ∷ [])
    || (leb 8192 c && leb c 8202)

-- `t.trim() === ''`
unfoldable pub blank : Text → Bool
unfolding is_space
blank [] = true
blank (c ∷ cs) = is_space c && blank cs

-- Without the white space in front.
unfoldable pub trim_start : Text → Text
unfolding is_space
trim_start [] = []
trim_start (c ∷ cs) = if is_space c then trim_start cs else c ∷ cs

-- Without the white space behind.
unfoldable pub trim_end : Text → Text
unfolding blank
trim_end [] = []
trim_end (c ∷ cs) = if blank (c ∷ cs) then [] else c ∷ trim_end cs

unfoldable pub trim : Text → Text
unfolding trim_start trim_end
trim t = trim_end (trim_start t)

-- A character in front of the first of the pieces.
unfoldable pub push_first : ℕ → List Text → List Text
push_first c [] = (c ∷ []) ∷ []
push_first c (x ∷ xs) = (c ∷ x) ∷ xs

-- `split('\n')`
unfoldable pub split_lines : Text → List Text
unfolding push_first
split_lines [] = [] ∷ []
split_lines (c ∷ cs) =
    let rest = split_lines cs in if eqb c b'\n' then [] ∷ rest else push_first c rest

-- The pieces behind a run of white space: a longer run is one separator.
unfoldable pub behind_space : Text → List Text → List Text
unfolding is_space
behind_space [] pieces = [] ∷ pieces
behind_space (d ∷ ds) pieces = if is_space d then pieces else [] ∷ pieces

-- `split(/\s+/g)`
unfoldable pub split_spaces : Text → List Text
unfolding push_first behind_space is_space
split_spaces [] = [] ∷ []
split_spaces (c ∷ cs) =
    let rest = split_spaces cs in if is_space c then behind_space cs rest else push_first c rest

-- `startsWith`
unfoldable pub starts_with : Text → Text → Bool
starts_with [] t = true
starts_with (p ∷ ps) [] = false
starts_with (p ∷ ps) (c ∷ cs) = eqb p c && starts_with ps cs
