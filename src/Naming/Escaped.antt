-- ===== src/Naming/Escaped.antt =====
-- tcgcadapter/naming.ts, `getEscapedReservedName`: the result is no reserved word.
use typespec_rust.Prelude.{
  Text, text, Bool, true, false, List, [], ◌∷◌, ◌++◌, ◌||◌, ◌==◌, ==_iff, ==-refl, any, All, ◌≡◌,
  refl, arith,
}
use typespec_rust.Codemodel.Crate.{includes}
use typespec_rust.Naming.{
  Suffix, fn, param, prop, suffix_text, reserved_words, get_escaped_reserved_name,
}

-- The text ends in `_` and the suffix.
unfoldable pub ends_in : Text → Text → Bool
unfolding ◌==◌
ends_in end [] = [] == end
ends_in end (c ∷ cs) = (c ∷ cs) == end || ends_in end cs

ends_in-append : (end x : Text) → ends_in end (x ++ end) ≡ true
unfolding ends_in
ends_in-append [] [] = refl
ends_in-append (e ∷ end) [] = ground (arith, ==-refl (e ∷ end))
ends_in-append end (c ∷ x) = ground (arith, ends_in-append end x)

abbrev pub Free : Suffix → List Text → Type 0
Free suffix words = All (λ w. ends_in (text "_" ++ suffix_text suffix) w ≡ false) words

not_included :
    (end x : Text) (words : List Text)
    → All (λ w. ends_in end w ≡ false) words
    → includes words (x ++ end) ≡ false
unfolding includes any
not_included end x [] f = refl
not_included end x (w ∷ words) f =
    ground (arith, not_included end x words f.1, ends_in-append end x, ==_iff w (x ++ end))

reserved-Free : (suffix : Suffix) → Free suffix reserved_words
unfolding ends_in suffix_text
reserved-Free fn = ground arith
reserved-Free param = ground arith
reserved-Free prop = ground arith

-- Where no extra word ends in `_` and the suffix, the escaped name is no reserved word and no extra word, and escaping it again gives it back.
pub get_escaped_reserved_name-Free :
    (name : Text) (suffix : Suffix) (extra : List Text)
    → Free suffix extra
    → (includes reserved_words (get_escaped_reserved_name name suffix extra) ≡ false)
      × (includes extra (get_escaped_reserved_name name suffix extra) ≡ false)
      × (get_escaped_reserved_name (get_escaped_reserved_name name suffix extra) suffix extra
          ≡ get_escaped_reserved_name name suffix extra)
unfolding get_escaped_reserved_name
get_escaped_reserved_name-Free name suffix extra free = ground (
  arith,
  not_included (text "_" ++ suffix_text suffix) name reserved_words (reserved-Free suffix),
  not_included (text "_" ++ suffix_text suffix) name extra free,
)
