-- ===== src/Codegen/Manifest/Features.antt =====
-- codegen/cargotoml.ts: the text of a dependency's features, and lists without repeated features.
use typespec_rust.Prelude.{
  Text, text, true, false, List, [], ◌∷◌, ◌++◌, ==_iff, ==-refl, map, join, any, ◌≡◌, refl, arith,
  ap, if◌then◌else◌,
}
use typespec_rust.Prelude.Sort.Texts.{occurrences, sort_by_canonical}
use typespec_rust.Codemodel.Crate.{includes, missing_from}
use typespec_rust.Codemodel.Crate.Features.{includes-append}
use typespec_rust.Codegen.Manifest.{features_text, quoted}

-- No feature stands twice.
abbrev pub NoRepeats : List Text → Type 0
NoRepeats [] = Unit
NoRepeats (f ∷ fs) = (includes fs f ≡ false) × NoRepeats fs

pub occurrences-NoRepeats :
    (x : Text) (fs : List Text) → NoRepeats fs → occurrences x fs ≡ (if includes fs x then 1 else 0)
unfolding occurrences includes any
occurrences-NoRepeats x [] n = refl
occurrences-NoRepeats x (f ∷ fs) n = ground (arith, occurrences-NoRepeats x fs n.1, ==_iff f x)

-- The same features, each once, have one text.
pub features_text_canonical :
    (fs gs : List Text)
    → NoRepeats fs
    → NoRepeats gs
    → ((x : Text) → includes fs x ≡ includes gs x)
    → features_text fs ≡ features_text gs
unfolding features_text includes any
features_text_canonical [] [] n m same = refl
features_text_canonical [] (g ∷ gs) n m same = ground (arith, same g, ==-refl g)
features_text_canonical (f ∷ fs) [] n m same = ground (arith, same f, ==-refl f)
features_text_canonical (f ∷ fs) (g ∷ gs) n m same =
    ap
      (λ (sorted : List Text).
        text ", features = [" ++ (join (text ", ") (map quoted sorted) ++ text "]"))
      (sort_by_canonical (f ∷ fs) (g ∷ gs) λ x.
        ground
          (arith, occurrences-NoRepeats x (f ∷ fs) n, occurrences-NoRepeats x (g ∷ gs) m, same x))

missing_from-includes :
    (old fs : List Text) (x : Text)
    → includes fs x ≡ false
    → includes (missing_from old fs) x ≡ false
unfolding missing_from includes any
missing_from-includes old [] x h = refl
missing_from-includes old (f ∷ fs) x h = ground (arith, missing_from-includes old fs x)

missing_from-NoRepeats : (old fs : List Text) → NoRepeats fs → NoRepeats (missing_from old fs)
unfolding missing_from
missing_from-NoRepeats old [] n = tt
missing_from-NoRepeats old (f ∷ fs) n =
    ground (arith, missing_from-NoRepeats old fs n.1, missing_from-includes old fs f n.0)

missing_from_apart :
    (old fs : List Text) (x : Text)
    → includes old x ≡ true
    → includes (missing_from old fs) x ≡ false
unfolding missing_from includes any
missing_from_apart old [] x h = refl
missing_from_apart old (f ∷ fs) x h = ground (arith, missing_from_apart old fs x h, ==_iff f x)

append-NoRepeats :
    (fs gs : List Text)
    → NoRepeats fs
    → NoRepeats gs
    → ((x : Text) → includes fs x ≡ true → includes gs x ≡ false)
    → NoRepeats (fs ++ gs)
unfolding includes any
append-NoRepeats [] gs n m apart = m
append-NoRepeats (f ∷ fs) gs n m apart = (
  ground (arith, includes-append fs gs f, apart f, ==-refl f),
  append-NoRepeats fs gs n.1 m λ x h. apart x (ground arith),
)

-- Merging features keeps them apart.
pub merged-NoRepeats :
    (fs gs : List Text) → NoRepeats fs → NoRepeats gs → NoRepeats (fs ++ missing_from fs gs)
merged-NoRepeats fs gs n m =
    append-NoRepeats fs (missing_from fs gs) n (missing_from-NoRepeats fs gs m)
      (missing_from_apart fs gs)
