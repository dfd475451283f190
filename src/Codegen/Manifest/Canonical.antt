-- ===== src/Codegen/Manifest/Canonical.antt =====
-- codegen/cargotoml.ts, and the sort of the dependencies in codegen/codeGenerator.ts: Cargo.toml depends
-- only on which features of which crates were asked for.
use typespec_rust.Prelude.{
  Text, text, true, false, List, [], ◌∷◌, ◌++◌, ==_iff, ==-refl, ◌≡◌, refl, arith, ap, ap₂, sym,
  ◌∙◌, All,
}
use typespec_rust.Prelude.Order.{less, less_irrefl, less_asymm}
use typespec_rust.Codemodel.Crate.{CrateDependency, includes}
use typespec_rust.Codemodel.Crate.Features.{requires, depends_on}
use typespec_rust.Codegen.Manifest.{
  dependency_text, dependency_lines, dependencies_text, features_text,
}
use typespec_rust.Codegen.Manifest.Features.{NoRepeats, features_text_canonical}

abbrev dep_name : CrateDependency → Text
dep_name d = d.name

-- The same crates, with the same features of each.
pub record SameRequests (ds es : List CrateDependency) : Type 0 where
  pub crates : (n : Text) → depends_on n ds ≡ depends_on n es
  pub features : (n f : Text) → requires n f ds ≡ requires n f es

-- No dependency names a feature twice.
abbrev pub Clean : List CrateDependency → Type 0
Clean = All (λ d. NoRepeats d.features)

abbrev pub Above : Text → List CrateDependency → Type 0
Above n = All (λ d. less n d.name ≡ true)

abbrev pub Strict : List CrateDependency → Type 0
Strict [] = Unit
Strict (d ∷ ds) = Above d.name ds × Strict ds

depends_on-Above : (n : Text) (ds : List CrateDependency) → Above n ds → depends_on n ds ≡ false
unfolding depends_on
depends_on-Above n [] a = refl
depends_on-Above n (d ∷ ds) a =
    ground (arith, depends_on-Above n ds a.1, ==_iff d.name n, less_irrefl n)

requires-Above : (n f : Text) (ds : List CrateDependency) → Above n ds → requires n f ds ≡ false
unfolding requires
requires-Above n f [] a = refl
requires-Above n f (d ∷ ds) a =
    ground (arith, requires-Above n f ds a.1, ==_iff d.name n, less_irrefl n)

Above-depends_on :
    (m n : Text) (ds : List CrateDependency) → Above m ds → depends_on n ds ≡ true → less m n ≡ true
unfolding depends_on
Above-depends_on m n [] a h = cc
Above-depends_on m n (d ∷ ds) a h = ground (arith, Above-depends_on m n ds a.1, ==_iff d.name n)

heads_eq :
    (d e : CrateDependency) (ds es : List CrateDependency)
    → Above d.name ds
    → Above e.name es
    → SameRequests (d ∷ ds) (e ∷ es)
    → d.name ≡ e.name
unfolding depends_on
heads_eq d e ds es a b same = ground (
  arith,
  same.crates d.name,
  same.crates e.name,
  Above-depends_on e.name d.name es b,
  Above-depends_on d.name e.name ds a,
  less_asymm d.name e.name,
  ==_iff d.name e.name,
  ==_iff e.name d.name,
  ==-refl d.name,
  ==-refl e.name,
)

-- The head of strictly sorted dependencies names all features of its crate.
head_features :
    (d : CrateDependency) (ds : List CrateDependency) (f : Text)
    → Above d.name ds
    → requires d.name f (d ∷ ds) ≡ includes d.features f
unfolding requires
head_features d ds f a = ground (arith, requires-Above d.name f ds a, ==-refl d.name)

tail_requests :
    (d e : CrateDependency) (ds es : List CrateDependency)
    → Above d.name ds
    → Above e.name es
    → d.name ≡ e.name
    → SameRequests (d ∷ ds) (e ∷ es)
    → SameRequests ds es
unfolding depends_on requires
tail_requests d e ds es a b eq same = record {
  crates = λ n. ground (
    arith,
    same.crates n,
    ==_iff d.name n,
    ==_iff e.name n,
    depends_on-Above d.name ds a,
    depends_on-Above e.name es b,
  );
  features = λ n f. ground (
    arith,
    same.features n f,
    ==_iff d.name n,
    ==_iff e.name n,
    requires-Above d.name f ds a,
    requires-Above e.name f es b,
  );
}

dependency_text_canonical :
    (d e : CrateDependency)
    → d.name ≡ e.name
    → features_text d.features ≡ features_text e.features
    → dependency_text d ≡ dependency_text e
unfolding dependency_text
dependency_text_canonical d e n f = rw (n, f) refl

same_features :
    (d e : CrateDependency) (ds es : List CrateDependency)
    → Above d.name ds
    → Above e.name es
    → d.name ≡ e.name
    → SameRequests (d ∷ ds) (e ∷ es)
    → (f : Text) → includes d.features f ≡ includes e.features f
same_features d e ds es a b eq same f =
    sym (head_features d ds f a)
    ∙ (same.features d.name f
        ∙ (ap (λ (n : Text). requires n f (e ∷ es)) eq ∙ head_features e es f b))

-- Strictly sorted dependencies with the same requests have the same lines.
dependency_lines_canonical :
    (ds es : List CrateDependency)
    → Strict ds
    → Strict es
    → Clean ds
    → Clean es
    → SameRequests ds es
    → dependency_lines ds ≡ dependency_lines es
unfolding dependency_lines depends_on
dependency_lines_canonical [] [] s t c k same = refl
dependency_lines_canonical [] (e ∷ es) s t c k same =
    ground (arith, same.crates e.name, ==-refl e.name)
dependency_lines_canonical (d ∷ ds) [] s t c k same =
    ground (arith, same.crates d.name, ==-refl d.name)
dependency_lines_canonical (d ∷ ds) (e ∷ es) s t c k same =
    let eq = heads_eq d e ds es s.0 t.0 same in
    let fs =
      features_text_canonical d.features e.features c.0 k.0
        (same_features d e ds es s.0 t.0 eq same) in
    ap₂ (λ (x y : Text). x ++ y) (dependency_text_canonical d e eq fs)
      (dependency_lines_canonical ds es s.1 t.1 c.1 k.1 (tail_requests d e ds es s.0 t.0 eq same))

pub dependencies_text_canonical :
    (ds es : List CrateDependency)
    → Strict ds
    → Strict es
    → Clean ds
    → Clean es
    → SameRequests ds es
    → dependencies_text ds ≡ dependencies_text es
unfolding dependencies_text depends_on
dependencies_text_canonical [] [] s t c k same = refl
dependencies_text_canonical [] (e ∷ es) s t c k same =
    ground (arith, same.crates e.name, ==-refl e.name)
dependencies_text_canonical (d ∷ ds) [] s t c k same =
    ground (arith, same.crates d.name, ==-refl d.name)
dependencies_text_canonical (d ∷ ds) (e ∷ es) s t c k same =
    ap (λ (x : Text). text "\n[dependencies]\n" ++ x)
      (dependency_lines_canonical (d ∷ ds) (e ∷ es) s t c k same)
