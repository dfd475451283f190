-- ===== src/Codemodel/Crate/Features.antt =====
-- codemodel/crate.ts, `Crate.addDependency`: the features that a crate asks of its dependencies.
use typespec_rust.Prelude.{
  Text, Bool, true, false, List, [], ◌∷◌, ◌++◌, ◌&&◌, ◌||◌, ◌==◌, ==_iff, ==_eq, ==-refl, any,
  any-append, ◌≡◌, refl, arith, append-nil, ◌∙◌,
}
use typespec_rust.Codemodel.Crate.{CrateDependency, includes, missing_from, add_dependency}

-- The crate depends on the named crate, with the feature.
unfoldable pub requires : Text → Text → List CrateDependency → Bool
unfolding ◌==◌ includes any
requires n f [] = false
requires n f (dep ∷ deps) = (dep.name == n && includes dep.features f) || requires n f deps

-- A name has an entry.
unfoldable pub depends_on : Text → List CrateDependency → Bool
unfolding ◌==◌
depends_on n [] = false
depends_on n (dep ∷ deps) = dep.name == n || depends_on n deps

pub includes-append :
    (xs ys : List Text) (f : Text) → includes (xs ++ ys) f ≡ (includes xs f || includes ys f)
unfolding includes
includes-append xs ys f = any-append _ xs ys

includes-missing_from :
    (old fs : List Text) (f : Text)
    → (includes old f || includes (missing_from old fs) f) ≡ (includes old f || includes fs f)
unfolding missing_from includes any
includes-missing_from old [] f = refl
includes-missing_from old (g ∷ fs) f = ground (arith, includes-missing_from old fs f, ==_iff g f)

-- Merging keeps every feature asked for, and asks for no other.
requires-merge :
    (old fs : List Text) (f : Text)
    → includes (old ++ missing_from old fs) f ≡ (includes old f || includes fs f)
requires-merge old fs f =
    includes-append old (missing_from old fs) f ∙ includes-missing_from old fs f

-- After `addDependency` the crate asks for what it asked for, and for what the dependency names.
pub requires-add_dependency :
    (d : CrateDependency) (deps : List CrateDependency) (n f : Text)
    → requires n f (add_dependency d deps)
      ≡ (requires n f deps || (d.name == n && includes d.features f))
unfolding requires add_dependency
requires-add_dependency d [] n f = ground arith
requires-add_dependency d (dep ∷ deps) n f = ground (
  arith,
  requires-add_dependency d deps n f,
  requires-merge dep.features d.features f,
  ==_eq dep.name d.name,
)

missing_from-eq_nil :
    (have fs : List Text)
    → ((f : Text) → includes fs f ≡ true → includes have f ≡ true)
    → missing_from have fs ≡ []
unfolding missing_from includes any
missing_from-eq_nil have [] h = refl
missing_from-eq_nil have (g ∷ fs) h =
    ground (arith, h g, ==-refl g, missing_from-eq_nil have fs (λ f p. h f (ground arith)))

merge_again :
    (old fs : List Text)
    → (old ++ missing_from old fs) ++ missing_from (old ++ missing_from old fs) fs
      ≡ old ++ missing_from old fs
merge_again old fs =
    let nothing : missing_from (old ++ missing_from old fs) fs ≡ [] =
      missing_from-eq_nil (old ++ missing_from old fs) fs
        (λ f p. ground (arith, requires-merge old fs f)) in
    rw nothing (append-nil (old ++ missing_from old fs))

merge_self : (fs : List Text) → fs ++ missing_from fs fs ≡ fs
merge_self fs = rw (missing_from-eq_nil fs fs (λ f p. p)) (append-nil fs)

-- The second of two equal calls of `addDependency` changes nothing.
pub add_dependency_idem :
    (d : CrateDependency) (deps : List CrateDependency)
    → add_dependency d (add_dependency d deps) ≡ add_dependency d deps
unfolding add_dependency
add_dependency_idem d [] = ground (arith, ==-refl d.name, merge_self d.features)
add_dependency_idem d (dep ∷ deps) =
    ground (arith, merge_again dep.features d.features, add_dependency_idem d deps)
