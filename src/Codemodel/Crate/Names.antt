-- ===== src/Codemodel/Crate/Names.antt =====
-- codemodel/crate.ts, `Crate.addDependency`: the names of a crate's dependencies.
use typespec_rust.Prelude.{Text, false, List, [], ◌∷◌, ◌||◌, ◌==◌, ==_iff, ◌≡◌, arith}
use typespec_rust.Codemodel.Crate.{CrateDependency, add_dependency}
use typespec_rust.Codemodel.Crate.Features.{depends_on}

-- No two entries have one name.
abbrev pub UniqueNames : List CrateDependency → Type 0
UniqueNames [] = Unit
UniqueNames (dep ∷ deps) = (depends_on dep.name deps ≡ false) × UniqueNames deps

pub depends_on-add_dependency :
    (d : CrateDependency) (deps : List CrateDependency) (n : Text)
    → depends_on n (add_dependency d deps) ≡ (depends_on n deps || d.name == n)
unfolding depends_on add_dependency
depends_on-add_dependency d [] n = ground arith
depends_on-add_dependency d (dep ∷ deps) n =
    ground (arith, depends_on-add_dependency d deps n, ==_iff dep.name d.name)

-- Where no two entries have one name, `addDependency` makes no second entry of a name.
pub add_dependency-UniqueNames :
    (d : CrateDependency) (deps : List CrateDependency)
    → UniqueNames deps
    → UniqueNames (add_dependency d deps)
unfolding add_dependency depends_on
add_dependency-UniqueNames d [] u = ground arith
add_dependency-UniqueNames d (dep ∷ deps) u = ground (
  arith,
  add_dependency-UniqueNames d deps,
  depends_on-add_dependency d deps dep.name,
  ==_iff dep.name d.name,
  ==_iff d.name dep.name,
)
