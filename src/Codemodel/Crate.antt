-- ===== src/Codemodel/Crate.antt =====
-- codemodel/crate.ts: crates, modules and the dependencies of a crate.
pub mod Features
pub mod Names
use typespec_rust.Prelude.{
  ℕ, Text, Bool, true, false, List, [], ◌∷◌, ◌++◌, map, not, ◌==◌, any, if◌then◌else◌, eqb,
}

pub data ServiceType : Type 0 where
  azure_arm data_plane : ServiceType

pub record CrateDependency : Type 0 where
  pub name : Text
  pub features : List Text

-- Array.prototype.includes
unfoldable pub includes : List Text → Text → Bool
includes xs x = any (λ y. y == x) xs

-- `features.filter(item => !dep.features.includes(item))`
unfoldable pub missing_from : List Text → List Text → List Text
unfolding includes any
missing_from old [] = []
missing_from old (f ∷ fs) =
    let rest = missing_from old fs in if includes old f then rest else f ∷ rest

-- The method `Crate.addDependency`, on the crate's dependencies: the first entry of that name gets
-- the features that it lacks, and with no such entry the dependency goes to the end.
unfoldable pub add_dependency : CrateDependency → List CrateDependency → List CrateDependency
unfolding missing_from ◌==◌
add_dependency d [] = d ∷ []
add_dependency d (dep ∷ deps) =
    if dep.name == d.name
    then record dep { features = dep.features ++ missing_from dep.features d.features } ∷ deps
    else dep ∷ add_dependency d deps

-- A crate without its contents.
pub record Crate : Type 0 where
  pub name : Text
  pub version : Text
  pub type : ServiceType
  pub dependencies : List CrateDependency

-- `new Crate(name, version, type)`
unfoldable pub new_crate : Text → Text → ServiceType → Crate
new_crate name version type = record {
  name = name;
  version = version;
  type = type;
  dependencies = [];
}

-- `Crate | SubModule` seen from below, with an identity, a name, and for a sub-module its parent,
-- which its constructor takes and nothing changes.
pub data ModuleContainer : Type 0 where
  crate : ℕ → Text → ModuleContainer
  sub_module : ℕ → Text → ModuleContainer → ModuleContainer

unfoldable pub identity : ModuleContainer → ℕ
identity (crate i name) = i
identity (sub_module i name parent) = i

-- `===` on modules
unfoldable pub same_module : ModuleContainer → ModuleContainer → Bool
unfolding identity
same_module a b = eqb (identity a) (identity b)
