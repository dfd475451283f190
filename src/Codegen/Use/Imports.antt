-- ===== src/Codegen/Use/Imports.antt =====
-- codegen/use.ts, `Use.addForType` in the scope of the clients: what a type names is in scope.
use typespec_rust.Prelude.{Text, List, ◌||◌, ◌≡◌}
use typespec_rust.Prelude.Result.{Result, ok}
use typespec_rust.Codemodel.Crate.{ModuleContainer}
use typespec_rust.Codemodel.Kinds.{QualifiedType}
use typespec_rust.Codemodel.Types.{RustType}
use typespec_rust.Codegen.UseTree.Paths.{holds}
use typespec_rust.Codegen.Use.{Use, Scope}
use typespec_rust.Codegen.Use.Mentioned.{leads_to}

-- The second holds what the first holds, and the paths of the items with their beginnings, and no
-- other; the module and the scope are the same.
record Brought (u v : Use) (qs : List QualifiedType) : Type 0 where
  pub same_scope : v.scope ≡ u.scope
  pub same_container : v.container ≡ u.container
  pub exact : (p : List Text) → holds p v.trees ≡ (holds p u.trees || leads_to qs p)

-- For a client file the step succeeds, and brings exactly the items that it is to bring for the file's
-- module.
abbrev Brings : (Use → Result Use) → (ModuleContainer → List QualifiedType) → Type 0
Brings f qs =
    (u : Use) → u.scope ≡ Scope.clients → (v : Use) × (f u ≡ ok v) × Brought u v (qs u.container)
