-- ===== src/Codegen/Module.antt =====
-- codegen/helpers.ts: `Module`, an emitted file.
use typespec_rust.Prelude.{Text}
use typespec_rust.Codegen.Visibility.{ModuleVisibility}

-- `Module`
pub record Module : Type 0 where
  pub name : Text
  pub content : Text
  pub visibility : ModuleVisibility
