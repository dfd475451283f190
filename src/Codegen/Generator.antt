-- ===== src/Codegen/Generator.antt =====
-- codegen/codeGenerator.ts: `recursiveEmit` and `addModelsFile`.
pub mod Reached
use typespec_rust.Prelude.{Text, text, Option, none, some, List, [], ◌∷◌, ◌++◌}
use typespec_rust.Prelude.Result.{Result, ok, ◌>>=◌}
use typespec_rust.Codemodel.Crate.{ModuleContainer, crate, sub_module}
use typespec_rust.Codemodel.Client.{ModuleBase, SubModules, nil, cons, node}
use typespec_rust.Codemodel.Client as Client
use typespec_rust.Codegen.Visibility.{ModuleVisibility, internal, pub_use, pub_crate}
use typespec_rust.Codegen.Module.{Module}
use typespec_rust.Codegen.ModFiles.{emit_sub_mod_rs}

-- `File`
pub record File : Type 0 where
  pub name : Text
  pub content : Text

-- The files so far, and the lines for the mod.rs of the models.
pub record ModelsFiles : Type 0 where
  pub files : List File
  pub mod_lines : List Text

-- The line that declares the file of a module.
unfoldable pub mod_line : ModuleVisibility → Text → Text
mod_line pub_crate name = text "pub(crate) mod " ++ name
mod_line v name = text "mod " ++ name

-- The line that passes its contents on, if there is one.
unfoldable pub use_line : ModuleVisibility → Text → List Text
use_line internal name = []
use_line pub_use name = (text "pub use " ++ (name ++ text "::*")) ∷ []
use_line pub_crate name = (text "pub(crate) use " ++ (name ++ text "::*")) ∷ []

unfoldable pub models_file : Text → Module → File
models_file dir m = record {
  name = dir ++ (text "generated/models/" ++ (m.name ++ text ".rs"));
  content = m.content;
}

-- `addModelsFile`; no module, no file.
unfoldable pub add_models_file : Text → Option Module → ModelsFiles → ModelsFiles
unfolding models_file mod_line use_line
add_models_file dir none s = s
add_models_file dir (some m) s = record {
  files = s.files ++ models_file dir m ∷ [];
  mod_lines = s.mod_lines ++ mod_line m.visibility m.name ∷ use_line m.visibility m.name;
}

unfoldable pub container_name : ModuleContainer → Text
container_name (crate i name) = name
container_name (sub_module i name parent) = name

-- `${dir}${subModule.name}/`
unfoldable pub sub_dir : Client.Module → Text → Text
unfolding container_name
sub_dir (node c b subs) dir = dir ++ (container_name c ++ text "/")

-- The mod.rs file of a sub-module in its directory.
unfoldable pub mod_file : Client.Module → Text → File
unfolding emit_sub_mod_rs
mod_file (node c b subs) dir = record {
  name = dir ++ text "mod.rs";
  content = emit_sub_mod_rs b subs;
}

-- `recursiveEmit`; the callback may throw.
unfoldable mutual
  unfolding sub_dir mod_file

  pub recursive_emit :
      (Client.Module → Text → Result (List File)) → Client.Module → Text → Result (List File)
  recursive_emit emit (node c b subs) dir = do
    own ← emit (node c b subs) dir
    rest ← emit_subs emit subs dir
    ok (own ++ rest)

  -- The loop over the sub-modules.
  pub emit_subs :
      (Client.Module → Text → Result (List File)) → SubModules → Text → Result (List File)
  emit_subs emit nil dir = ok []
  emit_subs emit (cons m ms) dir = do
    own ← recursive_emit emit m (sub_dir m dir)
    rest ← emit_subs emit ms dir
    ok (mod_file m (sub_dir m dir) ∷ (own ++ rest))
