-- ===== src/Utils/Imports.antt =====
-- utils/utils.ts, `buildImportPath`, and codegen/helpers.ts, `getCrate`.
use typespec_rust.Prelude.{Text, text, List, [], ◌∷◌, ◌++◌, ◌&&◌, ◌==◌, join, if◌then◌else◌}
use typespec_rust.Codemodel.Crate.{ModuleContainer, crate, sub_module, same_module}

-- The loop over the parents: the names of the sub-modules, the outermost first.
unfoldable pub module_chunks : ModuleContainer → List Text
module_chunks (crate i name) = []
module_chunks (sub_module i name parent) = module_chunks parent ++ name ∷ []

unfoldable pub build_import_path : ModuleContainer → ModuleContainer → Text → Text
unfolding module_chunks same_module ◌==◌ join
build_import_path dst src root =
    let path = join (text "::") (root ∷ module_chunks src) in
    if same_module dst src && root == text "crate" then path ++ text "::generated" else path

-- `getCrate`, the name of the crate at the end of the loop
unfoldable pub get_crate : ModuleContainer → Text
get_crate (crate i name) = name
get_crate (sub_module i name parent) = get_crate parent
