-- ===== src/Codegen/Manifest.antt =====
-- codegen/cargotoml.ts and codegen/lib.ts: Cargo.toml and lib.rs.
pub mod Features
pub mod Canonical
pub mod Order
use typespec_rust.Prelude.{Text, text, false, List, [], ◌∷◌, ◌++◌, join, map}
use typespec_rust.Prelude.Sort.{sort_by}
use typespec_rust.Codemodel.Crate.{Crate, CrateDependency}
use typespec_rust.Codemodel.Client.{SubModules, nil, cons, node}
use typespec_rust.Codemodel.Crate.{ModuleContainer, crate, sub_module}
use typespec_rust.Codegen.Visibility.{content_preamble}

quoted : Text → Text
quoted f = text "\"" ++ (f ++ text "\"")

-- The features, sorted, or nothing.
unfoldable pub features_text : List Text → Text
unfolding quoted sort_by join
features_text [] = []
features_text (f ∷ fs) =
    text ", features = [" ++ (join (text ", ") (map quoted (sort_by (λ t. t) (f ∷ fs))) ++ text "]")

unfoldable pub dependency_text : CrateDependency → Text
unfolding features_text
dependency_text d =
    d.name ++ (text " = { workspace = true" ++ (features_text d.features ++ text " }\n"))

unfoldable pub dependency_lines : List CrateDependency → Text
unfolding dependency_text
dependency_lines [] = []
dependency_lines (d ∷ ds) = dependency_text d ++ dependency_lines ds

unfoldable pub dependencies_text : List CrateDependency → Text
unfolding dependency_lines
dependencies_text [] = []
dependencies_text (d ∷ ds) = text "\n[dependencies]\n" ++ dependency_lines (d ∷ ds)

unfoldable pub emit_cargo_toml : Crate → Text
unfolding dependencies_text
emit_cargo_toml c =
    text "[package]\nname = \""
    ++ (c.name
        ++ (text "\"\nversion = \""
            ++ (c.version
                ++ (text "\"\n"
                    ++ (text "authors.workspace = true\n"
                        ++ (text "edition.workspace = true\n"
                            ++ (text "license.workspace = true\n"
                                ++ (text "repository.workspace = true\n"
                                    ++ (text "rust-version.workspace = true\n\n"
                                        ++ (text "[features]\n"
                                            ++ (text "default = [\"azure_core/default\"]\n"
                                                ++ dependencies_text c.dependencies)))))))))))

-- The name of a module.
unfoldable pub module_name : ModuleContainer → Text
module_name (crate i name) = name
module_name (sub_module i name parent) = name

-- `pub mod ...;` for each sub-module
unfoldable pub sub_module_lines : SubModules → Text
unfolding module_name
sub_module_lines nil = []
sub_module_lines (cons (node c base subs) rest) =
    text "pub mod " ++ (module_name c ++ (text ";\n" ++ sub_module_lines rest))

unfoldable pub emit_lib_rs : SubModules → Text
unfolding content_preamble sub_module_lines
emit_lib_rs subs =
    content_preamble false
    ++ (text "#![cfg_attr(docsrs, feature(doc_cfg))]\n"
        ++ (text "\n"
            ++ (text "mod generated;\n"
                ++ (text "pub use generated::*;\n" ++ sub_module_lines subs))))

-- codegen/codeGenerator.ts, `sortContent`: the sort of the crate's dependencies.
unfoldable pub sort_dependencies : List CrateDependency → List CrateDependency
unfolding sort_by
sort_dependencies ds = sort_by (λ d. d.name) ds
