-- ===== src/Tests/Files.antt =====
-- codegen/codeGenerator.ts at a crate with one sub-module.
use typespec_rust.Prelude.{Text, text, true, some, List, [], ◌∷◌, ◌++◌, ◌≡◌, ◌⊎◌, refl}
use mathlib.Core.List.{Mem}
use typespec_rust.Prelude.Result.{Result, ok}
use typespec_rust.Codemodel.Client.{ModuleBase, Module, nil, cons, node}
use typespec_rust.Codegen.Visibility.{pub_crate, content_preamble}
use typespec_rust.Codegen.Manifest.{sub_module_lines}
use typespec_rust.Codegen.Generator.{File, add_models_file, recursive_emit}
use typespec_rust.Codegen.Generator.Reached.{mod_rs, Below, Emits, recursive_emit-Emits}
use typespec_rust.Tests.Fixtures.{root, nested}

abbrev empty_base : ModuleBase
empty_base = record { clients = []; enums = []; models = []; unions = [] }

abbrev whole : Module
whole = node root empty_base (cons (node nested empty_base nil) nil)

abbrev one_file : Module → Text → Result (List File)
one_file m d = ok (record { name = d ++ text "one.rs"; content = [] } ∷ [])

whole_files :
    recursive_emit one_file whole []
    ≡ ok (
        record { name = text "one.rs"; content = [] }
        ∷ record { name = text "store/mod.rs"; content = content_preamble true }
        ∷ record { name = text "store/one.rs"; content = [] }
        ∷ [])
unfolding recursive_emit content_preamble sub_module_lines
whole_files = refl

recursive_emit-Emits_example :
    (files : List File) × (recursive_emit one_file whole (text "src/") ≡ ok files)
    × ((n : Module) (e : Text)
        → Below whole (text "src/") n e
        → Emits one_file n e files × (((whole ≡ n) × (text "src/" ≡ e)) ⊎ Mem (mod_rs n e) files))
recursive_emit-Emits_example =
    recursive_emit-Emits one_file whole (text "src/") (λ n e k. (_, refl))

models_lines :
    (add_models_file []
      (some (record { name = text "enums"; content = []; visibility = pub_crate }))
      (record { files = []; mod_lines = [] })).mod_lines
    ≡ text "pub(crate) mod enums" ∷ text "pub(crate) use enums::*" ∷ []
unfolding add_models_file
models_lines = refl
