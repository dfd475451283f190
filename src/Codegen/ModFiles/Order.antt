-- ===== src/Codegen/ModFiles/Order.antt =====
-- codegen/mod.ts, `emitModelsModRs`: the order in which the modules were found does not matter.
use typespec_rust.Prelude.{Text, text, true, List, ◌++◌, join, ◌≡◌, ap}
use typespec_rust.Prelude.Sort.Texts.{SameTexts, sort_by_canonical}
use typespec_rust.Codegen.Visibility.{content_preamble}
use typespec_rust.Codegen.ModFiles.{lines, models_line, emit_models_mod_rs}

-- For the same modules in any order the file of the models has the same text.
pub emit_models_mod_rs_canonical :
    (ms ns : List Text) → SameTexts ms ns → emit_models_mod_rs ms ≡ emit_models_mod_rs ns
unfolding emit_models_mod_rs
emit_models_mod_rs_canonical ms ns same =
    ap
      (λ (sorted : List Text).
        content_preamble true ++ (join (text ";\n") (lines models_line sorted) ++ text ";\n"))
      (sort_by_canonical ms ns same)
