-- ===== src/Tests/Blocks.antt =====
-- codegen/helpers.ts: blocks of the tests in packages/typespec-rust/test, and nested ones.
use typespec_rust.Prelude.{text, ◌≡◌, refl}
use typespec_rust.Prelude.Result.{ok}
use typespec_rust.Codegen.Indentation.{Renders, get}
use typespec_rust.Codegen.Blocks.{build_while, build_if_block}
use typespec_rust.Codegen.Blocks.Nesting.{
  Code, empty, line, if_else, while_loop, emit_code, layout, emit_code-Renders,
}

abbrev loop : Code
loop =
    while_loop (text "true")
      (if_else (text "done") (line (text "break;") empty) (line (text "step();") empty) empty) empty

emit_code-Renders_example : Renders {S = Unit {0}} (emit_code loop) (λ n. layout n loop)
emit_code-Renders_example = emit_code-Renders loop

loop_run :
    emit_code loop (tt {0}) (record { level = 0 })
    ≡ ok (
      text "while true {\n    if done {\n        break;\n    } else {\n        step();\n    }\n}\n",
      tt,
      record { level = 0 },
    )
unfolding emit_code get build_while build_if_block
loop_run = refl
