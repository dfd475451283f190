-- ===== src/Codegen/Enums/Files.antt =====
-- codegen/enums.ts: `emitEnums` and the files that it gives.
use typespec_rust.Prelude.{Text, text, true, Option, none, some, List, [], ◌∷◌, ◌++◌, if◌then◌else◌}
use typespec_rust.Prelude.Result.{Result, ok, ◌>>=◌}
use typespec_rust.Codemodel.Kinds.{EnumId}
use typespec_rust.Codemodel.Crate.{ModuleContainer}
use typespec_rust.Codemodel.Types.RustType.{enum}
use typespec_rust.Codemodel.Objects.{Heap}
use typespec_rust.Codegen.Use.{Use, models_other, new_use, add_enum, use_text}
use typespec_rust.Codegen.Indentation.{Emit, Indentation, new_indentation, ◌+>◌, each, calling}
use typespec_rust.Codegen.Visibility.{internal, content_preamble}
use typespec_rust.Codegen.Module.{Module}
use typespec_rust.Codegen.Context.Populate.{Context}
use typespec_rust.Codegen.Context.TryFrom.{get_try_from_for_request_content}
use typespec_rust.Codegen.Enums.{is_string}
use typespec_rust.Codegen.Enums.Definitions.{emit_enum_definitions}
use typespec_rust.Codegen.Enums.Impls.{emit_string_enum_impl_definitions}
use typespec_rust.Codegen.Enums.Numeric.{emit_numeric_enum_impl_definitions}
use typespec_rust.Codegen.Enums.Serde.{emit_enum_serde_definitions}

unfoldable pub emit_enum_impl_definitions : Heap → EnumId → Emit Use Text
unfolding add_enum is_string emit_string_enum_impl_definitions emit_numeric_enum_impl_definitions
emit_enum_impl_definitions h e =
    calling (add_enum h e)
    +> (if is_string (h.enums e).type
        then emit_string_enum_impl_definitions (h.enums e)
        else emit_numeric_enum_impl_definitions (h.enums e))

-- The file of a text and the use statements that it needs.
unfoldable pub file_of : Text → Text × Use × Indentation → Module
unfolding use_text content_preamble
file_of name (body, u, i) = record {
  name = name;
  content = content_preamble true ++ ((use_text [] u).0 ++ body);
  visibility = internal;
}

-- A file that begins with a new `Use` and a new `indentation`.
unfoldable pub emit_file : Text → ModuleContainer → Emit Use Text → Result Module
unfolding new_use new_indentation file_of
emit_file name container body =
    body (new_use container models_other) new_indentation >>= λ r. ok (file_of name r)

-- The statements of `emitEnumsSerde` and `emitEnumsImpls` between the new objects and the content.
unfoldable pub serde_text : Heap → List EnumId → Emit Use Text
unfolding each emit_enum_serde_definitions
serde_text h es = each (emit_enum_serde_definitions h) es

unfoldable pub impls_text : Heap → Context → List EnumId → Emit Use Text
unfolding each emit_enum_impl_definitions get_try_from_for_request_content
impls_text h c es =
    each (emit_enum_impl_definitions h) es
    +> each (λ e. get_try_from_for_request_content h c (enum e)) es

unfoldable pub emit_enums_serde : Heap → ModuleContainer → List EnumId → Result Module
unfolding emit_file serde_text
emit_enums_serde h container es = emit_file (text "enums_serde") container (serde_text h es)

unfoldable pub emit_enums_impls : Heap → Context → ModuleContainer → List EnumId → Result Module
unfolding emit_file impls_text
emit_enums_impls h c container es = emit_file (text "enums_impl") container (impls_text h c es)

-- `Enums`
pub record Enums : Type 0 where
  pub definitions : Option Module
  pub serde : Option Module
  pub impls : Option Module

unfoldable pub emit_enums : Heap → Context → ModuleContainer → List EnumId → Result Enums
unfolding emit_enum_definitions emit_enums_serde emit_enums_impls
emit_enums h c container [] = ok (record { definitions = none; serde = none; impls = none })
emit_enums h c container (e ∷ es) = do
  d ← emit_enum_definitions h (e ∷ es)
  s ← emit_enums_serde h container (e ∷ es)
  i ← emit_enums_impls h c container (e ∷ es)
  ok (record { definitions = some d; serde = some s; impls = some i })
