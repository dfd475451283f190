-- ===== src/Codegen/Enums/Definitions.antt =====
-- codegen/enums.ts: `emitEnumDefinitions` and `emitEnumPublicDefinitions`.
use typespec_rust.Prelude.{Text, text, true, false, ◌&&◌, List, [], ◌∷◌, ◌++◌, if◌then◌else◌, map}
use typespec_rust.Prelude.Result.{Result, ok, ◌>>=◌}
use typespec_rust.Codemodel.Kinds.{EnumId, EnumValue}
use typespec_rust.Codemodel.Objects.{Enum, Heap}
use typespec_rust.Codegen.Indentation.{
  Emit, pure, push, pop, ◌+>◌, line, silently, each, new_indentation,
}
use typespec_rust.Codegen.Docs.{format_doc_comment}
use typespec_rust.Codegen.Visibility.{
  ModuleVisibility, emit_visibility, content_preamble, update_all, new_tracker,
}
use typespec_rust.Codegen.Module.{Module}
use typespec_rust.Codegen.Enums.{enum_type, is_string}

-- The docs without the line break at the end.
unfoldable pub but_last : Text → Text
but_last [] = []
but_last (c ∷ []) = []
but_last (c ∷ d ∷ t) = c ∷ but_last (d ∷ t)

-- The doc comment of an item, if it has one.
unfoldable pub doc_lines : {S : Type 0} → Text → Emit S Text
unfolding line but_last
doc_lines [] = pure []
doc_lines (c ∷ docs) = line (but_last (c ∷ docs) ++ text "\n")

unfoldable pub variant_lines : {S : Type 0} → EnumValue → Emit S Text
unfolding doc_lines line format_doc_comment
variant_lines value =
    doc_lines (format_doc_comment value.docs false [] [])
    +> line (value.name ++ text ",\n")
    +> pure (text "\n")

-- The variant for all other values, behind the last value of an extensible enum.
unfoldable pub unknown_variant : {S : Type 0} → Enum → Emit S Text
unfolding line enum_type
unknown_variant e =
    line (text "/// Any other value not defined in `" ++ (e.name ++ text "`.\n"))
    +> line (text "UnknownValue(" ++ (enum_type e.type ++ text "),\n"))

-- The loop over the values.
unfoldable pub variants : {S : Type 0} → Enum → List EnumValue → Emit S Text
unfolding variant_lines unknown_variant
variants e [] = pure []
variants e (v ∷ []) = variant_lines v +> (if e.extensible then unknown_variant e else pure [])
variants e (v ∷ w ∷ vs) = variant_lines v +> variants e (w ∷ vs)

unfoldable pub emit_enum_public_definitions : {S : Type 0} → Enum → Emit S Text
unfolding doc_lines line variants emit_visibility is_string format_doc_comment push pop
emit_enum_public_definitions e =
    doc_lines (format_doc_comment e.docs false [] [])
    +> line (
        text "#[derive(Clone, "
        ++ ((if e.extensible && is_string e.type then [] else text "Copy, ")
            ++ text "Debug, Eq, PartialEq)]\n"))
    +> line (emit_visibility e.visibility ++ (text "enum " ++ (e.name ++ text " {\n")))
    +> silently push
    +> variants e e.values
    +> silently pop
    +> line (text "}\n\n")

-- The loop over the enums of a module.
unfoldable pub definitions_text : Heap → List EnumId → Emit (Unit {0}) Text
unfolding each emit_enum_public_definitions
definitions_text h es = each (λ e. emit_enum_public_definitions (h.enums e)) es

-- The visibility of the file: that of its most visible enum.
unfoldable pub enums_visibility : Heap → List EnumId → ModuleVisibility
unfolding update_all new_tracker
enums_visibility h es = (update_all (map (λ e. (h.enums e).visibility) es) new_tracker).visibility

unfoldable pub definitions_file : Heap → List EnumId → Text → Module
unfolding enums_visibility content_preamble
definitions_file h es body = record {
  name = text "enums";
  content = content_preamble true ++ body;
  visibility = enums_visibility h es;
}

unfoldable pub emit_enum_definitions : Heap → List EnumId → Result Module
unfolding definitions_text definitions_file new_indentation
emit_enum_definitions h es =
    definitions_text h es tt new_indentation >>= λ r. ok (definitions_file h es r.0)
