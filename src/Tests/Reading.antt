-- ===== src/Tests/Reading.antt =====
-- codegen/use.ts: use statements that are read back.
use typespec_rust.Prelude.{text, some, none, [], ◌∷◌, ◌==◌, ◌≡◌, refl, arith}
use typespec_rust.Codegen.UseTree.{UseNodes, leaf}
use typespec_rust.Codegen.UseTree.Canonical.{SamePaths}
use typespec_rust.Codegen.UseTree.Parsing.{parse_uses, behind, is_name}
use typespec_rust.Codegen.UseTree.RoundTrip.{PlainNodes, weight}
use typespec_rust.Codegen.Use.{Use, Scope, add_types, use_text}
use typespec_rust.Codegen.Use.RoundTrip.{parse_uses-use_text}
use typespec_rust.Tests.Fixtures.{root}

abbrev imported : UseNodes
imported =
    add_types (text "azure_core") (text "fmt::SafeDebug" ∷ text "Url" ∷ [])
      (add_types (text "serde") (text "Serialize" ∷ []) leaf)

abbrev imports : Use
imports = record { container = root; trees = imported; scope = Scope.models }

no_semicolon : parse_uses 9 (text "use serde::Serialize") ≡ none
unfolding parse_uses behind
no_semicolon = refl

imported-PlainNodes : PlainNodes imported
unfolding add_types is_name ◌==◌
imported-PlainNodes = ground arith

parse_uses-use_text_example :
    (ns : UseNodes) × (parse_uses 20 (use_text [] imports).0 ≡ some ns) × SamePaths ns imported
unfolding weight add_types ◌==◌
parse_uses-use_text_example = parse_uses-use_text imports 20 imported-PlainNodes (omega arith)
