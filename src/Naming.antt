-- ===== src/Naming.antt =====
-- packages/typespec-rust/src/tcgcadapter/naming.ts, `getEscapedReservedName`.
pub mod Escaped
use typespec_rust.Prelude.{Text, text, Bool, List, [], ◌∷◌, ◌++◌, ◌||◌, if◌then◌else◌}
use typespec_rust.Codemodel.Crate.{includes}

-- `'fn' | 'param' | 'prop'`
pub data Suffix : Type 0 where
  fn param prop : Suffix

unfoldable pub suffix_text : Suffix → Text
suffix_text fn = text "fn"
suffix_text param = text "param"
suffix_text prop = text "prop"

abbrev pub strict_keywords : List Text
strict_keywords =
    text "as"
    ∷ text "async"
    ∷ text "await"
    ∷ text "break"
    ∷ text "const"
    ∷ text "continue"
    ∷ text "crate"
    ∷ text "dyn"
    ∷ text "else"
    ∷ text "enum"
    ∷ text "extern"
    ∷ text "false"
    ∷ text "fn"
    ∷ text "for"
    ∷ text "if"
    ∷ text "impl"
    ∷ text "in"
    ∷ text "let"
    ∷ text "loop"
    ∷ text "match"
    ∷ text "mod"
    ∷ text "move"
    ∷ text "mut"
    ∷ text "pub"
    ∷ text "ref"
    ∷ text "return"
    ∷ text "self"
    ∷ text "Self"
    ∷ text "static"
    ∷ text "struct"
    ∷ text "super"
    ∷ text "trait"
    ∷ text "true"
    ∷ text "type"
    ∷ text "unsafe"
    ∷ text "use"
    ∷ text "where"
    ∷ text "while"
    ∷ []

abbrev pub reserved_keywords : List Text
reserved_keywords =
    text "abstract"
    ∷ text "become"
    ∷ text "box"
    ∷ text "do"
    ∷ text "final"
    ∷ text "macro"
    ∷ text "override"
    ∷ text "priv"
    ∷ text "try"
    ∷ text "typeof"
    ∷ text "unsized"
    ∷ text "virtual"
    ∷ text "yield"
    ∷ []

abbrev pub weak_keywords : List Text
weak_keywords = text "macro_rules" ∷ text "union" ∷ text "'static" ∷ []

-- `reservedWords`
abbrev pub reserved_words : List Text
reserved_words = strict_keywords ++ (reserved_keywords ++ weak_keywords)

-- The name, or the name with the suffix; with no extra words the list is empty.
unfoldable pub get_escaped_reserved_name : Text → Suffix → List Text → Text
unfolding suffix_text
get_escaped_reserved_name name suffix extra_words =
    if includes reserved_words name || includes extra_words name
    then name ++ (text "_" ++ suffix_text suffix)
    else name
