-- ===== src/Tests/Docs.antt =====
-- codegen/helpers.ts, `formatDocComment`, and utils/utils.ts, `comment`, at concrete inputs.
use typespec_rust.Prelude.{
  join, Text, text, true, false, none, some, List, [], ◌++◌, ◌≡◌, refl, arith,
}
use typespec_rust.Prelude.Spaces.{trim, split_spaces}
use typespec_rust.Codemodel.Kinds.{Docs}
use typespec_rust.Codegen.Docs.{comment, mark_breaks, slashes, repeated, format_doc_comment}
use typespec_rust.Codegen.Docs.Safe.{IsComment}
use typespec_rust.Codegen.Docs.Comment.{format_doc_comment-IsComment}
use typespec_rust.Codegen.Docs.Width.{Within, comment-Within}

abbrev two_parts : Docs
two_parts = record {
  summary = some (text "One.\n\nTwo.");
  description = some (text " * a list\n}");
}

split_docs :
    format_doc_comment two_parts false (text "Options: ") (text "    ")
    ≡ text "/// Options: One.\n    ///\n/// Two.\n    ///\n/// * a list\n/// }\n"
unfolding format_doc_comment
split_docs = refl

split_docs_attribute :
    format_doc_comment two_parts true [] (text "    ") ≡ text "One.\n\nTwo.\n    ///\n* a list\n}\n"
unfolding format_doc_comment
split_docs_attribute = refl

no_docs :
    format_doc_comment
      (record { summary = none; description = some [] })
      false
      (text "Options: ")
      []
    ≡ []
unfolding format_doc_comment
no_docs = refl

-- A line is full when it is longer than the maximum already.
full_lines : comment (text " a bc  d\n\ne ") slashes 0 5 ≡ text "/// a bc\n/// d\n/// e"
unfolding comment
full_lines = refl

format_doc_comment-IsComment_example :
    IsComment (format_doc_comment two_parts false (text "Options: ") (repeated 4 (text " ")))
format_doc_comment-IsComment_example = format_doc_comment-IsComment two_parts (text "Options: ") 4

abbrev content : Text
content = text "a bc\nd"

content_words : Within 2 (split_spaces (mark_breaks (trim content)))
unfolding split_spaces mark_breaks trim
content_words = ground arith

comment-Within_example :
    (ls : List Text) × (comment content (repeated 4 (text " ") ++ slashes) 0 5
      ≡ join (text "\n") ls)
    × Within 8 ls
comment-Within_example = comment-Within content 4 5 2 (omega arith) content_words
