-- ===== src/Codegen/Use/Mentioned.antt =====
-- codegen/use.ts, `Use.addForType`: the names in the declaration of a type that have to be in scope.
use typespec_rust.Prelude.{Text, text, Bool, List, [], ◌∷◌, ◌++◌, any}
use typespec_rust.Codemodel.Kinds.{PayloadFormatType, QualifiedType}
use typespec_rust.Codemodel.Crate.{ModuleContainer}
use typespec_rust.Utils.Imports.{build_import_path}
use typespec_rust.Codemodel.Types.{RustType, AsyncContent}
use typespec_rust.Codemodel.Types.RustType.{
  arc, async_response, box, bytes, client_method_options, decimal, discriminated_union, enum,
  enum_value, etag, external, hashmap, impl_trait, json_value, marker, model, offset_date_time,
  option, pager, pager_options, poller, poller_options, raw_response, ref, request_content,
  response, result, safeint, slice, struct, token_credential, untagged_union, url, vec,
}
use typespec_rust.Codemodel.Objects.{Heap}
use typespec_rust.Codegen.UseTree.Paths.{starts}
use typespec_rust.Codegen.Use.Adds.{full_path}

-- The item of a name in a module of Rust.
abbrev pub item : Text → Text → QualifiedType
item path name = record { name = name; path = path }

-- The item of a name among the models of another module, as seen from the first.
abbrev pub model_item : ModuleContainer → ModuleContainer → Text → QualifiedType
model_item c other name = item (build_import_path c other (text "crate") ++ text "::models") name

abbrev pub format_items : PayloadFormatType → List QualifiedType
format_items PayloadFormatType.json_format = []
format_items PayloadFormatType.binary_format =
    item (text "azure_core::http") (text "BinaryFormat") ∷ []
format_items PayloadFormatType.no_format = item (text "azure_core::http") (text "NoFormat") ∷ []
format_items PayloadFormatType.xml_format = item (text "azure_core::http") (text "XmlFormat") ∷ []

abbrev pub content_items : ModuleContainer → AsyncContent → List QualifiedType
content_items c (AsyncContent.marker m) = model_item c c m.name ∷ []
content_items c AsyncContent.unit = []

-- The items that the declaration of a type names and that have to be in scope in a client file of the
-- module, each with the path of its module.
abbrev pub mentioned : Heap → ModuleContainer → RustType → List QualifiedType
mentioned h c (arc q t) = item (text "std::sync") (text "Arc") ∷ t.qualified ∷ []
mentioned h c (async_response q a) = content_items c a ++ q ∷ []
mentioned h c (bytes q) = q ∷ []
mentioned h c (client_method_options o) = o.qualified ∷ []
mentioned h c (decimal d) = d.qualified ∷ []
mentioned h c (discriminated_union i) = model_item c (h.unions i).container (h.unions i).name ∷ []
mentioned h c (enum e) = model_item c (h.enums e).container (h.enums e).name ∷ []
mentioned h c (enum_value v) = model_item c (h.enums v.type).container (h.enums v.type).name ∷ []
mentioned h c (etag q) = q ∷ []
mentioned h c (external e) = e.qualified ∷ []
mentioned h c (hashmap q t) = mentioned h c t ++ q ∷ []
mentioned h c (json_value q) = q ∷ []
mentioned h c (marker m) = model_item c c m.name ∷ []
mentioned h c (model m) = model_item c (h.models m).container (h.models m).name ∷ []
mentioned h c (offset_date_time o) = o.qualified ∷ []
mentioned h c (option t) = mentioned h c t
mentioned h c (pager_options o) = o.qualified ∷ []
mentioned h c (poller_options o) = o.qualified ∷ []
mentioned h c (raw_response q) = q ∷ []
mentioned h c (ref t l) = mentioned h c t
mentioned h c (request_content q t f) = format_items f ++ (mentioned h c t ++ q ∷ [])
mentioned h c (response q t f) = format_items f ++ (mentioned h c t ++ q ∷ [])
mentioned h c (result q t) = mentioned h c t ++ q ∷ []
mentioned h c (safeint s) = s.qualified ∷ []
mentioned h c (slice t) = mentioned h c t
mentioned h c (token_credential t) = t.qualified ∷ []
mentioned h c (untagged_union i) =
    model_item c (h.untagged_unions i).container (h.untagged_unions i).name ∷ []
mentioned h c (url q) = q ∷ []
mentioned h c (vec t) = mentioned h c t
mentioned h c t = []

-- The path is that of one of the items, or the beginning of one.
abbrev pub leads_to : List QualifiedType → List Text → Bool
leads_to qs p = any (λ q. starts p (full_path q.path q.name)) qs

-- No part of the type is a box, a trait, a pager, a poller or a struct, whose parts `addForType` does
-- not visit.
abbrev pub Visited : RustType → Type 0
Visited (box t) = ⊥
Visited (impl_trait n t) = ⊥
Visited (pager q r c) = ⊥
Visited (poller q r s) = ⊥
Visited (struct s) = ⊥
Visited (hashmap q t) = Visited t
Visited (option t) = Visited t
Visited (ref t l) = Visited t
Visited (request_content q t f) = Visited t
Visited (response q t f) = Visited t
Visited (result q t) = Visited t
Visited (slice t) = Visited t
Visited (vec t) = Visited t
Visited t = Unit
