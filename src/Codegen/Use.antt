-- ===== src/Codegen/Use.antt =====
-- codegen/use.ts, the class `Use`: the use statements of one emitted file.
pub mod Adds
pub mod Rendering
pub mod Extends
pub mod AddForType
pub mod Mentioned
pub mod Imports
pub mod RoundTrip
use typespec_rust.Prelude.{
  Text, text, Bool, true, false, List, [], ◌∷◌, ◌++◌, ◌||◌, not, if◌then◌else◌,
}
use typespec_rust.Prelude.Result.{Result, ok, err, throw, ◌>>=◌, ◌>>◌}
use typespec_rust.Codemodel.Crate.{ModuleContainer, same_module}
use typespec_rust.Codemodel.Kinds.{
  ModelId, EnumId, QualifiedType, MarkerType, PayloadFormatType, ModelPayloadFormatType,
}
use typespec_rust.Codemodel.Types.{RustType, AsyncContent}
use typespec_rust.Codemodel.Types.RustType.{
  arc, async_response, box, bytes, client_method_options, decimal, discriminated_union,
  encoded_bytes, enum, enum_value, etag, external, hashmap, impl_trait, json_value, literal, marker,
  model, offset_date_time, option, pager, pager_options, poller, poller_options, raw_response, ref,
  request_content, response, result, safeint, slice, str, struct, token_credential, unit,
  untagged_union, url, vec,
}
use typespec_rust.Codemodel.Objects.{Heap}
use typespec_rust.Codemodel.Client.{Client, ResponseHeadersTrait}
use typespec_rust.Utils.Imports.{build_import_path}
use typespec_rust.Codegen.Paths.{split_path}
use typespec_rust.Codegen.UseTree.{UseNodes, leaf, node, insert, sort_nodes, trees_text}

pub data Scope : Type 0 where
  clients models models_other unions : Scope

pub record Use : Type 0 where
  pub container : ModuleContainer
  pub trees : UseNodes
  pub scope : Scope

unfoldable pub new_use : ModuleContainer → Scope → Use
new_use container scope = record { container = container; trees = leaf; scope = scope }

-- The loop of `add`: a tree for the root of each path, and in it the rest of the path.
unfoldable pub add_types : Text → List Text → UseNodes → UseNodes
unfolding split_path insert
add_types path [] trees = trees
add_types path (t ∷ types) trees =
    add_types path types (insert (split_path path ++ split_path t) trees)

unfoldable pub add : Text → List Text → Use → Result Use
unfolding add_types
add path [] u = throw (text "types can't be empty")
add path (t ∷ types) u = ok (record u { trees = add_types path (t ∷ types) u.trees })

unfoldable pub is_clients : Scope → Bool
is_clients Scope.clients = true
is_clients s = false

-- `addForClientsOrCrossModule`, and the add to `super` that follows it where it was not that case.
unfoldable pub add_generated : Bool → Text → ModuleContainer → Use → Result Use
add_generated or_super name container u =
    if is_clients u.scope || not (same_module u.container container)
    then add (build_import_path u.container container (text "crate") ++ text "::models") (name ∷ [])
        u
    else if or_super
    then add (text "super") (name ∷ []) u
    else ok u

-- `this.scope !== 'unions'`, `this.scope !== 'models'`
unfoldable pub not_unions : Scope → Bool
not_unions Scope.unions = false
not_unions s = true

unfoldable pub not_models : Scope → Bool
not_models Scope.models = false
not_models s = true

-- The path to the models of the file's own module.
unfoldable pub own_models : Use → Text
own_models u = build_import_path u.container u.container (text "crate") ++ text "::models"

unfoldable pub add_marker : Scope → Text → Use → Result Use
add_marker Scope.clients name u = add (own_models u) (name ∷ []) u
add_marker Scope.models_other name u = add (text "super") (name ∷ []) u
add_marker Scope.models name u = throw (text "unexpected scope models")
add_marker Scope.unions name u = throw (text "unexpected scope unions")

unfoldable pub add_headers_trait : Scope → Text → Use → Result Use
add_headers_trait Scope.clients name u = add (own_models u) (name ∷ []) u
add_headers_trait Scope.unions name u = ok u
add_headers_trait s name u = add (text "super") (name ∷ []) u

unfoldable pub add_qualified : QualifiedType → Use → Result Use
add_qualified q = add q.path (q.name ∷ [])

-- The text of a payload format.
unfoldable pub format_name : PayloadFormatType → Text
format_name PayloadFormatType.binary_format = text "BinaryFormat"
format_name PayloadFormatType.json_format = text "JsonFormat"
format_name PayloadFormatType.no_format = text "NoFormat"
format_name PayloadFormatType.xml_format = text "XmlFormat"

-- JSON is the default, and is not brought into scope.
unfoldable pub add_format : PayloadFormatType → Use → Result Use
add_format PayloadFormatType.json_format u = ok u
add_format f u = add (text "azure_core::http") (format_name f ∷ []) u

unfoldable pub add_model_format : ModelPayloadFormatType → Use → Result Use
add_model_format ModelPayloadFormatType.json_format u = ok u
add_model_format ModelPayloadFormatType.xml_format u =
    add (text "azure_core::http") (text "XmlFormat" ∷ []) u

unfoldable pub add_content : AsyncContent → Use → Result Use
add_content (AsyncContent.marker m) u = add_marker u.scope m.name u
add_content AsyncContent.unit u = ok u

unfoldable pub add_enum : Heap → EnumId → Use → Result Use
add_enum h e u = add_generated true (h.enums e).name (h.enums e).container u

unfoldable pub add_model : Heap → ModelId → Use → Result Use
add_model h m u = add_generated (not_models u.scope) (h.models m).name (h.models m).container u

-- `addForType` on a type; what has a name and a path is added last.
unfoldable pub add_for_type : Heap → RustType → Use → Result Use
add_for_type h (arc q t) u = do
  v ← add (text "std::sync") (text "Arc" ∷ []) u
  add_qualified t.qualified v
add_for_type h (async_response q c) u = do v ← add_content c u; add_qualified q v
add_for_type h (bytes q) u = add_qualified q u
add_for_type h (client_method_options o) u = add_qualified o.qualified u
add_for_type h (decimal d) u = add_qualified d.qualified u
add_for_type h (discriminated_union i) u =
    add_generated (not_unions u.scope) (h.unions i).name (h.unions i).container u
add_for_type h (enum e) u = add_enum h e u
add_for_type h (enum_value v) u = add_enum h v.type u
add_for_type h (etag q) u = add_qualified q u
add_for_type h (external e) u = add_qualified e.qualified u
add_for_type h (hashmap q t) u = do v ← add_for_type h t u; add_qualified q v
add_for_type h (json_value q) u = add_qualified q u
add_for_type h (marker m) u = add_marker u.scope m.name u
add_for_type h (model m) u = add_model h m u
add_for_type h (offset_date_time o) u = add_qualified o.qualified u
add_for_type h (option t) u = add_for_type h t u
add_for_type h (pager q r c) u = do v ← add_model_format r.format u; add_qualified q v
add_for_type h (pager_options o) u = add_qualified o.qualified u
add_for_type h (poller q r s) u = add_qualified q u
add_for_type h (poller_options o) u = add_qualified o.qualified u
add_for_type h (raw_response q) u = add_qualified q u
add_for_type h (ref t l) u = add_for_type h t u
add_for_type h (request_content q t f) u = do
  v ← add_format f u
  w ← add_for_type h t v
  add_qualified q w
add_for_type h (response q t f) u = do v ← add_format f u; w ← add_for_type h t v; add_qualified q w
add_for_type h (result q t) u = do v ← add_for_type h t u; add_qualified q v
add_for_type h (safeint s) u = add_qualified s.qualified u
add_for_type h (slice t) u = add_for_type h t u
add_for_type h (token_credential t) u = add_qualified t.qualified u
add_for_type h (untagged_union i) u =
    add_generated (not_unions u.scope) (h.untagged_unions i).name (h.untagged_unions i).container u
add_for_type h (url q) u = add_qualified q u
add_for_type h (vec t) u = add_for_type h t u
add_for_type h t u = ok u

-- `addForType` on a client and on a trait for response headers.
unfoldable pub add_for_client : Client → Use → Result Use
add_for_client c u =
    add (build_import_path u.container c.container (text "crate") ++ text "::clients") (c.name ∷ [])
      u

unfoldable pub add_for_headers_trait : ResponseHeadersTrait → Use → Result Use
add_for_headers_trait t u = add_headers_trait u.scope t.name u

-- The text of the trees, and a blank line behind them; of no trees, the empty text.
unfoldable pub sorted_text : Text → UseNodes → Text
unfolding trees_text
sorted_text indent leaf = []
sorted_text indent (node n children rest) = trees_text indent (node n children rest) ++ text "\n"

-- `text` sorts the trees in place; the sorted trees stay.
unfoldable pub use_text : Text → Use → Text × Use
unfolding sort_nodes sorted_text
use_text indent u =
    (sorted_text indent (sort_nodes u.trees), record u { trees = sort_nodes u.trees })
