-- ===== src/Codegen/Use/AddForType.antt =====
-- codegen/use.ts, `Use.addForType`: calls keep what the statements hold, and a second call of a type
-- does nothing.
use typespec_rust.Prelude.{
  Text, text, Bool, true, false, [], ◌∷◌, ◌++◌, ◌||◌, not, if◌then◌else◌, ◌≡◌,
}
use typespec_rust.Prelude.Result.{Result, ok, ◌>>=◌}
use typespec_rust.Codemodel.Crate.{ModuleContainer, same_module}
use typespec_rust.Codemodel.Types.{RustType}
use typespec_rust.Codegen.UseTree.Paths.{Distinct}
use typespec_rust.Codemodel.Types.RustType.{
  arc, async_response, bytes, client_method_options, decimal, discriminated_union, enum, enum_value,
  etag, external, hashmap, json_value, marker, model, offset_date_time, option, pager,
  pager_options, poller, poller_options, raw_response, ref, request_content, response, result,
  safeint, slice, token_credential, untagged_union, url, vec,
}
use typespec_rust.Codemodel.Types.{AsyncContent}
use typespec_rust.Codemodel.Objects.{Heap}
use typespec_rust.Codemodel.Kinds.{
  ModelId, EnumId, QualifiedType, PayloadFormatType, ModelPayloadFormatType,
}
use typespec_rust.Codegen.Use.{
  Use, Scope, add, add_generated, add_qualified, add_marker, add_format, add_model_format,
  add_content, add_enum, add_model, add_for_type, not_unions, not_models, is_clients, own_models,
}
use typespec_rust.Codegen.UseTree.Paths.{Distinct}
use typespec_rust.Utils.Imports.{build_import_path}
use typespec_rust.Codegen.Use.Extends.{
  Extends, Lawful, add-Lawful, ok-Lawful, throw-Lawful, bind-Lawful, choose-Lawful,
}

if-Lawful :
    (b : Bool) (f g : Use → Result Use) → Lawful f → Lawful g → Lawful (λ u. if b then f u else g u)
if-Lawful true f g ef eg = ef
if-Lawful false f g ef eg = eg

pub generated-Lawful : (b : Bool) (n : Text) (c : ModuleContainer) → Lawful (add_generated b n c)
unfolding add_generated
generated-Lawful b n c =
    choose-Lawful
      (λ s d u.
        if is_clients s || not (same_module d c)
        then add (build_import_path d c (text "crate") ++ text "::models") (n ∷ []) u
        else if b
        then add (text "super") (n ∷ []) u
        else ok u)
      λ s d.
        if-Lawful (is_clients s || not (same_module d c))
          (add (build_import_path d c (text "crate") ++ text "::models") (n ∷ []))
          (λ u. if b then add (text "super") (n ∷ []) u else ok u) (add-Lawful _ _)
          (if-Lawful b (add (text "super") (n ∷ [])) ok (add-Lawful _ _) ok-Lawful)

qualified-Lawful : (q : QualifiedType) → Lawful (add_qualified q)
unfolding add_qualified
qualified-Lawful q = add-Lawful q.path (q.name ∷ [])

marker-Lawful : (s : Scope) (n : Text) → Lawful (add_marker s n)
unfolding add_marker own_models
marker-Lawful Scope.clients n =
    choose-Lawful (λ s c. add (build_import_path c c (text "crate") ++ text "::models") (n ∷ []))
      (λ s c. add-Lawful _ _)
marker-Lawful Scope.models n = throw-Lawful _
marker-Lawful Scope.models_other n = add-Lawful _ _
marker-Lawful Scope.unions n = throw-Lawful _

format-Lawful : (f : PayloadFormatType) → Lawful (add_format f)
unfolding add_format
format-Lawful PayloadFormatType.json_format = ok-Lawful
format-Lawful f = add-Lawful _ _

pub model_format-Lawful : (f : ModelPayloadFormatType) → Lawful (add_model_format f)
unfolding add_model_format
model_format-Lawful ModelPayloadFormatType.json_format = ok-Lawful
model_format-Lawful ModelPayloadFormatType.xml_format = add-Lawful _ _

content-Lawful : (c : AsyncContent) → Lawful (add_content c)
unfolding add_content
content-Lawful (AsyncContent.marker m) =
    choose-Lawful (λ s c. add_marker s m.name) (λ s c. marker-Lawful s m.name)
content-Lawful AsyncContent.unit = ok-Lawful

enum-Lawful : (h : Heap) (e : EnumId) → Lawful (add_enum h e)
unfolding add_enum
enum-Lawful h e = generated-Lawful true _ _

model-Lawful : (h : Heap) (m : ModelId) → Lawful (add_model h m)
unfolding add_model
model-Lawful h m =
    choose-Lawful (λ s c. add_generated (not_models s) (h.models m).name (h.models m).container)
      (λ s c. generated-Lawful (not_models s) _ _)

add_for_type-Lawful : (h : Heap) (t : RustType) → Lawful (add_for_type h t)
unfolding add_for_type
add_for_type-Lawful h (arc q t) =
    bind-Lawful (add _ _) (add_qualified _) (add-Lawful _ _) (qualified-Lawful _)
add_for_type-Lawful h (async_response q c) =
    bind-Lawful (add_content c) (add_qualified q) (content-Lawful c) (qualified-Lawful q)
add_for_type-Lawful h (bytes q) = qualified-Lawful q
add_for_type-Lawful h (client_method_options o) = qualified-Lawful _
add_for_type-Lawful h (decimal d) = qualified-Lawful _
add_for_type-Lawful h (discriminated_union i) =
    choose-Lawful (λ s c. add_generated (not_unions s) (h.unions i).name (h.unions i).container)
      (λ s c. generated-Lawful (not_unions s) _ _)
add_for_type-Lawful h (enum e) = enum-Lawful h e
add_for_type-Lawful h (enum_value v) = enum-Lawful h v.type
add_for_type-Lawful h (etag q) = qualified-Lawful q
add_for_type-Lawful h (external e) = qualified-Lawful _
add_for_type-Lawful h (hashmap q t) =
    bind-Lawful (add_for_type h t) (add_qualified q) (add_for_type-Lawful h t) (qualified-Lawful q)
add_for_type-Lawful h (json_value q) = qualified-Lawful q
add_for_type-Lawful h (marker m) =
    choose-Lawful (λ s c. add_marker s m.name) (λ s c. marker-Lawful s m.name)
add_for_type-Lawful h (model m) = model-Lawful h m
add_for_type-Lawful h (offset_date_time o) = qualified-Lawful _
add_for_type-Lawful h (option t) = add_for_type-Lawful h t
add_for_type-Lawful h (pager q r c) =
    bind-Lawful (add_model_format r.format) (add_qualified q) (model_format-Lawful _)
      (qualified-Lawful q)
add_for_type-Lawful h (pager_options o) = qualified-Lawful _
add_for_type-Lawful h (poller q r s) = qualified-Lawful q
add_for_type-Lawful h (poller_options o) = qualified-Lawful _
add_for_type-Lawful h (raw_response q) = qualified-Lawful q
add_for_type-Lawful h (ref t l) = add_for_type-Lawful h t
add_for_type-Lawful h (request_content q t f) =
    bind-Lawful (add_format f) (λ v. add_for_type h t v >>= add_qualified q) (format-Lawful f)
      (bind-Lawful (add_for_type h t) (add_qualified q) (add_for_type-Lawful h t)
        (qualified-Lawful q))
add_for_type-Lawful h (response q t f) =
    bind-Lawful (add_format f) (λ v. add_for_type h t v >>= add_qualified q) (format-Lawful f)
      (bind-Lawful (add_for_type h t) (add_qualified q) (add_for_type-Lawful h t)
        (qualified-Lawful q))
add_for_type-Lawful h (result q t) =
    bind-Lawful (add_for_type h t) (add_qualified q) (add_for_type-Lawful h t) (qualified-Lawful q)
add_for_type-Lawful h (safeint s) = qualified-Lawful _
add_for_type-Lawful h (slice t) = add_for_type-Lawful h t
add_for_type-Lawful h (token_credential t) = qualified-Lawful _
add_for_type-Lawful h (untagged_union i) =
    choose-Lawful
      (λ s c.
        add_generated (not_unions s) (h.untagged_unions i).name (h.untagged_unions i).container)
      (λ s c. generated-Lawful (not_unions s) _ _)
add_for_type-Lawful h (url q) = qualified-Lawful q
add_for_type-Lawful h (vec t) = add_for_type-Lawful h t
add_for_type-Lawful h t = ok-Lawful

-- A successful `addForType` keeps every path that was held, the module and the scope, and keeps the
-- names of siblings different.
pub add_for_type-Extends :
    (h : Heap) (t : RustType) (u v : Use) → add_for_type h t u ≡ ok v → Extends u v
add_for_type-Extends h t = (add_for_type-Lawful h t).extending

-- After a successful `addForType` of a type, and any calls that keep what is there, a second one of
-- the same type succeeds and changes nothing.
pub add_for_type_idem :
    (h : Heap) (t : RustType) (u v w : Use)
    → add_for_type h t u ≡ ok v
    → Extends v w
    → Distinct w.trees
    → add_for_type h t w ≡ ok w
add_for_type_idem h t = (add_for_type-Lawful h t).stable
