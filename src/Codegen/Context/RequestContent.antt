-- ===== src/Codegen/Context/RequestContent.antt =====
-- codegen/context.ts, `getTryFromForRequestContent`: its text and its use statements.
use typespec_rust.Prelude.{ℕ, Text, text, Option, none, some, [], ◌++◌, ◌≡◌, refl, ◌∙◌}
use typespec_rust.Prelude.Result.{ok}
use typespec_rust.Codemodel.Kinds.{ModelPayloadFormatType}
use typespec_rust.Codegen.Use.{Use, add_model_format}
use typespec_rust.Codegen.Use.Adds.{add_total}
use typespec_rust.Codegen.Use.AddForType.{model_format-Lawful}
use typespec_rust.Codegen.Declaration.{convert_response_format}
use typespec_rust.Codegen.Indentation.{calling}
use typespec_rust.Codegen.Context.TryFrom.{
  request_content_impl, try_from_with, format_module, format_type_declaration,
}
use typespec_rust.Codegen.Emission.{
  Sound, line-Sound, push-Sound, pop-Sound, pure-Sound, calling-Sound, freshly-Sound,
}
use typespec_rust.Codegen.Emission.Braces.{
  braces, brace_free, BraceFree, braces-empty, braces-through, using, ◌▸◌, add-Sound,
}

add_model_format-Sound :
    {P : Type 0} {n k : ℕ} (f : ModelPayloadFormatType)
    → Sound (using P) n k (calling (add_model_format f)) n k
unfolding add_model_format
add_model_format-Sound f =
    calling-Sound _ (add_model_format f)
      (λ u. let (v, s) = succeeds f u in (v, s, (model_format-Lawful f).extending u v s))
  where
    succeeds : (f : ModelPayloadFormatType) (u : Use) → (v : Use) × (add_model_format f u ≡ ok v)
    succeeds ModelPayloadFormatType.json_format u = (u, refl)
    succeeds ModelPayloadFormatType.xml_format u = add_total _ _ [] u

request_content_impl-Sound :
    {P : Type 0} {n k : ℕ} (d f m : Text)
    → (P → BraceFree d)
    → BraceFree f
    → BraceFree m
    → Sound (using P) n k (request_content_impl d f m) n k
unfolding request_content_impl braces
request_content_impl-Sound d f m pd pf pm = freshly-Sound _ _ (
    pure-Sound _ _
      (λ h. braces-through d _ _ (pd h) ∙ braces-through d _ _ (pd h) ∙ braces-through f _ _ pf)
    ▸ line-Sound _ _ (λ h. refl)
    ▸ line-Sound _ _ (λ h. braces-through d _ _ (pd h))
    ▸ push-Sound _
    ▸ line-Sound _ _ (λ h. braces-through m _ _ pm)
    ▸ pop-Sound _
    ▸ line-Sound _ _ (λ h. refl)
    ▸ pure-Sound _ _ (λ h. refl))

format_texts :
    (f : ModelPayloadFormatType)
    → BraceFree (format_type_declaration f) × BraceFree (format_module (convert_response_format f))
unfolding format_type_declaration format_module convert_response_format brace_free
format_texts ModelPayloadFormatType.json_format = (refl, refl)
format_texts ModelPayloadFormatType.xml_format = (refl, refl)

pub try_from_with-Sound :
    {P : Type 0} {n k : ℕ} (d : Text) (f : Option ModelPayloadFormatType)
    → (P → BraceFree d)
    → Sound (using P) n k (try_from_with d f) n k
unfolding try_from_with
try_from_with-Sound {k = k} d none p = pure-Sound _ [] (λ h. braces-empty k)
try_from_with-Sound d (some f) p =
    let m = format_module (convert_response_format f) in
    add_model_format-Sound f
    ▸ add-Sound (text "azure_core") (text "Result") []
    ▸ add-Sound (text "azure_core::http") (text "RequestContent") []
    ▸ add-Sound (text "azure_core") (m ++ (text "::to_" ++ m)) []
    ▸ request_content_impl-Sound d _ m p (format_texts f).0 (format_texts f).1
