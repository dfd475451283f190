-- ===== src/Codegen/Enums/Sound.antt =====
-- codegen/enums.ts: the files of a module's enums are emitted without an error, and what they hold.
use typespec_rust.Prelude.{
  ℕ, Text, text, Bool, true, false, List, [], ◌∷◌, All, ◌≡◌, refl, ◌∙◌, if◌then◌else◌,
}
use typespec_rust.Prelude.Result.{Result, ok}
use typespec_rust.Codemodel.Kinds.{EnumId}
use typespec_rust.Codemodel.Crate.{ModuleContainer}
use typespec_rust.Codemodel.Types.RustType.{enum}
use typespec_rust.Codemodel.Objects.{Enum, Heap}
use typespec_rust.Codegen.Use.{Use, add_enum, add_generated}
use typespec_rust.Codegen.Use.Adds.{add_total}
use typespec_rust.Codegen.Use.AddForType.{generated-Lawful}
use typespec_rust.Codegen.Declaration.{get_type_declaration}
use typespec_rust.Codegen.Indentation.{Emit, calling, each}
use typespec_rust.Codegen.Context.Populate.{Context}
use typespec_rust.Codegen.Context.TryFrom.{get_try_from_for_request_content}
use typespec_rust.Codegen.Emission.{Sound, line-Sound, each-Sound, calling-Sound}
use typespec_rust.Codegen.Emission.Braces.{
  braces, braces-through, using, ◌▸◌, add-Sound, Nested, Sound-Nested,
}
use typespec_rust.Codegen.Context.RequestContent.{try_from_with-Sound}
use typespec_rust.Codegen.Enums.{enum_type, is_string}
use typespec_rust.Codegen.Enums.Nesting.{
  PlainEnum, opened-Sound, closed-Sound, emit_string_enum_impl_definitions-Sound,
}
use typespec_rust.Codegen.Enums.NumericNesting.{
  enum_type-BraceFree, emit_numeric_enum_impl_definitions-Sound,
}
use typespec_rust.Codegen.Enums.Impls.{emit_string_enum_impl_definitions}
use typespec_rust.Codegen.Enums.Numeric.{emit_numeric_enum_impl_definitions}
use typespec_rust.Codegen.Enums.Serde.{
  deserialize_body, serialize_body, deserialize_impl, serialize_impl, emit_enum_serde_definitions,
}
use typespec_rust.Codegen.Enums.Files.{emit_enum_impl_definitions, serde_text, impls_text}

deserialize_body-Sound :
    {P : Type 0} {n k : ℕ} (b : Bool) (e : Enum) → Sound (using P) n k (deserialize_body b e) n k
unfolding deserialize_body braces
deserialize_body-Sound true e = line-Sound _ _ (λ h. refl) ▸ line-Sound _ _ (λ h. refl)
deserialize_body-Sound false e =
    line-Sound _ _ (λ h. braces-through (enum_type e.type) _ _ (enum_type-BraceFree e.type))

serialize_body-Sound :
    {P : Type 0} {n k : ℕ} (b : Bool) (e : Enum) → Sound (using P) n k (serialize_body b e) n k
unfolding serialize_body braces
serialize_body-Sound true e = line-Sound _ _ (λ h. refl)
serialize_body-Sound false e =
    let f = enum_type-BraceFree e.type in
    line-Sound _ _
      (λ h. braces-through (enum_type e.type) _ _ f ∙ braces-through (enum_type e.type) _ _ f)

deserialize_impl-Sound :
    {P : Type 0} {n k : ℕ} (e : Enum)
    → (P → PlainEnum e)
    → Sound (using P) n k (deserialize_impl e) n k
unfolding deserialize_impl braces
deserialize_impl-Sound e p =
    opened-Sound _ (λ h. braces-through e.name _ _ (p h).name)
    ▸ line-Sound _ _ (λ h. refl)
    ▸ line-Sound _ _ (λ h. refl)
    ▸ line-Sound _ _ (λ h. refl)
    ▸ opened-Sound _ (λ h. refl)
    ▸ deserialize_body-Sound (is_string e.type) e
    ▸ closed-Sound _ (λ h. refl)
    ▸ closed-Sound _ (λ h. refl)

serialize_impl-Sound :
    {P : Type 0} {n k : ℕ} (e : Enum)
    → (P → PlainEnum e)
    → Sound (using P) n k (serialize_impl e) n k
unfolding serialize_impl braces
serialize_impl-Sound e p =
    opened-Sound _ (λ h. braces-through e.name _ _ (p h).name)
    ▸ line-Sound _ _ (λ h. refl)
    ▸ line-Sound _ _ (λ h. refl)
    ▸ line-Sound _ _ (λ h. refl)
    ▸ opened-Sound _ (λ h. refl)
    ▸ serialize_body-Sound (is_string e.type) e
    ▸ closed-Sound _ (λ h. refl)
    ▸ closed-Sound _ (λ h. refl)

abbrev Succeeds : Result Use → Type 0
Succeeds r = (v : Use) × (r ≡ ok v)

if-Succeeds :
    (b : Bool) (r s : Result Use) → Succeeds r → Succeeds s → Succeeds (if b then r else s)
if-Succeeds true r s a b = a
if-Succeeds false r s a b = b

add_generated-Succeeds :
    (b : Bool) (n : Text) (c : ModuleContainer) (u : Use) → Succeeds (add_generated b n c u)
unfolding add_generated
add_generated-Succeeds b n c u =
    if-Succeeds _ _ _ (add_total _ n [] u)
      (if-Succeeds b _ _ (add_total (text "super") n [] u) (u, refl))

add_enum-Sound :
    {P : Type 0} {n k : ℕ} (h : Heap) (e : EnumId)
    → Sound (using P) n k (calling (add_enum h e)) n k
unfolding add_enum
add_enum-Sound h e = calling-Sound _ (add_enum h e) (λ u.
    let c = (h.enums e).container in
    let (v, s) = add_generated-Succeeds true (h.enums e).name c u in
    (v, s, (generated-Lawful true (h.enums e).name c).extending u v s))

pub emit_enum_serde_definitions-Sound :
    {P : Type 0} {n k : ℕ} (h : Heap) (e : EnumId)
    → (P → PlainEnum (h.enums e))
    → Sound (using P) n k (emit_enum_serde_definitions h e) n k
unfolding emit_enum_serde_definitions
emit_enum_serde_definitions-Sound h e p =
    add_enum-Sound h e
    ▸ add-Sound (text "serde") (text "Deserialize")
        (text "Serialize" ∷ text "Serializer" ∷ text "Deserializer" ∷ [])
    ▸ deserialize_impl-Sound (h.enums e) p
    ▸ serialize_impl-Sound (h.enums e) p

pub emit_enum_impl_definitions-Sound :
    {P : Type 0} {n k : ℕ} (h : Heap) (e : EnumId)
    → (P → PlainEnum (h.enums e))
    → Sound (using P) n k (emit_enum_impl_definitions h e) n k
unfolding emit_enum_impl_definitions
emit_enum_impl_definitions-Sound {P} {n} {k} h e p =
    add_enum-Sound h e
    ▸ (elim (is_string (h.enums e).type)
        as (λ b.
          Sound (using P) n k
            (if b
              then emit_string_enum_impl_definitions (h.enums e)
              else emit_numeric_enum_impl_definitions (h.enums e))
            n k) [
              | true ↦ emit_string_enum_impl_definitions-Sound (h.enums e) p
              | false ↦ emit_numeric_enum_impl_definitions-Sound (h.enums e) p
            ])

pub get_try_from_for_request_content-Sound :
    {P : Type 0} {n k : ℕ} (h : Heap) (c : Context) (e : EnumId)
    → (P → PlainEnum (h.enums e))
    → Sound (using P) n k (get_try_from_for_request_content h c (enum e)) n k
unfolding get_try_from_for_request_content get_type_declaration
get_try_from_for_request_content-Sound h c e p =
    try_from_with-Sound (h.enums e).name _ (λ x. (p x).name)

-- A loop over the enums of a module.
each_enum-Sound :
    {P : Type 0} {n k : ℕ} (h : Heap) (f : EnumId → Emit Use Text)
    → ((e : EnumId) → (P → PlainEnum (h.enums e)) → Sound (using P) n k (f e) n k)
    → (es : List EnumId) → (P → All (λ e. PlainEnum (h.enums e)) es)
    → Sound (using P) n k (each f es) n k
unfolding each
each_enum-Sound h f g [] p = each-Sound _ f [] tt
each_enum-Sound h f g (e ∷ es) p = g e (λ c. (p c).0) ▸ each_enum-Sound h f g es (λ c. (p c).1)

abbrev pub PlainEnums : Heap → List EnumId → Type 0
PlainEnums h es = All (λ e. PlainEnum (h.enums e)) es

pub serde_text-Sound :
    {P : Type 0} {n k : ℕ} (h : Heap) (es : List EnumId)
    → (P → PlainEnums h es)
    → Sound (using P) n k (serde_text h es) n k
unfolding serde_text
serde_text-Sound h es p =
    each_enum-Sound h (emit_enum_serde_definitions h) (emit_enum_serde_definitions-Sound h) es p

pub impls_text-Sound :
    {P : Type 0} {n k : ℕ} (h : Heap) (c : Context) (es : List EnumId)
    → (P → PlainEnums h es)
    → Sound (using P) n k (impls_text h c es) n k
unfolding impls_text
impls_text-Sound h c es p =
    each_enum-Sound h (emit_enum_impl_definitions h) (emit_enum_impl_definitions-Sound h) es p
    ▸ each_enum-Sound h _ (get_try_from_for_request_content-Sound h c) es p

-- Where the names and values of a module's enums hold no braces, the trait implementations of these enums are emitted without an error, for any context, from every use statements, level and number of open braces; the indentation is as before, the use statements keep what they held, as many braces are open as before, and none is closed that was not opened.
pub impls_text-Nested :
    (h : Heap) (c : Context) (es : List EnumId) (u : Use) (n k : ℕ)
    → PlainEnums h es
    → Nested u n k (impls_text h c es u (record { level = n }))
impls_text-Nested h c es u n k p =
    Sound-Nested (impls_text h c es) u (impls_text-Sound h c es (λ x. p))
