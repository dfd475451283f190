-- ===== src/Codegen/Enums/Nesting.antt =====
-- codegen/enums.ts: the braces of the trait implementations of enums nest.
use typespec_rust.Prelude.{
  ℕ, suc, Text, text, Bool, true, false, some, List, [], ◌∷◌, ◌++◌, All, ◌≡◌, refl, if◌then◌else◌,
  ◌∙◌,
}
use typespec_rust.Codemodel.Kinds.{EnumValue}
use typespec_rust.Codemodel.Objects.{Enum}
use typespec_rust.Codegen.Use.{Use}
use typespec_rust.Codegen.Indentation.{Emit, each, pure}
use typespec_rust.Codegen.Emission.{
  Sound, line-Sound, push-Sound, pop-Sound, each-Sound, pure-Sound,
}
use typespec_rust.Codegen.Emission.Braces.{
  braces, BraceFree, BraceFree-append, brace_free, braces-empty, braces-through, using, ◌▸◌,
  add-Sound,
}
use typespec_rust.Codegen.Enums.{literal_text}
use typespec_rust.Codegen.Enums.Impls.{
  variant, opened, closed, closed_all, from_impl, unknown_error, from_str_error, from_str_rest,
  from_str_impl, if_extensible, as_ref_impl, display_text, display_impl, value_line, parse_line,
  display_line, emit_string_enum_impl_definitions,
}

-- Names and values without braces.
abbrev pub PlainValue : EnumValue → Type 0
PlainValue v = BraceFree v.name × BraceFree (literal_text v.value)

pub record PlainEnum (e : Enum) : Type 0 where
  pub name : BraceFree e.name
  pub values : All PlainValue e.values

pub opened-Sound :
    {P : Type 0} {n k l : ℕ} (t : Text)
    → (P → braces k t ≡ some l)
    → Sound (using P) n k (opened t) (suc n) l
unfolding opened
opened-Sound t c = line-Sound _ t c ▸ push-Sound _

pub closed-Sound :
    {P : Type 0} {n k l : ℕ} (t : Text)
    → (P → braces k t ≡ some l)
    → Sound (using P) (suc n) k (closed t) n l
unfolding closed
closed-Sound t c = pop-Sound _ ▸ line-Sound _ t c

closed_all-Sound :
    {P : Type 0} {n k : ℕ} (t : Text)
    → (P → braces (suc (suc (suc k))) t ≡ some (suc (suc k)))
    → Sound (using P) (suc (suc (suc n))) (suc (suc (suc k))) (closed_all t) n k
unfolding closed_all braces
closed_all-Sound t c =
    closed-Sound t c
    ▸ closed-Sound (text "}\n") (λ h. refl)
    ▸ closed-Sound (text "}\n\n") (λ h. refl)

pub variant-BraceFree :
    (e : Enum) (v : EnumValue) → PlainEnum e → PlainValue v → BraceFree (variant e v)
unfolding variant brace_free
variant-BraceFree e v p q = BraceFree-append e.name (text "::" ++ v.name) p.name q.0

-- A loop over the values.
each_value-Sound :
    {P : Type 0} {n k : ℕ} (f : EnumValue → Emit Use Text)
    → ((v : EnumValue) → (P → PlainValue v) → Sound (using P) n k (f v) n k)
    → (vs : List EnumValue) → (P → All PlainValue vs)
    → Sound (using P) n k (each f vs) n k
unfolding each
each_value-Sound {n} {k} f h [] a = each-Sound _ f [] tt
each_value-Sound f h (v ∷ vs) a = h v (λ c. (a c).0) ▸ each_value-Sound f h vs (λ c. (a c).1)

value_line-Sound :
    {P : Type 0} {n k : ℕ} (e : Enum)
    → (P → PlainEnum e)
    → (v : EnumValue) → (P → PlainValue v)
    → Sound (using P) n k (value_line e v) n k
unfolding value_line braces
value_line-Sound e p v q = line-Sound _ _ (λ h.
    braces-through (variant e v) _ _ (variant-BraceFree e v (p h) (q h))
    ∙ braces-through (literal_text v.value) _ _ (q h).1)

parse_line-Sound :
    {P : Type 0} {n k : ℕ} (e : Enum)
    → (P → PlainEnum e)
    → (v : EnumValue) → (P → PlainValue v)
    → Sound (using P) n k (parse_line e v) n k
unfolding parse_line braces
parse_line-Sound e p v q = line-Sound _ _ (λ h.
    braces-through (literal_text v.value) _ _ (q h).1
    ∙ braces-through (variant e v) _ _ (variant-BraceFree e v (p h) (q h)))

from_impl-Sound :
    {P : Type 0} {n k : ℕ} (e : Enum) → (P → PlainEnum e) → Sound (using P) n k (from_impl e) n k
unfolding from_impl braces
from_impl-Sound e p =
    add-Sound (text "std") (text "convert::From") []
    ▸ opened-Sound _ (λ h. braces-through e.name _ _ (p h).name)
    ▸ opened-Sound _ (λ h. braces-through e.name _ _ (p h).name)
    ▸ opened-Sound _ (λ h. refl)
    ▸ each_value-Sound (value_line e) (value_line-Sound e p) e.values (λ h. (p h).values)
    ▸ line-Sound _ _ (λ h. braces-through e.name _ _ (p h).name)
    ▸ closed_all-Sound (text "}\n") (λ h. refl)

unknown_error-Sound :
    {P : Type 0} {n k : ℕ} (e : Enum)
    → (P → PlainEnum e)
    → Sound (using P) n k (unknown_error e) n k
unfolding unknown_error braces
unknown_error-Sound e p =
    line-Sound _ _ (λ h. refl)
    ▸ push-Sound _
    ▸ pure-Sound _ _ (λ h. refl)
    ▸ push-Sound _
    ▸ pure-Sound _ _ (λ h. braces-through e.name _ _ (p h).name)
    ▸ pop-Sound _
    ▸ line-Sound _ _ (λ h. refl)
    ▸ pop-Sound _
    ▸ pure-Sound _ _ (λ h. refl)

from_str_error-Sound :
    {P : Type 0} {n k : ℕ} (b : Bool) → Sound (using P) n k (from_str_error b) n k
unfolding from_str_error braces
from_str_error-Sound true =
    add-Sound (text "std") (text "convert::Infallible") [] ▸ line-Sound _ _ (λ h. refl)
from_str_error-Sound false =
    add-Sound (text "azure_core::error") (text "Error") (text "ErrorKind" ∷ [])
    ▸ line-Sound _ _ (λ h. refl)

from_str_rest-Sound :
    {P : Type 0} {n k : ℕ} (b : Bool) (e : Enum)
    → (P → PlainEnum e)
    → Sound (using P) n k (from_str_rest b e) n k
unfolding from_str_rest braces
from_str_rest-Sound true e p = line-Sound _ _ (λ h. braces-through e.name _ _ (p h).name)
from_str_rest-Sound false e p = unknown_error-Sound e p

from_str_impl-Sound :
    {P : Type 0} {n k : ℕ} (e : Enum)
    → (P → PlainEnum e)
    → Sound (using P) n k (from_str_impl e) n k
unfolding from_str_impl braces
from_str_impl-Sound e p =
    add-Sound (text "std") (text "str::FromStr") []
    ▸ opened-Sound _ (λ h. braces-through e.name _ _ (p h).name)
    ▸ from_str_error-Sound e.extensible
    ▸ opened-Sound _ (λ h. refl)
    ▸ opened-Sound _ (λ h. refl)
    ▸ each_value-Sound (parse_line e) (parse_line-Sound e p) e.values (λ h. (p h).values)
    ▸ from_str_rest-Sound e.extensible e p
    ▸ closed_all-Sound (text "})\n") (λ h. refl)

if_extensible-Sound :
    {P : Type 0} {n k : ℕ} (b : Bool) (t : Text)
    → (P → braces k t ≡ some k)
    → Sound (using P) n k (if_extensible {S = Use} b t) n k
unfolding if_extensible braces
if_extensible-Sound true t c = line-Sound _ t c
if_extensible-Sound false t c = pure-Sound _ [] (λ h. refl)

as_ref_impl-Sound :
    {P : Type 0} {n k : ℕ} (e : Enum) → (P → PlainEnum e) → Sound (using P) n k (as_ref_impl e) n k
unfolding as_ref_impl braces
as_ref_impl-Sound e p =
    add-Sound (text "std") (text "convert::AsRef") []
    ▸ opened-Sound _ (λ h. braces-through e.name _ _ (p h).name)
    ▸ opened-Sound _ (λ h. refl)
    ▸ opened-Sound _ (λ h. refl)
    ▸ each_value-Sound (value_line e) (value_line-Sound e p) e.values (λ h. (p h).values)
    ▸ if_extensible-Sound e.extensible _ (λ h. braces-through e.name _ _ (p h).name)
    ▸ closed_all-Sound (text "}\n") (λ h. refl)

display_text-braces :
    (k : ℕ) (b : Bool) (v : EnumValue) → PlainValue v → braces k (display_text b v) ≡ some k
unfolding display_text braces
display_text-braces k true v q = braces-through (literal_text v.value) _ _ q.1
display_text-braces k false v q = braces-through (literal_text v.value) _ _ q.1

display_line-Sound :
    {P : Type 0} {n k : ℕ} (e : Enum)
    → (P → PlainEnum e)
    → (v : EnumValue) → (P → PlainValue v)
    → Sound (using P) n k (display_line e v) n k
unfolding display_line braces
display_line-Sound e p v q = line-Sound _ _ (λ h.
    braces-through (variant e v) _ _ (variant-BraceFree e v (p h) (q h))
    ∙ display_text-braces _ e.extensible v (q h))

display_impl-Sound :
    {P : Type 0} {n k : ℕ} (e : Enum) → (P → PlainEnum e) → Sound (using P) n k (display_impl e) n k
unfolding display_impl braces
display_impl-Sound {n} {k} e p =
    add-Sound (text "std::fmt") (text "Display") (text "Formatter" ∷ [])
    ▸ opened-Sound _ (λ h. braces-through e.name _ _ (p h).name)
    ▸ opened-Sound _ (λ h. refl)
    ▸ opened-Sound _ (λ h. refl)
    ▸ each_value-Sound (display_line e) (display_line-Sound e p) e.values (λ h. (p h).values)
    ▸ if_extensible-Sound e.extensible _ (λ h. braces-through e.name _ _ (p h).name)
    ▸ closed_all-Sound (text "}\n") (λ h. refl)

pub emit_string_enum_impl_definitions-Sound :
    {P : Type 0} {n k : ℕ} (e : Enum)
    → (P → PlainEnum e)
    → Sound (using P) n k (emit_string_enum_impl_definitions e) n k
unfolding emit_string_enum_impl_definitions
emit_string_enum_impl_definitions-Sound {P} {n} {k} e p =
    (elim e.extensible as (λ b. Sound (using P) n k (if b then from_impl e else pure []) n k) [
      | true ↦ from_impl-Sound e p
      | false ↦ pure-Sound _ [] (λ h. braces-empty k)
    ])
    ▸ from_str_impl-Sound e p
    ▸ as_ref_impl-Sound e p
    ▸ display_impl-Sound e p
