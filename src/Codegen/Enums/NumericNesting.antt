-- ===== src/Codegen/Enums/NumericNesting.antt =====
-- codegen/enums.ts: the braces of the trait implementations of numeric enums nest.
use typespec_rust.Prelude.{
  ℕ, suc, Text, text, Bool, true, false, some, List, [], ◌∷◌, ◌++◌, All, ◌≡◌, refl, ◌∙◌, map,
}
use typespec_rust.Codemodel.Kinds.{EnumType, EnumValue}
use typespec_rust.Codemodel.Objects.{Enum}
use typespec_rust.Codegen.Use.{Use}
use typespec_rust.Codegen.Indentation.{Emit}
use typespec_rust.Codegen.Blocks.{MatchArm, returns_text}
use typespec_rust.Codegen.Emission.{Sound, line-Sound, push-Sound, pop-Sound, pure-Sound}
use typespec_rust.Codegen.Emission.Braces.{
  braces, brace_free, BraceFree, BraceFree-append, braces-through, using, ◌▸◌, add-Sound,
}
use typespec_rust.Codegen.Emission.Matches.{ArmSound, build_match-Sound, get-Sound}
use typespec_rust.Codegen.Enums.{enum_type, literal_text}
use typespec_rust.Codegen.Enums.Impls.{variant}
use typespec_rust.Codegen.Enums.Nesting.{PlainValue, PlainEnum, variant-BraceFree}
use typespec_rust.Codegen.Enums.Numeric.{
  arm, arm_if, match_function, try_from_rest, try_from_arm, try_from_error, lints, try_from_impl,
  from_arm, unknown_pattern, numeric_from_impl, display_arm, numeric_display_impl,
  emit_numeric_enum_impl_definitions,
}

pub enum_type-BraceFree : (t : EnumType) → BraceFree (enum_type t)
unfolding enum_type brace_free
enum_type-BraceFree EnumType.f32 = refl
enum_type-BraceFree EnumType.f64 = refl
enum_type-BraceFree EnumType.i32 = refl
enum_type-BraceFree EnumType.i64 = refl
enum_type-BraceFree EnumType.string = refl

-- An arm whose body is one line.
arm-ArmSound :
    {P : Type 0} {n k : ℕ} (p : Text) (b : Emit Use Text)
    → (P → BraceFree p)
    → Sound (using P) (suc n) (suc k) b (suc n) (suc k)
    → ArmSound P n k (arm p b)
unfolding returns_text
arm-ArmSound p b f h = record { pattern = f; no_return = refl; body = h }

-- The arms for the values, and others behind them.
value_arms-ArmSound :
    {P : Type 0} {n k : ℕ} (f : EnumValue → MatchArm Use) (vs : List EnumValue)
    (rest : List (MatchArm Use))
    → ((v : EnumValue) → (P → PlainValue v) → ArmSound P n k (f v))
    → (P → All PlainValue vs)
    → All (ArmSound P n k) rest
    → All (ArmSound P n k) (map f vs ++ rest)
value_arms-ArmSound f [] rest h p r = r
value_arms-ArmSound f (v ∷ vs) rest h p r =
    (h v (λ c. (p c).0), value_arms-ArmSound f vs rest h (λ c. (p c).1) r)

arm_if-ArmSound :
    {P : Type 0} {n k : ℕ} (b : Bool) (a : MatchArm Use)
    → ArmSound P n k a
    → All (ArmSound P n k) (arm_if b a)
unfolding arm_if
arm_if-ArmSound true a h = (h, tt)
arm_if-ArmSound false a h = tt

-- From inside of the implementation to its end.
match_function-Sound :
    {P : Type 0} {n k : ℕ} (declaration expr : Text) (arms : List (MatchArm Use))
    → (P → braces (suc k) declaration ≡ some (suc (suc k)))
    → (P → BraceFree expr)
    → All (ArmSound P (suc (suc n)) (suc (suc (suc k)))) arms
    → Sound (using P) n (suc k) (match_function declaration expr arms) n k
unfolding match_function braces
match_function-Sound declaration expr arms d e a =
    line-Sound _ declaration d
    ▸ push-Sound _
    ▸ get-Sound
    ▸ build_match-Sound expr arms e a
    ▸ pure-Sound _ (text "\n") (λ h. refl)
    ▸ pop-Sound _
    ▸ line-Sound _ (text "}\n") (λ h. refl)
    ▸ pure-Sound _ (text "}\n\n") (λ h. refl)

try_from_rest-Sound :
    {P : Type 0} {n k : ℕ} (b : Bool) (e : Enum)
    → (P → PlainEnum e)
    → Sound (using P) n k (try_from_rest b e) n k
unfolding try_from_rest braces
try_from_rest-Sound true e p = line-Sound _ _ (λ h. braces-through e.name _ _ (p h).name)
try_from_rest-Sound false e p =
    add-Sound (text "azure_core") (text "error::ErrorKind") []
    ▸ line-Sound _ _ (λ h. braces-through e.name _ _ (p h).name)

try_from_error-Sound :
    {P : Type 0} {n k : ℕ} (b : Bool) → Sound (using P) n k (try_from_error b) n k
unfolding try_from_error braces
try_from_error-Sound true =
    add-Sound (text "std") (text "convert::Infallible") [] ▸ line-Sound _ _ (λ h. refl)
try_from_error-Sound false =
    add-Sound (text "azure_core::error") (text "Error") (text "ErrorKind" ∷ [])
    ▸ line-Sound _ _ (λ h. refl)

lints-BraceFree : (b : Bool) → BraceFree (lints b)
unfolding lints brace_free
lints-BraceFree true = refl
lints-BraceFree false = refl

try_from_arm-Sound :
    {P : Type 0} {n k : ℕ} (e : Enum)
    → (P → PlainEnum e)
    → (v : EnumValue) → (P → PlainValue v)
    → ArmSound P n k (try_from_arm e v)
unfolding try_from_arm braces
try_from_arm-Sound e p v q =
    arm-ArmSound (literal_text v.value) _ (λ h. (q h).1)
      (line-Sound _ _ (λ h. braces-through (variant e v) _ _ (variant-BraceFree e v (p h) (q h))))

try_from_impl-Sound :
    {P : Type 0} {n k : ℕ} (e : Enum)
    → (P → PlainEnum e)
    → Sound (using P) n k (try_from_impl e) n k
unfolding try_from_impl braces brace_free
try_from_impl-Sound e p =
    pure-Sound _ _ (λ h.
      braces-through (lints e.extensible) _ _ (lints-BraceFree e.extensible)
      ∙ braces-through (enum_type e.type) _ _ (enum_type-BraceFree e.type)
      ∙ braces-through e.name _ _ (p h).name)
    ▸ try_from_error-Sound e.extensible
    ▸ match_function-Sound _ (text "value") _
        (λ h. braces-through (enum_type e.type) _ _ (enum_type-BraceFree e.type)) (λ h. refl)
        (value_arms-ArmSound (try_from_arm e) e.values _ (try_from_arm-Sound e p)
          (λ h. (p h).values)
          (arm-ArmSound (text "_") _ (λ h. refl) (try_from_rest-Sound e.extensible e p), tt))

unknown_pattern-BraceFree : (e : Enum) → PlainEnum e → BraceFree (unknown_pattern e)
unfolding unknown_pattern brace_free
unknown_pattern-BraceFree e p = BraceFree-append e.name _ p.name refl

from_arm-Sound :
    {P : Type 0} {n k : ℕ} (e : Enum)
    → (P → PlainEnum e)
    → (v : EnumValue) → (P → PlainValue v)
    → ArmSound P n k (from_arm e v)
unfolding from_arm braces
from_arm-Sound e p v q =
    arm-ArmSound (variant e v) _ (λ h. variant-BraceFree e v (p h) (q h))
      (line-Sound _ _ (λ h. braces-through (literal_text v.value) _ _ (q h).1))

numeric_from_impl-Sound :
    {P : Type 0} {n k : ℕ} (e : Enum)
    → (P → PlainEnum e)
    → Sound (using P) n k (numeric_from_impl e) n k
unfolding numeric_from_impl braces brace_free
numeric_from_impl-Sound e p =
    pure-Sound _ _ (λ h.
      braces-through e.name _ _ (p h).name
      ∙ braces-through (enum_type e.type) _ _ (enum_type-BraceFree e.type))
    ▸ match_function-Sound _ (text "value") _ (λ h. braces-through e.name _ _ (p h).name)
        (λ h. refl)
        (value_arms-ArmSound (from_arm e) e.values _ (from_arm-Sound e p) (λ h. (p h).values)
          (arm_if-ArmSound e.extensible _ (
            arm-ArmSound (unknown_pattern e) _ (λ h. unknown_pattern-BraceFree e (p h))
              (line-Sound _ _ (λ h. refl)))))

display_arm-Sound :
    {P : Type 0} {n k : ℕ} (e : Enum)
    → (P → PlainEnum e)
    → (v : EnumValue) → (P → PlainValue v)
    → ArmSound P n k (display_arm e v)
unfolding display_arm braces
display_arm-Sound e p v q =
    arm-ArmSound (variant e v) _ (λ h. variant-BraceFree e v (p h) (q h))
      (line-Sound _ _ (λ h. braces-through (literal_text v.value) _ _ (q h).1))

numeric_display_impl-Sound :
    {P : Type 0} {n k : ℕ} (e : Enum)
    → (P → PlainEnum e)
    → Sound (using P) n k (numeric_display_impl e) n k
unfolding numeric_display_impl braces brace_free
numeric_display_impl-Sound e p =
    add-Sound (text "std::fmt") (text "Display") (text "Formatter" ∷ [])
    ▸ pure-Sound _ _ (λ h. braces-through e.name _ _ (p h).name)
    ▸ match_function-Sound _ (text "self") _ (λ h. refl) (λ h. refl)
        (value_arms-ArmSound (display_arm e) e.values _ (display_arm-Sound e p) (λ h. (p h).values)
          (arm_if-ArmSound e.extensible _ (
            arm-ArmSound (unknown_pattern e) _ (λ h. unknown_pattern-BraceFree e (p h))
              (line-Sound _ _ (λ h. refl)))))

pub emit_numeric_enum_impl_definitions-Sound :
    {P : Type 0} {n k : ℕ} (e : Enum)
    → (P → PlainEnum e)
    → Sound (using P) n k (emit_numeric_enum_impl_definitions e) n k
unfolding emit_numeric_enum_impl_definitions
emit_numeric_enum_impl_definitions-Sound e p =
    try_from_impl-Sound e p ▸ numeric_from_impl-Sound e p ▸ numeric_display_impl-Sound e p
