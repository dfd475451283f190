-- ===== src/Codegen/Context/Fuel.antt =====
-- codegen/context.ts, `recursiveAddBodyFormat`: the recursion ends, also where models refer to one
-- another in cycles.
use typespec_rust.Prelude.{
  ℕ, zero, suc, ◌+◌, ◌≤◌, ◌<◌, Option, none, some, List, [], ◌∷◌, eqb, eqb_iff, All, ◌≡◌, ◌≢◌, refl,
  arith, Bool-cases, Option-cases, inl, inr,
}
use typespec_rust.Codemodel.Kinds.{ModelId}
use typespec_rust.Codemodel.Types.{RustType}
use typespec_rust.Codemodel.Objects.{Heap, ModelFieldType, field_base}
use typespec_rust.Codegen.Declaration.{ModelFormat}
use typespec_rust.Codegen.Context.Formats.{
  Outcome, done, failed, out_of_fuel, ◌>>=◌, Formats, format_of, model_of, mark, mark_type,
  each_field, add_body_format,
}
use typespec_rust.Codegen.Context.Marking.{Marks, add_body_format-Marks}

-- One for each model below the bound that has no format.
unmarked : ℕ → Formats → ℕ
unmarked zero fs = 0
unmarked (suc n) fs = (elim (format_of n fs) [ none ↦ 1 | some g ↦ 0 ]) + unmarked n fs

unmarked-Marks :
    (h : Heap) (format : ModelFormat) (fs gs : Formats) (n : ℕ)
    → Marks h format fs gs
    → unmarked n gs ≤ unmarked n fs
unfolding unmarked
unmarked-Marks h format fs gs zero k = omega arith
unmarked-Marks h format fs gs (suc n) k = elim (Option-cases (format_of n fs)) [
  | inl absent ↦ ground (arith, unmarked-Marks h format fs gs n k)
  | inr (g, here) ↦ ground (arith, unmarked-Marks h format fs gs n k, k.keeps n g here)
]

unmarked-le :
    (m : ModelId) (format : ModelFormat) (fs : Formats) (n : ℕ)
    → unmarked n ((m, format) ∷ fs) ≤ unmarked n fs
unfolding unmarked format_of
unmarked-le m format fs zero = omega arith
unmarked-le m format fs (suc n) = ground (arith, unmarked-le m format fs n)

unmarked-mark :
    (m : ModelId) (format : ModelFormat) (fs : Formats) (n : ℕ)
    → m < n
    → format_of m fs ≡ none
    → unmarked n ((m, format) ∷ fs) < unmarked n fs
unfolding unmarked format_of
unmarked-mark m format fs zero lt e = absurd (omega arith)
unmarked-mark m format fs (suc n) lt e = elim (Bool-cases (eqb m n)) [
  | inl same ↦ let at : m ≡ n = (eqb_iff m n).0 same in ground (arith, unmarked-le m format fs n)
  | inr other ↦ ground (arith, unmarked-mark m format fs n, eqb_iff m n)
]

-- The model of a type, if it is one, is below the bound.
abbrev pub Bounded : ℕ → RustType → Type 0
Bounded n t = (m : ModelId) → model_of t ≡ some m → m < n

-- There are as many models as the bound says.
abbrev pub BoundedHeap : ℕ → Heap → Type 0
BoundedHeap n h = (m : ModelId) → All (λ f. Bounded n (field_base f).type) (h.models m).fields

bind-ends :
    (o : Outcome Formats) (f : Formats → Outcome Formats)
    → o ≢ out_of_fuel
    → ((ks : Formats) → o ≡ done ks → f ks ≢ out_of_fuel)
    → (o >>= f) ≢ out_of_fuel
bind-ends (done ks) f a b = b ks refl
bind-ends (failed e) f a b = λ k. cc
bind-ends out_of_fuel f a b = absurd (a refl)

module _ (n : ℕ) (h : Heap) (format : ModelFormat) where
  -- The call does not run out of fuel where fewer models than the bound are left.
  abbrev EndsBelow : ℕ → (RustType → Formats → Outcome Formats) → Type 0
  EndsBelow k call =
      (t : RustType) (fs : Formats) → Bounded n t → unmarked n fs < k → call t fs ≢ out_of_fuel

each_field-ends :
    (n : ℕ) (h : Heap) (format : ModelFormat) (fuel : ℕ)
    → EndsBelow n h format fuel (add_body_format fuel h format)
    → (l : List ModelFieldType) (fs : Formats) → All (λ f. Bounded n (field_base f).type) l
    → unmarked n fs < fuel
    → each_field (add_body_format fuel h format) l fs ≢ out_of_fuel
unfolding each_field
each_field-ends n h format fuel c [] fs b lt = λ k. cc
each_field-ends n h format fuel c (f ∷ l) fs b lt =
    bind-ends _ _ (c (field_base f).type fs b.0 lt) λ ks e.
      let (marks, formatted) = add_body_format-Marks fuel h format (field_base f).type fs ks e in
      each_field-ends n h format fuel c l ks b.1
        (omega (arith, unmarked-Marks h format fs ks n marks))

mark_type-ends :
    (n : ℕ) (h : Heap) (format : ModelFormat) (fuel : ℕ)
    → BoundedHeap n h
    → EndsBelow n h format fuel (add_body_format fuel h format)
    → (o : Option ModelId) (fs : Formats) → ((m : ModelId) → o ≡ some m → m < n)
    → unmarked n fs < suc fuel
    → mark_type h format (each_field (add_body_format fuel h format)) o fs ≢ out_of_fuel
unfolding mark_type mark
mark_type-ends n h format fuel bh c none fs b lt = λ k. cc
mark_type-ends n h format fuel bh c (some m) fs b lt = elim (Option-cases (format_of m fs)) [
  | inl absent ↦ rw absent (
      each_field-ends n h format fuel c (h.models m).fields ((m, format) ∷ fs) (bh m)
        (omega (arith, unmarked-mark m format fs n (b m refl) absent)))
  | inr (g, here) ↦ rw here (λ k. ground arith)
]

-- With fuel for each model without a format, and one more, `recursiveAddBodyFormat` ends.
add_body_format-ends :
    (fuel n : ℕ) (h : Heap) (format : ModelFormat) (t : RustType) (fs : Formats)
    → BoundedHeap n h
    → Bounded n t
    → unmarked n fs < fuel
    → add_body_format fuel h format t fs ≢ out_of_fuel
unfolding add_body_format
add_body_format-ends zero n h format t fs bh b lt = absurd (omega arith)
add_body_format-ends (suc fuel) n h format t fs bh b lt =
    mark_type-ends n h format fuel bh
      (λ t fs b lt. add_body_format-ends fuel n h format t fs bh b lt) (model_of t) fs b lt

unmarked-bound : (n : ℕ) (fs : Formats) → unmarked n fs ≤ n
unfolding unmarked
unmarked-bound zero fs = omega arith
unmarked-bound (suc n) fs = ground (arith, unmarked-bound n fs)

-- In a heap of `n` models, fuel `n + 1` is enough for every call: it gives a result or the error of a
-- conflict.
pub add_body_format_total :
    (n : ℕ) (h : Heap) (format : ModelFormat) (t : RustType) (fs : Formats)
    → BoundedHeap n h
    → Bounded n t
    → add_body_format (n + 1) h format t fs ≢ out_of_fuel
add_body_format_total n h format t fs bh b =
    add_body_format-ends (n + 1) n h format t fs bh b (omega (arith, unmarked-bound n fs))
