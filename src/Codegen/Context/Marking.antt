-- ===== src/Codegen/Context/Marking.antt =====
-- codegen/context.ts, `recursiveAddBodyFormat`: what a successful call has marked.
use typespec_rust.Prelude.{
  ℕ, zero, suc, true, Option, none, some, List, [], ◌∷◌, eqb, eqb_iff, All, if◌then◌else◌, ◌≡◌,
  refl, arith, Bool-cases, Option-cases, inl, inr, ◌∙◌, sym,
}
use mathlib.Core.Path.{subst}
use typespec_rust.Codemodel.Kinds.{ModelId}
use typespec_rust.Codemodel.Types.{RustType}
use typespec_rust.Codemodel.Types.RustType.{model}
use typespec_rust.Codemodel.Objects.{Heap, ModelFieldType, field_base}
use typespec_rust.Codegen.Declaration.{ModelFormat, json, xml}
use typespec_rust.Codegen.Declaration.Unwrapping.{Reaches, IsOpened, Reaches-unwrap_type}
use typespec_rust.Codegen.Context.Formats.{
  Outcome, done, failed, out_of_fuel, ◌>>=◌, Formats, format_of, same_format, as_model, model_of,
  conflict, mark, mark_type, each_field, add_body_format,
}

-- If the type reaches a model, the model has the format.
pub Formatted : ModelFormat → Formats → RustType → Type 0
Formatted format fs t = (m : ModelId) → Reaches t (model m) → format_of m fs ≡ some format

Reaches-model_of : (t : RustType) (m : ModelId) → Reaches t (model m) → model_of t ≡ some m
unfolding as_model
Reaches-model_of t m r = rw (Reaches-unwrap_type r (λ (o : IsOpened (model m)). o)) refl

abbrev pub FieldsFormatted : ModelFormat → Formats → List ModelFieldType → Type 0
FieldsFormatted format fs = All (λ f. Formatted format fs (field_base f).type)

-- From one map to a later one: nothing is lost, and each new model has the format, and so have the
-- models that the types of its fields reach.
pub record Marks (h : Heap) (format : ModelFormat) (fs gs : Formats) : Type 0 where
  pub keeps : (m : ModelId) (g : ModelFormat) → format_of m fs ≡ some g → format_of m gs ≡ some g
  pub fresh :
      (m : ModelId) (g : ModelFormat)
      → format_of m fs ≡ none
      → format_of m gs ≡ some g
      → (g ≡ format) × FieldsFormatted format gs (h.models m).fields

Formatted-Marks :
    (h : Heap) (format other : ModelFormat) (fs gs : Formats) (t : RustType)
    → Marks h other fs gs
    → Formatted format fs t
    → Formatted format gs t
unfolding Formatted
Formatted-Marks h format other fs gs t k f m e = k.keeps m format (f m e)

pub FieldsFormatted-Marks :
    (h : Heap) (format other : ModelFormat) (fs gs : Formats) (l : List ModelFieldType)
    → Marks h other fs gs
    → FieldsFormatted format fs l
    → FieldsFormatted format gs l
FieldsFormatted-Marks h format other fs gs [] k f = tt
FieldsFormatted-Marks h format other fs gs (x ∷ l) k f = (
  Formatted-Marks h format other fs gs _ k f.0,
  FieldsFormatted-Marks h format other fs gs l k f.1,
)

Marks-refl : (h : Heap) (format : ModelFormat) (fs : Formats) → Marks h format fs fs
Marks-refl h format fs = record { keeps = λ m g e. e; fresh = λ m g e k. cc }

Marks-trans :
    (h : Heap) (format : ModelFormat) (fs gs ks : Formats)
    → Marks h format fs gs
    → Marks h format gs ks
    → Marks h format fs ks
Marks-trans h format fs gs ks a b = record {
  keeps = λ m g e. b.keeps m g (a.keeps m g e);
  fresh = λ m g e k. elim (Option-cases (format_of m gs)) [
    | inl absent ↦ b.fresh m g absent k
    | inr (g', here) ↦
        let old = a.fresh m g' e here in
        let same : g' ≡ g = cc (b.keeps m g' here) in
        (sym same ∙ old.0, FieldsFormatted-Marks h format format gs ks _ b old.1)
  ];
}

-- What a call on a type is to do.
abbrev pub Correct : Heap → ModelFormat → (RustType → Formats → Outcome Formats) → Type 0
Correct h format call =
    (t : RustType) (fs gs : Formats)
    → call t fs ≡ done gs
    → Marks h format fs gs × Formatted format gs t

bind-done :
    (o : Outcome Formats) (f : Formats → Outcome Formats) (gs : Formats)
    → (o >>= f) ≡ done gs
    → (ks : Formats) × (o ≡ done ks) × (f ks ≡ done gs)
bind-done (done ks) f gs h = (ks, refl, h)
bind-done (failed e) f gs h = cc
bind-done out_of_fuel f gs h = cc

each_field-Correct :
    (h : Heap) (format : ModelFormat) (call : RustType → Formats → Outcome Formats)
    → Correct h format call
    → (l : List ModelFieldType) (fs gs : Formats) → each_field call l fs ≡ done gs
    → Marks h format fs gs × FieldsFormatted format gs l
unfolding each_field
each_field-Correct h format call c [] fs gs e =
    let same : fs ≡ gs = ground arith in (rw (← same) (Marks-refl h format fs), tt)
each_field-Correct h format call c (f ∷ l) fs gs e =
    let (ks, first, rest) = bind-done (call (field_base f).type fs) _ gs e in
    let now = c (field_base f).type fs ks first in
    let later = each_field-Correct h format call c l ks gs rest in
    (
      Marks-trans h format fs ks gs now.0 later.0,
      (Formatted-Marks h format format ks gs _ later.0 now.1, later.1),
    )

same_format_eq : (f g : ModelFormat) → same_format f g ≡ true → f ≡ g
unfolding same_format
same_format_eq json json e = refl
same_format_eq xml xml e = refl
same_format_eq f g e = cc

Marks-add :
    (h : Heap) (format : ModelFormat) (m : ModelId) (fs gs : Formats)
    → format_of m fs ≡ none
    → Marks h format ((m, format) ∷ fs) gs
    → FieldsFormatted format gs (h.models m).fields
    → Marks h format fs gs
unfolding format_of
Marks-add h format m fs gs absent k f = record {
  keeps = λ j g e. k.keeps j g (ground (arith, eqb_iff m j));
  fresh = λ j g e i. elim (Bool-cases (eqb m j)) [
    | inl same ↦
        let at : m ≡ j = (eqb_iff m j).0 same in
        let marked = k.keeps j format (rw same) in
        (cc, subst (λ x. FieldsFormatted format gs (h.models x).fields) at f)
    | inr other ↦ k.fresh j g (rw other e) i
  ];
}

mark-Correct :
    (h : Heap) (format : ModelFormat) (call : RustType → Formats → Outcome Formats)
    → Correct h format call
    → (m : ModelId) (fs gs : Formats)
    → mark h format (each_field call) m (format_of m fs) fs ≡ done gs
    → Marks h format fs gs × (format_of m gs ≡ some format)
unfolding mark
mark-Correct h format call c m fs gs e = elim (Option-cases (format_of m fs)) [
  | inl absent ↦
      let e' : each_field call (h.models m).fields ((m, format) ∷ fs) ≡ done gs = rw absent at e in
      let (marks, fields) = each_field-Correct h format call c _ _ gs e' in
      (Marks-add h format m fs gs absent marks fields, marks.keeps m format (first m format fs))
  | inr (g, here) ↦
      let e' : (if same_format g format then done fs else failed (conflict h m)) ≡ done gs =
        rw here at e in
      elim (Bool-cases (same_format g format)) [
        | inl same ↦
            let unchanged : fs ≡ gs = ground arith in
            (
              rw (← unchanged) (Marks-refl h format fs),
              rw (← unchanged, here, same_format_eq g format same),
            )
        | inr other ↦ absurd (ground arith)
      ]
]
  where
    first : (m : ModelId) (g : ModelFormat) (fs : Formats) → format_of m ((m, g) ∷ fs) ≡ some g
    first m g fs = unfold format_of in ground arith

mark_type-Correct :
    (h : Heap) (format : ModelFormat) (call : RustType → Formats → Outcome Formats)
    → Correct h format call
    → (o : Option ModelId) (fs gs : Formats) → mark_type h format (each_field call) o fs ≡ done gs
    → Marks h format fs gs × ((m : ModelId) → o ≡ some m → format_of m gs ≡ some format)
unfolding mark_type
mark_type-Correct h format call c none fs gs e =
    let same : fs ≡ gs = ground arith in (rw (← same) (Marks-refl h format fs), λ m k. cc)
mark_type-Correct h format call c (some m) fs gs e =
    let (marks, formatted) = mark-Correct h format call c m fs gs e in
    (marks, λ k o. let at : m ≡ k = cc in rw (← at) formatted)

add_body_format-Correct :
    (fuel : ℕ) (h : Heap) (format : ModelFormat) → Correct h format (add_body_format fuel h format)
unfolding add_body_format Formatted
add_body_format-Correct zero h format t fs gs e = cc
add_body_format-Correct (suc fuel) h format t fs gs e =
    let (marks, formatted) =
      mark_type-Correct h format (add_body_format fuel h format)
        (add_body_format-Correct fuel h format) (model_of t) fs gs e in
    (marks, λ m r. formatted m (Reaches-model_of t m r))

-- A successful `recursiveAddBodyFormat` loses no format, and gives its own to the model that the type
-- reaches, to each model that it adds and to the models that the types of the fields of these reach.
-- What stands in a box is not reached.
pub add_body_format-Marks :
    (fuel : ℕ) (h : Heap) (format : ModelFormat) (t : RustType) (fs gs : Formats)
    → add_body_format fuel h format t fs ≡ done gs
    → Marks h format fs gs × Formatted format gs t
add_body_format-Marks fuel h format = add_body_format-Correct fuel h format
