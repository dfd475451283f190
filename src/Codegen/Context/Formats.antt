-- ===== src/Codegen/Context/Formats.antt =====
-- codegen/context.ts: `recursiveAddBodyFormat`, which marks a model and the models of its fields with
-- a wire format.
use typespec_rust.Prelude.{
  ℕ, zero, suc, text, Bool, true, false, Option, none, some, List, [], ◌∷◌, ◌++◌, eqb,
  if◌then◌else◌,
}
use typespec_rust.Prelude.Result.{CodegenError, internal_error}
use typespec_rust.Codemodel.Kinds.{ModelId}
use typespec_rust.Codemodel.Types.{RustType}
use typespec_rust.Codemodel.Types.RustType.{model}
use typespec_rust.Codemodel.Objects.{Heap, ModelFieldType, field_base}
use typespec_rust.Codegen.Declaration.{ModelFormat, json, xml, unwrap_type}

-- A computation on fuel that may throw.
pub data Outcome {ℓ} (A : Type ℓ) : Type ℓ where
  done : A → Outcome A
  failed : CodegenError → Outcome A
  out_of_fuel : Outcome A

infixl 5 ◌>>=◌
abbrev pub ◌>>=◌ {ℓ κ} : {A : Type ℓ} {B : Type κ} → Outcome A → (A → Outcome B) → Outcome B
done a >>= f = f a
failed e >>= f = failed e
out_of_fuel >>= f = out_of_fuel

-- `bodyFormatForModels`, a map by the identity of models
abbrev pub Formats : Type 0
Formats = List (ModelId × ModelFormat)

unfoldable pub format_of : ModelId → Formats → Option ModelFormat
format_of m [] = none
format_of m ((k, f) ∷ fs) = if eqb k m then some f else format_of m fs

unfoldable pub same_format : ModelFormat → ModelFormat → Bool
same_format json json = true
same_format xml xml = true
same_format f g = false

-- The model to mark, if the type is one under its wrappers.
unfoldable pub as_model : RustType → Option ModelId
as_model (model m) = some m
as_model t = none

abbrev pub model_of : RustType → Option ModelId
model_of t = as_model (unwrap_type t)

unfoldable pub conflict : Heap → ModelId → CodegenError
conflict h m = record {
  code = internal_error;
  message = text "found conflicting body formats for model " ++ (h.models m).name;
}

-- A model with a format is done, or in conflict; another goes on with the model's fields.
unfoldable pub mark :
    Heap
    → ModelFormat
    → (List ModelFieldType → Formats → Outcome Formats)
    → ModelId
    → Option ModelFormat
    → Formats
    → Outcome Formats
unfolding same_format conflict
mark h format fields m (some g) fs = if same_format g format then done fs else failed (conflict h m)
mark h format fields m none fs = fields (h.models m).fields ((m, format) ∷ fs)

unfoldable pub mark_type :
    Heap
    → ModelFormat
    → (List ModelFieldType → Formats → Outcome Formats)
    → Option ModelId
    → Formats
    → Outcome Formats
unfolding mark format_of
mark_type h format fields none fs = done fs
mark_type h format fields (some m) fs = mark h format fields m (format_of m fs) fs

-- The loop over the fields of a model, with the call for each.
unfoldable pub each_field :
    (RustType → Formats → Outcome Formats) → List ModelFieldType → Formats → Outcome Formats
each_field call [] fs = done fs
each_field call (f ∷ rest) fs = call (field_base f).type fs >>= λ gs. each_field call rest gs

unfoldable pub add_body_format : ℕ → Heap → ModelFormat → RustType → Formats → Outcome Formats
unfolding mark_type each_field as_model
add_body_format zero h format t fs = out_of_fuel
add_body_format (suc fuel) h format t fs =
    mark_type h format (each_field (add_body_format fuel h format)) (model_of t) fs
