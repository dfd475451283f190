-- ===== src/Codegen/Context/Consistent.antt =====
-- codegen/context.ts: in a finished context, formats are closed under what the fields of models reach.
use typespec_rust.Prelude.{
  ℕ, Option, none, some, List, [], ◌∷◌, ◌≡◌, refl, arith, Option-cases, inl, inr,
}
use mathlib.Core.Path.{subst, sym}
use typespec_rust.Codemodel.Kinds.{ModelId, ModelPayloadFormatType}
use typespec_rust.Codemodel.Types.{RustType}
use typespec_rust.Codemodel.Types.RustType.{model, enum, discriminated_union}
use typespec_rust.Codemodel.Objects.{Heap}
use typespec_rust.Codemodel.Parameters.{MethodParameter, body, partial_body}
use typespec_rust.Codemodel.Client.{
  Client, MethodType, AsyncReturn, Module, SubModules, nil, cons, node,
}
use typespec_rust.Codemodel.Types.{ResultType, no_result, with_result}
use typespec_rust.Codegen.Declaration.{ModelFormat, convert_response_format}
use typespec_rust.Codegen.Context.Formats.{
  Outcome, done, failed, out_of_fuel, ◌>>=◌, Formats, format_of, add_body_format,
}
use typespec_rust.Codegen.Context.Marking.{
  FieldsFormatted, FieldsFormatted-Marks, add_body_format-Marks,
}
use typespec_rust.Codegen.Context.Populate.{
  Context, empty_context, modeled, add_try_from, add_format, add_modeled, populate_content,
  populate_parameter, populate_parameters, populate_return, add_result_type, populate_method,
  populate_methods, populate_clients, recursive_populate, populate_sub_modules, new_context,
}

-- The models that the types of the fields of a model with a format reach have that format.
abbrev pub Consistent : Heap → Formats → Type 0
Consistent h fs =
    (m : ModelId) (g : ModelFormat)
    → format_of m fs ≡ some g
    → FieldsFormatted g fs (h.models m).fields

-- A call that succeeds keeps the formats consistent.
abbrev Keeping : Heap → (Context → Outcome Context) → Type 0
Keeping h f =
    (c d : Context)
    → f c ≡ done d
    → Consistent h c.body_format_for_models
    → Consistent h d.body_format_for_models

add-Consistent :
    (fuel : ℕ) (h : Heap) (format : ModelFormat) (t : RustType) (fs gs : Formats)
    → add_body_format fuel h format t fs ≡ done gs
    → Consistent h fs
    → Consistent h gs
add-Consistent fuel h format t fs gs e c m g k =
    let (marks, formatted) = add_body_format-Marks fuel h format t fs gs e in
    elim (Option-cases (format_of m fs)) [
      | inl absent ↦
          let (same, fields) = marks.fresh m g absent k in
          subst (λ f. FieldsFormatted f gs (h.models m).fields) (sym same) fields
      | inr (g', here) ↦
          let same : g' ≡ g = cc (marks.keeps m g' here) in
          FieldsFormatted-Marks h g format fs gs _ marks
            (c m g (subst (λ f. format_of m fs ≡ some f) same here))
    ]

done-Keeping : (h : Heap) → Keeping h done
done-Keeping h c d e k = let same : c ≡ d = ground arith in rw (← same) k

bind-Keeping :
    (h : Heap) (f g : Context → Outcome Context)
    → Keeping h f
    → Keeping h g
    → Keeping h (λ c. f c >>= g)
bind-Keeping h f g a b c d e k = go (f c) refl e
  where
    go :
        (o : Outcome Context) → f c ≡ o → (o >>= g) ≡ done d → Consistent h d.body_format_for_models
    go (done x) p q = b x d q (a c x p k)
    go (failed x) p q = cc
    go out_of_fuel p q = cc

-- A change beside the formats, before a call.
before-Keeping :
    (h : Heap) (change : Context → Context) (f : Context → Outcome Context)
    → ((c : Context) → (change c).body_format_for_models ≡ c.body_format_for_models)
    → Keeping h f
    → Keeping h (λ c. f (change c))
before-Keeping h change f same a c d e k = a (change c) d e (subst (Consistent h) (sym (same c)) k)

add_try_from-formats :
    (h : Heap) (t : RustType) (f : ModelPayloadFormatType) (c : Context)
    → (add_try_from h t f c).body_format_for_models ≡ c.body_format_for_models
unfolding add_try_from
add_try_from-formats h (enum e) f c = refl
add_try_from-formats h (model m) f c = refl
add_try_from-formats h (discriminated_union i) f c = refl
add_try_from-formats h t f c = refl

module _ (fuel : ℕ) (h : Heap) where
  format-Keeping : (t : RustType) (f : ModelPayloadFormatType) → Keeping h (add_format fuel h t f)
  unfolding add_format
  format-Keeping t f c d e k =
      go (add_body_format fuel h (convert_response_format f) t c.body_format_for_models) refl e
    where
      go :
          (o : Outcome Formats)
          → add_body_format fuel h (convert_response_format f) t c.body_format_for_models ≡ o
          → (o >>= λ fs. done (record c { body_format_for_models = fs })) ≡ done d
          → Consistent h d.body_format_for_models
      go (done fs) p q =
          let same : fs ≡ d.body_format_for_models = ground arith in
          rw (← same) (add-Consistent fuel h (convert_response_format f) t _ fs p k)
      go (failed x) p q = cc
      go out_of_fuel p q = cc

  modeled-Keeping :
      (t : RustType) (f : Option ModelPayloadFormatType) → Keeping h (add_modeled fuel h t f)
  unfolding add_modeled
  modeled-Keeping t none = done-Keeping h
  modeled-Keeping t (some f) = format-Keeping t f

  content-Keeping :
      (t : RustType) (f : Option ModelPayloadFormatType) → Keeping h (populate_content fuel h t f)
  unfolding populate_content
  content-Keeping t none = done-Keeping h
  content-Keeping t (some f) =
      before-Keeping h (add_try_from h t f) (add_format fuel h t f) (add_try_from-formats h t f)
        (format-Keeping t f)

  parameter-Keeping : (p : MethodParameter) → Keeping h (populate_parameter fuel h p)
  unfolding populate_parameter
  parameter-Keeping (body p) = content-Keeping _ _
  parameter-Keeping (partial_body p) = content-Keeping _ _
  parameter-Keeping p = done-Keeping h

  parameters-Keeping : (ps : List MethodParameter) → Keeping h (populate_parameters fuel h ps)
  unfolding populate_parameters
  parameters-Keeping [] = done-Keeping h
  parameters-Keeping (p ∷ ps) = bind-Keeping h _ _ (parameter-Keeping p) (parameters-Keeping ps)

  return-Keeping : (r : AsyncReturn) → Keeping h (populate_return fuel h r)
  unfolding populate_return
  return-Keeping (AsyncReturn.response q t f) = modeled-Keeping t (modeled f)
  return-Keeping (AsyncReturn.async_response q t) = done-Keeping h

  result-formats :
      (m : ModelId) (r : ResultType) (c : Context)
      → (add_result_type fuel h m r c).body_format_for_models ≡ c.body_format_for_models
  unfolding add_result_type
  result-formats m no_result c = refl
  result-formats m (with_result q t f) c = refl

  method-Keeping : (m : MethodType) → Keeping h (populate_method fuel h m)
  unfolding populate_method
  method-Keeping (MethodType.client_accessor a) = done-Keeping h
  method-Keeping (MethodType.async m) =
      bind-Keeping h _ _ (parameters-Keeping m.base.params) (return-Keeping m.returns)
  method-Keeping (MethodType.pageable m) =
      bind-Keeping h
        (λ c.
          populate_parameters fuel h m.base.params
            (record c { paged_response_types = m.returns.content ∷ c.paged_response_types }))
        (add_format fuel h (model m.returns.content) m.returns.format)
        (before-Keeping h _ _ (λ c. refl) (parameters-Keeping m.base.params)) (format-Keeping _ _)
  method-Keeping (MethodType.lro m) =
      before-Keeping h
        (λ c.
          add_result_type fuel h m.returns.content m.result_type
            (record c { lro_status_types = m.returns.content ∷ c.lro_status_types }))
        (populate_parameters fuel h m.base.params)
        (λ c. result-formats m.returns.content m.result_type _) (parameters-Keeping m.base.params)

  methods-Keeping : (ms : List MethodType) → Keeping h (populate_methods fuel h ms)
  unfolding populate_methods
  methods-Keeping [] = done-Keeping h
  methods-Keeping (m ∷ ms) = bind-Keeping h _ _ (method-Keeping m) (methods-Keeping ms)

  clients-Keeping : (ks : List Client) → Keeping h (populate_clients fuel h ks)
  unfolding populate_clients
  clients-Keeping [] = done-Keeping h
  clients-Keeping (k ∷ ks) = bind-Keeping h _ _ (methods-Keeping k.methods) (clients-Keeping ks)

  mutual
    unfolding recursive_populate

    module-Keeping : (m : Module) → Keeping h (recursive_populate fuel h m)
    module-Keeping (node i base subs) =
        bind-Keeping h _ _ (clients-Keeping base.clients) (sub_modules-Keeping subs)

    sub_modules-Keeping : (ms : SubModules) → Keeping h (populate_sub_modules fuel h ms)
    sub_modules-Keeping nil = done-Keeping h
    sub_modules-Keeping (cons m ms) = bind-Keeping h _ _ (module-Keeping m) (sub_modules-Keeping ms)

-- Where the constructor gives a context, the models that the types of the fields of a model with a
-- format reach have that format. What stands in a box is not reached.
pub new_context-Consistent :
    (fuel : ℕ) (h : Heap) (root : Module) (c : Context)
    → new_context fuel h root ≡ done c
    → Consistent h c.body_format_for_models
unfolding new_context
new_context-Consistent fuel h root c e =
    module-Keeping fuel h root empty_context c e (λ m g k. unfold format_of in cc)
