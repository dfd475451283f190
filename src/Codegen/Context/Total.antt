-- ===== src/Codegen/Context/Total.antt =====
-- codegen/context.ts: with fuel for all models of a crate, the constructor of `Context` always ends.
use typespec_rust.Prelude.{ℕ, ◌+◌, Option, none, some, List, [], ◌∷◌, All, ◌≢◌, refl}
use typespec_rust.Codemodel.Kinds.{ModelPayloadFormatType}
use typespec_rust.Codemodel.Types.{RustType}
use typespec_rust.Codemodel.Types.RustType.{model}
use typespec_rust.Codemodel.Objects.{Heap}
use typespec_rust.Codemodel.Parameters.{MethodParameter, body, partial_body}
use typespec_rust.Codemodel.Client.{
  Client, MethodType, AsyncReturn, Module, SubModules, nil, cons, node,
}
use typespec_rust.Codegen.Declaration.{convert_response_format}
use typespec_rust.Codegen.Context.Formats.{Outcome, done, failed, out_of_fuel, ◌>>=◌}
use typespec_rust.Codegen.Context.Fuel.{Bounded, BoundedHeap, add_body_format_total}
use typespec_rust.Codegen.Context.Populate.{
  Context, empty_context, modeled, add_try_from, add_format, add_modeled, populate_content,
  populate_parameter, populate_parameters, populate_return, populate_method, populate_methods,
  populate_clients, recursive_populate, populate_sub_modules, new_context,
}

-- The types that the constructor looks at are bounded: those of bodies and of results.
abbrev pub BoundedParameter : ℕ → MethodParameter → Type 0
BoundedParameter n (body p) = Bounded n p.type.content
BoundedParameter n (partial_body p) = Bounded n (model p.type.content)
BoundedParameter n p = Unit

abbrev pub BoundedReturn : ℕ → AsyncReturn → Type 0
BoundedReturn n (AsyncReturn.response q t f) = Bounded n t
BoundedReturn n (AsyncReturn.async_response q t) = Unit

abbrev pub BoundedMethod : ℕ → MethodType → Type 0
BoundedMethod n (MethodType.client_accessor a) = Unit
BoundedMethod n (MethodType.async m) =
    All (BoundedParameter n) m.base.params × BoundedReturn n m.returns
BoundedMethod n (MethodType.pageable m) =
    All (BoundedParameter n) m.base.params × Bounded n (model m.returns.content)
BoundedMethod n (MethodType.lro m) = All (BoundedParameter n) m.base.params

abbrev pub BoundedClients : ℕ → List Client → Type 0
BoundedClients n = All (λ k. All (BoundedMethod n) k.methods)

unfoldable mutual
  pub BoundedModule : ℕ → Module → Type 0
  BoundedModule n (node i base subs) = BoundedClients n base.clients × BoundedSubModules n subs

  pub BoundedSubModules : ℕ → SubModules → Type 0
  BoundedSubModules n nil = Unit
  BoundedSubModules n (cons m ms) = BoundedModule n m × BoundedSubModules n ms

-- The fuel never runs out.
abbrev Ends : (Context → Outcome Context) → Type 0
Ends f = (c : Context) → f c ≢ out_of_fuel

bind-Ends {ℓ} :
    {A : Type ℓ} (o : Outcome A) (g : A → Outcome Context)
    → o ≢ out_of_fuel
    → ((a : A) → g a ≢ out_of_fuel)
    → (o >>= g) ≢ out_of_fuel
bind-Ends (done a) g e k = k a
bind-Ends (failed x) g e k = λ h. cc
bind-Ends out_of_fuel g e k = absurd (e refl)

module _ (n : ℕ) (h : Heap) (bounded : BoundedHeap n h) where
  format-Ends :
      (t : RustType) (f : ModelPayloadFormatType) → Bounded n t → Ends (add_format (n + 1) h t f)
  unfolding add_format
  format-Ends t f b c =
      bind-Ends _ _
        (add_body_format_total n h (convert_response_format f) t c.body_format_for_models bounded b)
        (λ fs k. cc)

  modeled-Ends :
      (t : RustType) (f : Option ModelPayloadFormatType)
      → Bounded n t
      → Ends (add_modeled (n + 1) h t f)
  unfolding add_modeled
  modeled-Ends t none b c = λ k. cc
  modeled-Ends t (some f) b c = format-Ends t f b c

  content-Ends :
      (t : RustType) (f : Option ModelPayloadFormatType)
      → Bounded n t
      → Ends (populate_content (n + 1) h t f)
  unfolding populate_content
  content-Ends t none b c = λ k. cc
  content-Ends t (some f) b c = format-Ends t f b (add_try_from h t f c)

  parameter-Ends :
      (p : MethodParameter) → BoundedParameter n p → Ends (populate_parameter (n + 1) h p)
  unfolding populate_parameter
  parameter-Ends (body p) b = content-Ends _ _ b
  parameter-Ends (partial_body p) b = content-Ends _ _ b
  parameter-Ends p b = λ c k. cc

  parameters-Ends :
      (ps : List MethodParameter)
      → All (BoundedParameter n) ps
      → Ends (populate_parameters (n + 1) h ps)
  unfolding populate_parameters
  parameters-Ends [] b c = λ k. cc
  parameters-Ends (p ∷ ps) b c = bind-Ends _ _ (parameter-Ends p b.0 c) (parameters-Ends ps b.1)

  return-Ends : (r : AsyncReturn) → BoundedReturn n r → Ends (populate_return (n + 1) h r)
  unfolding populate_return
  return-Ends (AsyncReturn.response q t f) b c = modeled-Ends t (modeled f) b c
  return-Ends (AsyncReturn.async_response q t) b c = λ k. cc

  method-Ends : (m : MethodType) → BoundedMethod n m → Ends (populate_method (n + 1) h m)
  unfolding populate_method
  method-Ends (MethodType.client_accessor a) b c = λ k. cc
  method-Ends (MethodType.async m) b c =
      bind-Ends _ _ (parameters-Ends m.base.params b.0 c) (return-Ends m.returns b.1)
  method-Ends (MethodType.pageable m) b c =
      bind-Ends _ _ (parameters-Ends m.base.params b.0 _) (format-Ends _ _ b.1)
  method-Ends (MethodType.lro m) b c = parameters-Ends m.base.params b _

  methods-Ends :
      (ms : List MethodType) → All (BoundedMethod n) ms → Ends (populate_methods (n + 1) h ms)
  unfolding populate_methods
  methods-Ends [] b c = λ k. cc
  methods-Ends (m ∷ ms) b c = bind-Ends _ _ (method-Ends m b.0 c) (methods-Ends ms b.1)

  clients-Ends : (ks : List Client) → BoundedClients n ks → Ends (populate_clients (n + 1) h ks)
  unfolding populate_clients
  clients-Ends [] b c = λ k. cc
  clients-Ends (k ∷ ks) b c = bind-Ends _ _ (methods-Ends k.methods b.0 c) (clients-Ends ks b.1)

  mutual
    unfolding recursive_populate BoundedModule

    module-Ends : (m : Module) → BoundedModule n m → Ends (recursive_populate (n + 1) h m)
    module-Ends (node i base subs) b c =
        bind-Ends _ _ (clients-Ends base.clients b.0 c) (sub_modules-Ends subs b.1)

    sub_modules-Ends :
        (ms : SubModules) → BoundedSubModules n ms → Ends (populate_sub_modules (n + 1) h ms)
    sub_modules-Ends nil b c = λ k. cc
    sub_modules-Ends (cons m ms) b c = bind-Ends _ _ (module-Ends m b.0 c) (sub_modules-Ends ms b.1)

-- In a heap of `n` models, for a crate whose bodies and results name only these, fuel `n + 1` is enough for the constructor of `Context`: it gives a context or throws.
pub new_context_total :
    (n : ℕ) (h : Heap) (root : Module)
    → BoundedHeap n h
    → BoundedModule n root
    → new_context (n + 1) h root ≢ out_of_fuel
unfolding new_context
new_context_total n h root b m = module-Ends n h b root m empty_context
