-- ===== src/Codegen/Context/Populate.antt =====
-- codegen/context.ts: `recursivePopulate`, which fills the context, and the constructor.
use typespec_rust.Prelude.{ℕ, Text, Option, none, some, List, [], ◌∷◌}
use typespec_rust.Codemodel.Kinds.{ModelId, PayloadFormatType, ModelPayloadFormatType}
use typespec_rust.Codemodel.Types.{RustType, ResultType, no_result, with_result}
use typespec_rust.Codemodel.Types.RustType.{model, enum, discriminated_union}
use typespec_rust.Codemodel.Objects.{Heap}
use typespec_rust.Codemodel.Parameters.{MethodParameter, body, partial_body}
use typespec_rust.Codemodel.Client.{
  Client, MethodType, AsyncReturn, Module, SubModules, nil, cons, node,
}
use typespec_rust.Codegen.Declaration.{
  ModelFormat, json, default, get_type_declaration, convert_response_format,
}
use typespec_rust.Codegen.Context.Formats.{
  Outcome, done, ◌>>=◌, Formats, format_of, add_body_format,
}

pub record Context : Type 0 where
  pub body_format_for_models : Formats
  pub try_from_for_request_types : List (Text × ModelPayloadFormatType)
  pub paged_response_types : List ModelId
  pub lro_status_types : List ModelId
  pub lro_result_types : List (ModelId × RustType)

abbrev pub empty_context : Context
empty_context = record {
  body_format_for_models = [];
  try_from_for_request_types = [];
  paged_response_types = [];
  lro_status_types = [];
  lro_result_types = [];
}

-- The formats that are propagated: not `NoFormat`, not `BinaryFormat`.
unfoldable pub modeled : PayloadFormatType → Option ModelPayloadFormatType
modeled PayloadFormatType.json_format = some ModelPayloadFormatType.json_format
modeled PayloadFormatType.xml_format = some ModelPayloadFormatType.xml_format
modeled f = none

-- `tryFromForRequestTypes.set`, for an enum, a model or a discriminated union; the latest entry counts.
unfoldable pub add_try_from : Heap → RustType → ModelPayloadFormatType → Context → Context
add_try_from h (enum e) f c = record c {
  try_from_for_request_types =
      (get_type_declaration h (enum e) default, f) ∷ c.try_from_for_request_types;
}
add_try_from h (model m) f c = record c {
  try_from_for_request_types =
      (get_type_declaration h (model m) default, f) ∷ c.try_from_for_request_types;
}
add_try_from h (discriminated_union i) f c = record c {
  try_from_for_request_types =
      (get_type_declaration h (discriminated_union i) default, f) ∷ c.try_from_for_request_types;
}
add_try_from h t f c = c

module _ (fuel : ℕ) (h : Heap) where
  -- `recursiveAddBodyFormat` on the context
  unfoldable pub add_format : RustType → ModelPayloadFormatType → Context → Outcome Context
  add_format t f c =
      add_body_format fuel h (convert_response_format f) t c.body_format_for_models >>= λ fs.
      done (record c { body_format_for_models = fs })

  -- `recursiveAddBodyFormat` for a format that is propagated
  unfoldable pub add_modeled : RustType → Option ModelPayloadFormatType → Context → Outcome Context
  add_modeled t none c = done c
  add_modeled t (some f) c = add_format t f c

  -- The body of the loop over the parameters, for a request body.
  unfoldable pub populate_content :
      RustType → Option ModelPayloadFormatType → Context → Outcome Context
  populate_content t none c = done c
  populate_content t (some f) c = add_format t f (add_try_from h t f c)

  unfoldable pub populate_parameter : MethodParameter → Context → Outcome Context
  populate_parameter (body p) c = populate_content p.type.content (modeled p.type.format) c
  populate_parameter (partial_body p) c =
      populate_content (model p.type.content) (modeled p.type.format) c
  populate_parameter p c = done c

  unfoldable pub populate_parameters : List MethodParameter → Context → Outcome Context
  populate_parameters [] c = done c
  populate_parameters (p ∷ ps) c = populate_parameter p c >>= populate_parameters ps

  -- The last switch, on what an async method returns.
  unfoldable pub populate_return : AsyncReturn → Context → Outcome Context
  populate_return (AsyncReturn.response q t f) c = add_modeled t (modeled f) c
  populate_return (AsyncReturn.async_response q t) c = done c

  unfoldable pub add_result_type : ModelId → ResultType → Context → Context
  add_result_type m no_result c = c
  add_result_type m (with_result q t f) c = record c {
    lro_result_types = (m, t) ∷ c.lro_result_types;
  }

  unfoldable pub populate_method : MethodType → Context → Outcome Context
  populate_method (MethodType.client_accessor a) c = done c
  populate_method (MethodType.async m) c =
      populate_parameters m.base.params c >>= populate_return m.returns
  populate_method (MethodType.pageable m) c =
      populate_parameters m.base.params
        (record c { paged_response_types = m.returns.content ∷ c.paged_response_types })
      >>= add_format (model m.returns.content) m.returns.format
  populate_method (MethodType.lro m) c = populate_parameters m.base.params (
      add_result_type m.returns.content m.result_type
        (record c { lro_status_types = m.returns.content ∷ c.lro_status_types }))

  unfoldable pub populate_methods : List MethodType → Context → Outcome Context
  populate_methods [] c = done c
  populate_methods (m ∷ ms) c = populate_method m c >>= populate_methods ms

  unfoldable pub populate_clients : List Client → Context → Outcome Context
  populate_clients [] c = done c
  populate_clients (k ∷ ks) c = populate_methods k.methods c >>= populate_clients ks

  unfoldable mutual
    pub recursive_populate : Module → Context → Outcome Context
    recursive_populate (node i base subs) c =
        populate_clients base.clients c >>= populate_sub_modules subs

    pub populate_sub_modules : SubModules → Context → Outcome Context
    populate_sub_modules nil c = done c
    populate_sub_modules (cons m ms) c = recursive_populate m c >>= populate_sub_modules ms

  -- `new Context(crate)`
  unfoldable pub new_context : Module → Outcome Context
  new_context root = recursive_populate root empty_context

-- `getModelBodyFormat`; JSON where the model has no format.
unfoldable pub get_model_body_format : Context → ModelId → ModelFormat
get_model_body_format c m = elim (format_of m c.body_format_for_models) [ none ↦ json | some f ↦ f ]
