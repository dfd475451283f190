-- ===== src/Tests/Fixtures.antt =====
-- A crate with one sub-module, and two models whose fields refer to each other.
use typespec_rust.Prelude.{ℕ, zero, suc, Text, text, false, none, [], ◌∷◌}
use typespec_rust.Codemodel.Kinds.{Docs, public, QualifiedType, PayloadFormatType, string}
use typespec_rust.Codemodel.Crate.{ModuleContainer, crate, sub_module}
use typespec_rust.Codemodel.Types.{RustType}
use typespec_rust.Codemodel.Types.RustType.{model, option, vec, request_content, hashmap, str}
use typespec_rust.Codemodel.Objects.{Enum, Heap, Model, ModelFieldType, model_field}
use typespec_rust.Codemodel.Parameters.{MethodParameter, method, body}
use typespec_rust.Codemodel.Client.{
  HttpMethodBase, Client, MethodType, get, async, AsyncReturn, Module, node, nil,
}

abbrev pub no_docs : Docs
no_docs = record { summary = none; description = none }

abbrev pub root : ModuleContainer
root = crate 0 (text "pets")

abbrev pub nested : ModuleContainer
nested = sub_module 1 (text "store") root

abbrev pub field : Text → RustType → ModelFieldType
field name type = model_field (record {
  base = record {
    name = name;
    docs = no_docs;
    visibility = public;
    type = type;
    default_value = none;
    default_value_constant = none;
  };
  serde = name;
  flags = 0;
  optional = false;
  customizations = [];
  xml_kind = none;
})

abbrev pub pet : Model
pet = record {
  name = text "Pet";
  docs = no_docs;
  visibility = public;
  lifetime = none;
  fields = field (text "owner") (option (model 1)) ∷ field (text "names") (vec str) ∷ [];
  flags = 0;
  container = root;
  xml_name = none;
}

abbrev pub owner : Model
owner = record {
  name = text "Owner";
  docs = no_docs;
  visibility = public;
  lifetime = none;
  fields = field (text "pets") (vec (model 0)) ∷ [];
  flags = 0;
  container = nested;
  xml_name = none;
}

abbrev pub heap_models : ℕ → Model
heap_models zero = pet
heap_models (suc m) = owner

abbrev pub color : Enum
color = record {
  name = text "Color";
  docs = no_docs;
  visibility = public;
  values = [];
  extensible = false;
  type = string;
  container = root;
}

abbrev pub heap : Heap
heap = record {
  models = heap_models;
  enums = λ e. color;
  unions = λ i. record {
    name = text "Shape";
    docs = no_docs;
    visibility = public;
    members = [];
    discriminant = text "kind";
    union_kind = none;
    container = root;
  };
  untagged_unions = λ i. record {
    name = text "Either";
    docs = no_docs;
    visibility = public;
    variants = [];
    container = root;
  };
  structs = λ s. record {
    name = text "Options";
    docs = no_docs;
    visibility = public;
    lifetime = none;
    fields = [];
  };
}

abbrev pub hash_map : QualifiedType
hash_map = record { name = text "HashMap"; path = text "std::collections" }

abbrev pub response_path : QualifiedType
response_path = record { name = text "Response"; path = text "azure_core::http" }

abbrev pub content_path : QualifiedType
content_path = record { name = text "RequestContent"; path = text "azure_core::http" }

-- RequestContent<Pet, XmlFormat>
abbrev pub pet_content : RustType
pet_content = request_content content_path (model 0) PayloadFormatType.xml_format

-- HashMap<String, Option<Owner>>
abbrev pub owners : RustType
owners = hashmap hash_map (option (model 1))

-- A body parameter of a name.
abbrev pub parameter : Text → MethodParameter
parameter name = body (record {
  base = record {
    name = name;
    docs = no_docs;
    is_mut = false;
    min_length = none;
    location = method;
    optional = false;
    group = none;
  };
  type = record {
    qualified = content_path;
    content = model 0;
    format = PayloadFormatType.xml_format;
  };
})

abbrev pub send_base : HttpMethodBase
send_base = record {
  name = text "send";
  language_independent_name = text "send";
  docs = no_docs;
  visibility = public;
  impl = text "PetClient";
  self_mut = false;
  self_ref = false;
  params = parameter (text "pet") ∷ [];
  options = record { name = text "options"; docs = no_docs; type = 0 };
  status_codes = 200 ∷ [];
  response_headers = none;
  http_method = get;
  http_path = text "/";
}

abbrev pub send_pet : MethodType
send_pet = async (record {
  base = send_base;
  returns = AsyncReturn.response response_path (model 1) PayloadFormatType.xml_format;
})

abbrev pub pet_client : Client
pet_client = record {
  name = text "PetClient";
  docs = no_docs;
  language_independent_name = text "PetClient";
  constructable = none;
  endpoint = record {
    name = text "endpoint";
    docs = no_docs;
    visibility = public;
    type = str;
    default_value = none;
    default_value_constant = none;
  };
  fields = [];
  methods = send_pet ∷ [];
  container = root;
  parent = none;
}

abbrev pub pets_module : Module
pets_module =
    node root (record { clients = pet_client ∷ []; enums = []; models = []; unions = [] }) nil
