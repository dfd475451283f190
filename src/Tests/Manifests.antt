-- ===== src/Tests/Manifests.antt =====
-- codemodel/crate.ts, types.ts, codegen/cargotoml.ts, mod.ts, helpers.ts and tcgcadapter/naming.ts at
-- the inputs of the tests in packages/typespec-rust/test, and at others.
use typespec_rust.Prelude.{
  Text, text, true, false, List, [], ◌∷◌, ◌||◌, ◌&&◌, ◌==◌, ==_iff, any, ◌≡◌, refl, arith,
}
use typespec_rust.Prelude.Order.{less}
use typespec_rust.Prelude.Sort.Texts.{SameTexts, occurrences}
use typespec_rust.Naming.{param, suffix_text, reserved_words, get_escaped_reserved_name}
use typespec_rust.Naming.Escaped.{ends_in, Free, get_escaped_reserved_name-Free}
use typespec_rust.Codemodel.Kinds.{Visibility, public, pub_crate}
use typespec_rust.Codemodel.Crate.{
  Crate, CrateDependency, data_plane, add_dependency, includes, new_crate,
}
use typespec_rust.Codemodel.Crate.Features.{
  requires, depends_on, requires-add_dependency, add_dependency_idem,
}
use typespec_rust.Codemodel.Crate.Names.{UniqueNames, add_dependency-UniqueNames}
use typespec_rust.Codemodel.Construct.{
  New, new_decimal, new_external, new_url, crate_name, construct_all, external_part, register_part,
  register,
}
use typespec_rust.Codemodel.Construct.Registered.{Registered}
use typespec_rust.Codegen.Visibility.{pub_use, update_all, new_tracker, annotation_derive}
use typespec_rust.Codegen.Manifest.{emit_cargo_toml, sort_dependencies}
use typespec_rust.Codegen.Manifest.Features.{NoRepeats}
use typespec_rust.Codegen.Manifest.Canonical.{SameRequests}
use typespec_rust.Codegen.Manifest.Order.{emit_cargo_toml_canonical, emit_cargo_toml-add_dependency}
use typespec_rust.Codegen.ModFiles.{emit_models_mod_rs}
use typespec_rust.Codegen.ModFiles.Order.{emit_models_mod_rs_canonical}

abbrev dependency : Text → List Text → CrateDependency
dependency name features = record { name = name; features = features }

abbrev azure_core : CrateDependency
azure_core = dependency (text "azure_core") []

abbrev with_json : CrateDependency
with_json = dependency (text "azure_core") (text "json" ∷ text "xml" ∷ [])

abbrev start : List CrateDependency
start = dependency (text "azure_core") (text "xml" ∷ []) ∷ dependency (text "serde") [] ∷ []

requires-add_dependency_example :
    requires (text "azure_core") (text "json") (add_dependency with_json start) ≡ (
      requires (text "azure_core") (text "json") start
      || (with_json.name == text "azure_core" && includes with_json.features (text "json")))
requires-add_dependency_example =
    requires-add_dependency with_json start (text "azure_core") (text "json")

add_dependency_idem_example :
    add_dependency with_json (add_dependency with_json start) ≡ add_dependency with_json start
add_dependency_idem_example = add_dependency_idem with_json start

add_dependency-UniqueNames_example : UniqueNames (add_dependency with_json (azure_core ∷ []))
unfolding depends_on
add_dependency-UniqueNames_example =
    add_dependency-UniqueNames with_json (azure_core ∷ []) (refl, tt)

merged :
    add_dependency with_json start
    ≡ dependency (text "azure_core") (text "xml" ∷ text "json" ∷ [])
      ∷ dependency (text "serde") []
      ∷ []
unfolding add_dependency
merged = refl

cargo_toml :
    emit_cargo_toml (record {
      name = text "test_crate";
      version = text "1.2.3";
      type = data_plane;
      dependencies = dependency (text "azure_core") (text "xml" ∷ text "json" ∷ []) ∷ [];
    })
    ≡ text
        "[package]\nname = \"test_crate\"\nversion = \"1.2.3\"\nauthors.workspace = true\nedition.workspace = true\nlicense.workspace = true\nrepository.workspace = true\nrust-version.workspace = true\n\n[features]\ndefault = [\"azure_core/default\"]\n\n[dependencies]\nazure_core = { workspace = true, features = [\"json\", \"xml\"] }\n"
unfolding emit_cargo_toml less
cargo_toml = refl

abbrev mixed : List Visibility
mixed = pub_crate ∷ public ∷ pub_crate ∷ []

mixed_visibility : (update_all mixed new_tracker).visibility ≡ pub_use
unfolding update_all new_tracker
mixed_visibility = refl

derived :
    annotation_derive true (text "Default" ∷ text " " ∷ [])
    ≡ text "#[derive(Clone, Default, Deserialize, SafeDebug, Serialize)]\n"
unfolding annotation_derive less
derived = refl

swapped :
    SameTexts
      (text "mod enums" ∷ text "mod models" ∷ [])
      (text "mod models" ∷ text "mod enums" ∷ [])
unfolding occurrences
swapped x = ground (arith, ==_iff (text "mod enums") x, ==_iff (text "mod models") x)

emit_models_mod_rs_canonical_example :
    emit_models_mod_rs (text "mod enums" ∷ text "mod models" ∷ [])
    ≡ emit_models_mod_rs (text "mod models" ∷ text "mod enums" ∷ [])
emit_models_mod_rs_canonical_example =
    emit_models_mod_rs_canonical (text "mod enums" ∷ text "mod models" ∷ [])
      (text "mod models" ∷ text "mod enums" ∷ []) swapped

abbrev test_crate : Crate
test_crate = new_crate (text "test_crate") (text "1.2.3") data_plane

abbrev rust_decimal : CrateDependency
rust_decimal = dependency (text "rust_decimal") (text "serde-with-float" ∷ [])

json_xml_apart : NoRepeats with_json.features
unfolding includes any ◌==◌
json_xml_apart = (refl, (refl, tt))

xml_json_apart : NoRepeats (text "xml" ∷ text "json" ∷ [])
unfolding includes any ◌==◌
xml_json_apart = (refl, (refl, tt))

decimal_apart : NoRepeats rust_decimal.features
unfolding includes any
decimal_apart = (refl, tt)

emit_cargo_toml-add_dependency_example :
    emit_cargo_toml (record test_crate {
      dependencies = sort_dependencies (add_dependency rust_decimal (add_dependency with_json []));
    })
    ≡ emit_cargo_toml (record test_crate {
      dependencies = sort_dependencies (add_dependency with_json (add_dependency rust_decimal []));
    })
emit_cargo_toml-add_dependency_example =
    emit_cargo_toml-add_dependency test_crate with_json rust_decimal [] tt tt json_xml_apart
      decimal_apart

abbrev json_first : List CrateDependency
json_first = dependency (text "azure_core") (text "json" ∷ text "xml" ∷ []) ∷ []

abbrev xml_first : List CrateDependency
xml_first = dependency (text "azure_core") (text "xml" ∷ text "json" ∷ []) ∷ []

json_first-UniqueNames : UniqueNames json_first
unfolding depends_on
json_first-UniqueNames = (refl, tt)

xml_first-UniqueNames : UniqueNames xml_first
unfolding depends_on
xml_first-UniqueNames = (refl, tt)

first_requests : SameRequests json_first xml_first
unfolding requires depends_on includes any
first_requests = record { crates = λ n. refl; features = λ n f. ground arith }

emit_cargo_toml_canonical_example :
    emit_cargo_toml (record test_crate { dependencies = sort_dependencies json_first })
    ≡ emit_cargo_toml (record test_crate { dependencies = sort_dependencies xml_first })
emit_cargo_toml_canonical_example =
    emit_cargo_toml_canonical test_crate json_first xml_first json_first-UniqueNames
      xml_first-UniqueNames (json_xml_apart, tt) (xml_json_apart, tt) first_requests

abbrev made : List New
made = new_decimal false ∷ new_external (text "Thing") (text "crate::models") ∷ new_url ∷ []

made_dependencies :
    construct_all made []
    ≡ dependency (text "rust_decimal") (text "serde-with-float" ∷ [])
      ∷ dependency (text "azure_core") []
      ∷ []
unfolding construct_all external_part register_part register ◌==◌ crate_name add_dependency
made_dependencies = refl

options-Free : Free param (text "options" ∷ [])
unfolding ends_in suffix_text
options-Free = (refl, tt)

get_escaped_reserved_name-Free_example :
    (includes reserved_words (get_escaped_reserved_name (text "type") param (text "options" ∷ []))
      ≡ false)
    × (includes
          (text "options" ∷ [])
          (get_escaped_reserved_name (text "type") param (text "options" ∷ []))
        ≡ false)
    × (get_escaped_reserved_name
          (get_escaped_reserved_name (text "type") param (text "options" ∷ []))
          param
          (text "options" ∷ [])
        ≡ get_escaped_reserved_name (text "type") param (text "options" ∷ []))
get_escaped_reserved_name-Free_example =
    get_escaped_reserved_name-Free (text "type") param (text "options" ∷ []) options-Free

type_param : get_escaped_reserved_name (text "type") param [] ≡ text "type_param"
unfolding get_escaped_reserved_name includes any ◌==◌
type_param = refl
