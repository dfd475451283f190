-- ===== src/Codemodel/Construct/Registered.antt =====
-- codemodel/types.ts: the crate depends on what the external types come from.
use typespec_rust.Prelude.{
  Text, text, true, false, Option, none, some, List, [], ◌∷◌, ◌||◌, ◌==◌, ◌≡◌, if◌then◌else◌,
}
use typespec_rust.Codemodel.Kinds.{QualifiedType}
use typespec_rust.Codemodel.Types.{RustType}
use typespec_rust.Codemodel.Types.RustType.{
  async_response, bytes, client_method_options, decimal, etag, external, json_value,
  offset_date_time, pager, pager_options, poller, poller_options, raw_response, request_content,
  response, result, safeint, token_credential, url,
}
use typespec_rust.Codemodel.Crate.{CrateDependency, add_dependency}
use typespec_rust.Codemodel.Crate.Features.{depends_on}
use typespec_rust.Codemodel.Crate.Names.{UniqueNames, add_dependency-UniqueNames}
use typespec_rust.Codemodel.Construct.{
  New, crate_name, register, external_part, register_part, construct_all,
}

-- The name and the path of an external type.
unfoldable pub external_of : RustType → Option QualifiedType
external_of (async_response q c) = some q
external_of (bytes q) = some q
external_of (client_method_options o) = some o.qualified
external_of (decimal d) = some d.qualified
external_of (etag q) = some q
external_of (external e) = some e.qualified
external_of (json_value q) = some q
external_of (offset_date_time o) = some o.qualified
external_of (pager q r k) = some q
external_of (pager_options o) = some o.qualified
external_of (poller q r s) = some q
external_of (poller_options o) = some o.qualified
external_of (raw_response q) = some q
external_of (request_content q t f) = some q
external_of (response q t f) = some q
external_of (result q t) = some q
external_of (safeint s) = some s.qualified
external_of (token_credential t) = some t.qualified
external_of (url q) = some q
external_of t = none

-- The crate of an external type is the crate itself or among the dependencies.
abbrev pub Registered : List CrateDependency → RustType → Type 0
Registered deps t =
    (q : QualifiedType)
    → external_of t ≡ some q
    → (crate_name q.path == text "crate" || depends_on (crate_name q.path) deps) ≡ true

abbrev part_path : Option (Text × List Text) → Option Text
part_path none = none
part_path (some (path, fs)) = some path

abbrev type_path : Option QualifiedType → Option Text
type_path none = none
type_path (some q) = some q.path

register_part-UniqueNames :
    (o : Option (Text × List Text)) (deps : List CrateDependency)
    → UniqueNames deps
    → UniqueNames (register_part o deps)
unfolding register_part register
register_part-UniqueNames none deps u = u
register_part-UniqueNames (some (path, fs)) deps u =
    elim (crate_name path == text "crate")
      as (λ b. UniqueNames (
        if b
        then deps
        else add_dependency (record { name = crate_name path; features = fs }) deps)) [
          | true ↦ u
          | false ↦ add_dependency-UniqueNames _ deps u
        ]

-- Where no two entries have one name, calls of the constructors make no second entry of a crate.
pub construct_all-UniqueNames :
    (cs : List New) (deps : List CrateDependency)
    → UniqueNames deps
    → UniqueNames (construct_all cs deps)
unfolding construct_all
construct_all-UniqueNames [] deps u = u
construct_all-UniqueNames (c ∷ cs) deps u =
    construct_all-UniqueNames cs _ (register_part-UniqueNames (external_part c) deps u)
