-- ===== src/Codegen/HeaderTraits.antt =====
-- codegen/headerTraits.ts, `emitHeaderTraits`: grouping the traits of a module's methods by name, and
-- merging the traits of one name.
pub mod Merging
pub mod Grouping
pub mod Deserialization
pub mod Nesting
use typespec_rust.Prelude.{
  Text, text, Bool, true, false, Option, none, some, List, [], ◌∷◌, ◌++◌, ◌==◌, if◌then◌else◌,
}
use typespec_rust.Prelude.Result.{Result, ok, err, throw, ◌>>=◌}
use typespec_rust.Codemodel.Types.{RustType}
use typespec_rust.Codemodel.Crate.{ModuleContainer, same_module}
use typespec_rust.Codemodel.Client.{
  ResponseHeader, response_header_hash_map, response_header_scalar, ResponseHeadersTrait,
  MethodType, async, client_accessor, pageable, lro, Client,
}

-- `responseHeader.header`
unfoldable pub header_of : ResponseHeader → Text
header_of (response_header_hash_map h) = h.header
header_of (response_header_scalar h) = h.header

-- `responseHeader.type`
unfoldable pub header_type : ResponseHeader → RustType
header_type (response_header_hash_map h) = h.type
header_type (response_header_scalar h) = h.type

-- `mergedHeaders.find(h => h.header === ...)`
unfoldable pub find_header : Text → List ResponseHeader → Option ResponseHeader
find_header name [] = none
find_header name (h ∷ hs) = if header_of h == name then some h else find_header name hs

-- What the loop over the traits of one name has gathered.
pub record Merged : Type 0 where
  pub docs : Text
  pub container : Option ModuleContainer
  pub headers : List ResponseHeader

-- The module of the first trait, which is that of all others.
unfoldable pub check_module : Option ModuleContainer → ModuleContainer → Result ModuleContainer
check_module none c = ok c
check_module (some m) c =
    if same_module m c
    then ok m
    else throw (text "cannot merge header traits from different modules")

abbrev pub container_or : ModuleContainer → Option ModuleContainer → ModuleContainer
container_or c none = c
container_or c (some m) = m

-- `===` on the objects of types is a parameter.
module _ (same_type : RustType → RustType → Bool) where
  unfoldable pub merge_found :
      Option ResponseHeader → ResponseHeader → List ResponseHeader → Result (List ResponseHeader)
  unfolding header_type
  merge_found none h hs = ok (hs ++ h ∷ [])
  merge_found (some m) h hs =
      if same_type (header_type m) (header_type h)
      then ok hs
      else throw (text "overlapping headers")

  -- The loop over the headers of a trait.
  unfoldable pub merge_headers :
      List ResponseHeader → List ResponseHeader → Result (List ResponseHeader)
  unfolding merge_found
  merge_headers [] hs = ok hs
  merge_headers (h ∷ rest) hs =
      merge_found (find_header (header_of h) hs) h hs >>= merge_headers rest

  unfoldable pub merge_source : ResponseHeadersTrait → Merged → Result Merged
  unfolding check_module
  merge_source src g = do
    m ← check_module g.container src.container
    hs ← merge_headers src.headers g.headers
    ok (record {
      docs = g.docs ++ (text "/// * " ++ (src.docs ++ text "\n"));
      container = some m;
      headers = hs;
    })

  unfoldable pub merge_sources : List ResponseHeadersTrait → Merged → Result Merged
  merge_sources [] g = ok g
  merge_sources (src ∷ rest) g = merge_source src g >>= merge_sources rest

  abbrev pub no_sources : Merged
  no_sources = record {
    docs = text "/// Provides access to typed response headers for the following methods:\n";
    container = none;
    headers = [];
  }

  -- A single trait stays as it is; more are merged into one.
  unfoldable pub merge_traits :
      ResponseHeadersTrait → List ResponseHeadersTrait → Result ResponseHeadersTrait
  merge_traits first [] = ok first
  merge_traits first (second ∷ rest) = do
    g ← merge_sources (first ∷ second ∷ rest) no_sources
    ok (record first {
      docs = g.docs;
      headers = g.headers;
      container = container_or first.container g.container;
    })

-- `srcTraits`, a map by name: the traits of a name, the first one beside the others.
abbrev pub Groups : Type 0
Groups = List (ResponseHeadersTrait × List ResponseHeadersTrait)

unfoldable pub add_source : ResponseHeadersTrait → Groups → Groups
add_source t [] = (t, []) ∷ []
add_source t ((first, rest) ∷ groups) =
    let later = add_source t groups in
    if first.name == t.name then (first, rest ++ t ∷ []) ∷ groups else (first, rest) ∷ later

-- The trait of a method, if it has one.
unfoldable pub method_trait : MethodType → Option ResponseHeadersTrait
method_trait (async m) = m.base.response_headers
method_trait (client_accessor m) = none
method_trait (pageable m) = m.base.response_headers
method_trait (lro m) = m.base.response_headers

unfoldable pub add_optional : Option ResponseHeadersTrait → Groups → Groups
add_optional none groups = groups
add_optional (some t) groups = add_source t groups

unfoldable pub group_methods : List MethodType → Groups → Groups
group_methods [] groups = groups
group_methods (m ∷ ms) groups = group_methods ms (add_optional (method_trait m) groups)

unfoldable pub group_clients : List Client → Groups → Groups
group_clients [] groups = groups
group_clients (c ∷ cs) groups = group_clients cs (group_methods c.methods groups)
