-- ===== src/Tests/Statements.antt =====
-- codegen/use.ts: use statements of the tests in packages/typespec-rust/test, and of the fixtures.
use typespec_rust.Prelude.{Text, text, List, [], ◌∷◌, ◌||◌, any, ◌≡◌, refl, arith, ◌==◌}
use typespec_rust.Prelude.Result.{ok}
use typespec_rust.Codegen.UseTree.{UseNodes, leaf, insert, sort_nodes}
use typespec_rust.Codegen.UseTree.Paths.{holds, starts, Distinct, holds-insert, insert_idem}
use typespec_rust.Codegen.UseTree.Sorted.{Sorted, sort_nodes-Sorted}
use typespec_rust.Utils.Imports.{build_import_path}
use typespec_rust.Codegen.UseTree.Canonical.{SamePaths}
use typespec_rust.Codegen.Use.{
  Use, Scope, new_use, add, add_types, add_for_type, use_text, add_format, add_model, add_qualified,
  add_generated, is_clients, format_name,
}
use typespec_rust.Codegen.Use.Adds.{full_path, holds-add, add-Distinct}
use typespec_rust.Codegen.Use.Rendering.{use_text_canonical, use_text-add_comm}
use typespec_rust.Codegen.Use.Extends.{Extends, Extends-refl}
use typespec_rust.Codegen.Use.AddForType.{add_for_type-Extends, add_for_type_idem}
use typespec_rust.Tests.Fixtures.{root, heap, pet_content}

abbrev start : Use
start = new_use root Scope.clients

abbrev trees_of : UseNodes → Use
trees_of ns = record { container = root; trees = ns; scope = Scope.clients }

abbrev http : Text
http = text "azure_core::http"

abbrev fmt : Text
fmt = text "azure_core::fmt"

-- `Context` and `Url` of azure_core::http
abbrev http_types : List Text
http_types = text "Url" ∷ text "Context" ∷ []

abbrev fmt_types : List Text
fmt_types = text "SafeDebug" ∷ []

abbrev with_http : UseNodes
with_http = add_types http http_types leaf

abbrev with_fmt : UseNodes
with_fmt = add_types fmt fmt_types leaf

abbrev http_fmt : UseNodes
http_fmt = add_types fmt fmt_types with_http

abbrev fmt_http : UseNodes
fmt_http = add_types http http_types with_fmt

http_fmt_emitted :
    (use_text [] (trees_of http_fmt)).0
    ≡ text "use azure_core::{fmt::SafeDebug, http::{Context, Url, }, };\n\n"
unfolding use_text add_types ◌==◌
http_fmt_emitted = refl

http_added : add http http_types start ≡ ok (trees_of with_http)
unfolding add new_use
http_added = refl

fmt_added : add fmt fmt_types start ≡ ok (trees_of with_fmt)
unfolding add new_use
fmt_added = refl

http_fmt_added : add fmt fmt_types (trees_of with_http) ≡ ok (trees_of http_fmt)
unfolding add
http_fmt_added = refl

fmt_http_added : add http http_types (trees_of with_fmt) ≡ ok (trees_of fmt_http)
unfolding add
fmt_http_added = refl

start-Distinct : Distinct start.trees
unfolding new_use
start-Distinct = tt

http_fmt-Distinct : Distinct http_fmt
http_fmt-Distinct =
    add-Distinct fmt fmt_types (trees_of with_http) (trees_of http_fmt) http_fmt_added
      (add-Distinct http http_types start (trees_of with_http) http_added start-Distinct)

fmt_http-Distinct : Distinct fmt_http
fmt_http-Distinct =
    add-Distinct http http_types (trees_of with_fmt) (trees_of fmt_http) fmt_http_added
      (add-Distinct fmt fmt_types start (trees_of with_fmt) fmt_added start-Distinct)

same_paths : SamePaths http_fmt fmt_http
same_paths p = ground (
  arith,
  holds-add http http_types start (trees_of with_http) p http_added,
  holds-add fmt fmt_types (trees_of with_http) (trees_of http_fmt) p http_fmt_added,
  holds-add fmt fmt_types start (trees_of with_fmt) p fmt_added,
  holds-add http http_types (trees_of with_fmt) (trees_of fmt_http) p fmt_http_added,
)

abbrev context_path : List Text
context_path = text "azure_core" ∷ text "http" ∷ text "Context" ∷ []

holds-insert_example :
    holds (text "azure_core" ∷ []) (insert context_path with_fmt)
    ≡ (holds (text "azure_core" ∷ []) with_fmt || starts (text "azure_core" ∷ []) context_path)
holds-insert_example = holds-insert (text "azure_core" ∷ []) context_path with_fmt

insert_idem_example :
    insert context_path (insert context_path with_fmt) ≡ insert context_path with_fmt
insert_idem_example = insert_idem context_path with_fmt

sort_nodes-Sorted_example : Sorted (sort_nodes fmt_http)
sort_nodes-Sorted_example = sort_nodes-Sorted fmt_http fmt_http-Distinct

holds-add_example : holds context_path (trees_of http_fmt).trees ≡ (
    holds context_path (trees_of with_http).trees
    || any (λ t. starts context_path (full_path fmt t)) fmt_types)
holds-add_example =
    holds-add fmt fmt_types (trees_of with_http) (trees_of http_fmt) context_path http_fmt_added

use_text_canonical_example :
    (use_text [] (trees_of http_fmt)).0 ≡ (use_text [] (trees_of fmt_http)).0
use_text_canonical_example =
    use_text_canonical [] (trees_of http_fmt) (trees_of fmt_http) http_fmt-Distinct
      fmt_http-Distinct same_paths

use_text-add_comm_example :
    (use_text [] (trees_of http_fmt)).0 ≡ (use_text [] (trees_of fmt_http)).0
use_text-add_comm_example =
    use_text-add_comm [] http fmt http_types fmt_types start (trees_of with_http)
      (trees_of http_fmt) (trees_of with_fmt) (trees_of fmt_http) start-Distinct http_added
      http_fmt_added fmt_added fmt_http_added

-- The statements for a request of a pet in XML.
abbrev for_pet : UseNodes
for_pet = add_types http (text "RequestContent" ∷ []) (
    add_types (text "crate::generated::models") (text "Pet" ∷ [])
      (add_types http (text "XmlFormat" ∷ []) leaf))

pet_added : add_for_type heap pet_content start ≡ ok (trees_of for_pet)
unfolding add_for_type new_use add_format add_model add_qualified add_generated add
    build_import_path is_clients format_name
pet_added = refl

pet_emitted :
    (use_text [] (trees_of for_pet)).0
    ≡ text
        "use azure_core::http::{RequestContent, XmlFormat, };\nuse crate::generated::models::Pet;\n\n"
unfolding use_text add_types ◌==◌
pet_emitted = refl

add_for_type-Extends_example : Extends start (trees_of for_pet)
add_for_type-Extends_example =
    add_for_type-Extends heap pet_content start (trees_of for_pet) pet_added

for_pet-Distinct : Distinct for_pet
for_pet-Distinct =
    (add_for_type-Extends heap pet_content start (trees_of for_pet) pet_added).distinct
      start-Distinct

add_for_type_idem_example : add_for_type heap pet_content (trees_of for_pet) ≡ ok (trees_of for_pet)
add_for_type_idem_example =
    add_for_type_idem heap pet_content start (trees_of for_pet) (trees_of for_pet) pet_added
      (Extends-refl (trees_of for_pet)) for_pet-Distinct

-- A path that another goes beyond is not emitted for itself, and adding it changes nothing.
fmt_unchanged :
    add (text "azure_core") (text "fmt" ∷ []) (trees_of with_fmt) ≡ ok (trees_of with_fmt)
unfolding add add_types ◌==◌
fmt_unchanged = refl
