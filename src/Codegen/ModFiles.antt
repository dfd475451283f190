-- ===== src/Codegen/ModFiles.antt =====
-- codegen/mod.ts: the mod.rs files of a module, of its clients, models and sub-modules.
pub mod Order
use typespec_rust.Prelude.{
  Text, text, Bool, true, false, Option, none, some, List, [], ◌∷◌, ◌++◌, ◌||◌, join, any, ◌==◌,
  if◌then◌else◌,
}
use typespec_rust.Prelude.Sort.{sort_by}
use typespec_rust.Codemodel.Objects.{Heap}
use typespec_rust.Codemodel.Client.{
  Client, ClientConstruction, Suppressed, keep, ctor, all, MethodType, async, client_accessor,
  pageable, lro, ModuleBase, SubModules,
}
use typespec_rust.Codegen.Visibility.{content_preamble}
use typespec_rust.Codegen.Manifest.{sub_module_lines}

-- A template for each entry.
unfoldable pub lines : (Text → Text) → List Text → List Text
lines f [] = []
lines f (m ∷ ms) = f m ∷ lines f ms

unfoldable pub emit_clients_mod_rs : List Text → Text
unfolding lines join
emit_clients_mod_rs modules =
    content_preamble true
    ++ join (text "\n") (
        lines (λ m. text "mod " ++ (m ++ text ";")) modules
        ++ lines (λ m. text "pub use " ++ (m ++ text "::*;")) modules)

unfoldable pub is_method : MethodType → Bool
is_method (async m) = true
is_method (client_accessor m) = false
is_method (pageable m) = true
is_method (lro m) = true

-- The array has entries.
unfoldable pub nonempty {ℓ} : {A : Type ℓ} → List A → Bool
nonempty [] = false
nonempty (x ∷ xs) = true

unfoldable pub has_models : ModuleBase → Bool
unfolding any is_method nonempty
has_models m =
    any (λ c. any is_method c.methods) m.clients
    || (nonempty m.enums || (nonempty m.models || nonempty m.unions))

unfoldable pub options_names : Heap → ClientConstruction → Suppressed → List Text
options_names h k keep = (h.structs k.options).name ∷ []
options_names h k ctor = (h.structs k.options).name ∷ []
options_names h k all = []

-- The names that one client adds to `clientsAndClientOptions`
unfoldable pub client_names : Heap → Text → Option ClientConstruction → List Text
unfolding options_names
client_names h name none = []
client_names h name (some k) = name ∷ options_names h k k.suppressed

unfoldable pub clients_and_options : Heap → List Client → List Text
unfolding client_names
clients_and_options h [] = []
clients_and_options h (c ∷ cs) = client_names h c.name c.constructable ++ clients_and_options h cs

unfoldable pub re_exports : List Text → Text
unfolding join
re_exports [] = []
re_exports (n ∷ ns) = text "pub use clients::{" ++ (join (text ", ") (n ∷ ns) ++ text "};\n")

unfoldable pub emit_generated_mod_rs : Heap → ModuleBase → Text
unfolding nonempty has_models clients_and_options re_exports
emit_generated_mod_rs h m =
    content_preamble true
    ++ ((if nonempty m.clients
          then text "/// Clients used to communicate with the service.\npub mod clients;\n"
          else [])
        ++ ((if has_models m
              then text
                  "/// Contains all the data structures and types used by the client library.\npub mod models;\n"
              else [])
            ++ (if nonempty m.clients then re_exports (clients_and_options h m.clients) else [])))

-- `/mod models$/`
unfoldable pub ends_with : Text → Text → Bool
ends_with suffix [] = suffix == []
ends_with suffix (x ∷ xs) = (suffix == (x ∷ xs)) || ends_with suffix xs

unfoldable pub models_line : Text → Text
unfolding ends_with
models_line m =
    if ends_with (text "mod models") m then text "#[allow(clippy::module_inception)]\n" ++ m else m

unfoldable pub emit_models_mod_rs : List Text → Text
unfolding models_line lines sort_by join
emit_models_mod_rs modules =
    content_preamble true
    ++ (join (text ";\n") (lines models_line (sort_by (λ m. m) modules)) ++ text ";\n")

unfoldable pub emit_sub_mod_rs : ModuleBase → SubModules → Text
unfolding nonempty
emit_sub_mod_rs m subs =
    content_preamble true
    ++ ((if nonempty m.clients || (nonempty m.enums || (nonempty m.models || nonempty m.unions))
          then text "mod generated;\npub use generated::*;\n"
          else [])
        ++ sub_module_lines subs)
