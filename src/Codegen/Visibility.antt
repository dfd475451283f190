-- ===== src/Codegen/Visibility.antt =====
-- codegen/helpers.ts: `VisibilityTracker`, `emitVisibility`, `contentPreamble` and `annotationDerive`.
use typespec_rust.Prelude.{
  Text, text, Bool, true, false, List, [], ◌∷◌, ◌++◌, join, any, if◌then◌else◌, ◌≡◌, refl,
}
use typespec_rust.Prelude.Spaces.{blank}
use typespec_rust.Prelude.Sort.{sort_by}
use typespec_rust.Codemodel.Kinds.{Visibility, public}

pub data ModuleVisibility : Type 0 where
  internal pub_use pub_crate : ModuleVisibility

-- `VisibilityTracker`
pub record Tracker : Type 0 where
  pub visibility : ModuleVisibility

unfoldable pub new_tracker : Tracker
new_tracker = record { visibility = ModuleVisibility.pub_crate }

-- `VisibilityTracker.update`
unfoldable pub update : Visibility → Tracker → Tracker
update public t = record { visibility = pub_use }
update Visibility.pub_crate t = t

-- The calls of `update` for a list of items.
unfoldable pub update_all : List Visibility → Tracker → Tracker
unfolding update
update_all [] t = t
update_all (v ∷ vs) t = update_all vs (update v t)

unfoldable pub is_public : Visibility → Bool
is_public public = true
is_public Visibility.pub_crate = false

update_all-pub_use :
    (vs : List Visibility) (t : Tracker)
    → t.visibility ≡ pub_use
    → (update_all vs t).visibility ≡ pub_use
unfolding update_all
update_all-pub_use [] t e = e
update_all-pub_use (public ∷ vs) t e = update_all-pub_use vs _ refl
update_all-pub_use (Visibility.pub_crate ∷ vs) t e = update_all-pub_use vs t e

-- A module is re-exported whole exactly when one of its items is public, wherever it stands.
pub update_all_lem :
    (vs : List Visibility)
    → (update_all vs new_tracker).visibility
      ≡ (if any is_public vs then pub_use else ModuleVisibility.pub_crate)
unfolding update_all new_tracker any is_public
update_all_lem [] = refl
update_all_lem (public ∷ vs) = update_all-pub_use vs _ refl
update_all_lem (Visibility.pub_crate ∷ vs) = update_all_lem vs

unfoldable pub emit_visibility : Visibility → Text
emit_visibility public = text "pub "
emit_visibility Visibility.pub_crate = text "pub(crate) "

abbrev pub header_text : Text
header_text =
    text "// Copyright (c) Microsoft Corporation. All rights reserved.\n"
    ++ (text "// Licensed under the MIT License.\n"
        ++ (text "//\n" ++ text "// Code generated by Microsoft (R) Rust Code Generator."))

unfoldable pub content_preamble : Bool → Text
content_preamble include_dne =
    header_text ++ ((if include_dne then text " DO NOT EDIT." else []) ++ text "\n\n")

unfoldable pub not_blank : List Text → List Text
unfolding blank
not_blank [] = []
not_blank (x ∷ xs) = if blank x then not_blank xs else x ∷ not_blank xs

unfoldable pub annotation_derive : Bool → List Text → Text
unfolding not_blank sort_by join
annotation_derive serde extra =
    text "#[derive("
    ++ (join (text ", ") (
          sort_by (λ t. t)
            ((text "Clone" ∷ text "SafeDebug" ∷ [])
              ++ (if serde then text "Deserialize" ∷ text "Serialize" ∷ [] else [])
              ++ not_blank extra))
        ++ text ")]\n")
