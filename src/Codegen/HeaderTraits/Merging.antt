-- ===== src/Codegen/HeaderTraits/Merging.antt =====
-- codegen/headerTraits.ts: a merged trait has the headers of all its sources.
use typespec_rust.Prelude.{Text, some, List, ◌≡◌}
use typespec_rust.Codemodel.Client.{ResponseHeader}
use typespec_rust.Codegen.HeaderTraits.{header_of, header_type, find_header}

-- The headers have the header, with the type.
pub record Offers (hs : List ResponseHeader) (h : ResponseHeader) : Type 0 where
  pub found : ResponseHeader
  pub present : find_header (header_of h) hs ≡ some found
  pub typed : header_type found ≡ header_type h

-- What is found in the first is found in the second.
Keeps : List ResponseHeader → List ResponseHeader → Type 0
Keeps hs ks =
    (n : Text) (m : ResponseHeader) → find_header n hs ≡ some m → find_header n ks ≡ some m
