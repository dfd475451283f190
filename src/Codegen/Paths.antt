-- ===== src/Codegen/Paths.antt =====
-- Rust paths in text, `a::b::c`, and `split('::')`, as codegen/use.ts and utils/utils.ts use them.
use typespec_rust.Prelude.{
  ℕ, Text, text, List, [], ◌∷◌, ◌++◌, ◌&&◌, join, eqb, if◌then◌else◌, ◌≡◌, refl, arith, All, ◌≢◌,
  ◌∙◌, ap,
}

-- A character joins the first chunk.
push_front : ℕ → List Text → List Text
push_front c [] = (c ∷ []) ∷ []
push_front c (chunk ∷ chunks) = (c ∷ chunk) ∷ chunks

-- String.prototype.split('::')
unfoldable pub split_path : Text → List Text
unfolding push_front
split_path [] = [] ∷ []
split_path (c ∷ []) = (c ∷ []) ∷ []
split_path (c ∷ d ∷ rest) =
    let skip = [] ∷ split_path rest in
    let keep = push_front c (split_path (d ∷ rest)) in
    if eqb c b':' && eqb d b':' then skip else keep

-- Without a colon.
abbrev pub IsChunk : Text → Type 0
IsChunk = All (λ c. c ≢ b':')

split_chunk : (x : Text) → IsChunk x → split_path x ≡ x ∷ []
unfolding split_path push_front
split_chunk [] h = refl
split_chunk (c ∷ []) h = refl
split_chunk (c ∷ d ∷ rest) h = ground (arith, split_chunk (d ∷ rest))

split_step : (x rest : Text) → IsChunk x → split_path (x ++ text "::" ++ rest) ≡ x ∷ split_path rest
unfolding split_path push_front
split_step [] rest h = refl
split_step (c ∷ []) rest h = ground arith
split_step (c ∷ d ∷ x) rest h = ground (arith, split_step (d ∷ x) rest)

-- Splitting undoes joining, for chunks without a colon.
pub split_path-join :
    (x : Text) (xs : List Text)
    → IsChunk x
    → All IsChunk xs
    → split_path (join (text "::") (x ∷ xs)) ≡ x ∷ xs
unfolding join
split_path-join x [] h k = split_chunk x h
split_path-join x (y ∷ ys) h k =
    split_step x (join (text "::") (y ∷ ys)) h
    ∙ ap (λ (zs : List Text). x ∷ zs) (split_path-join y ys k.0 k.1)

split_example :
    split_path (text "azure_core::http::headers")
    ≡ text "azure_core" ∷ text "http" ∷ text "headers" ∷ []
unfolding split_path
split_example = refl
