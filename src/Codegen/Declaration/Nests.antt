-- ===== src/Codegen/Declaration/Nests.antt =====
-- codegen/helpers.ts, `getTypeDeclaration`: texts whose angle brackets nest.
use typespec_rust.Prelude.{
  ℕ, zero, suc, Text, text, Option, none, some, [], ◌∷◌, ◌++◌, ◌≡◌, ◌≢◌, refl, arith, append_assoc,
  All, if◌then◌else◌, eqb, ◌∙◌,
}

-- The depth of open angle brackets after a text; `none` where one closes that was not open.
pub depth_after : Text → ℕ → Option ℕ
depth_after [] n = some n
depth_after (c ∷ s) n =
    if eqb c b'<'
    then depth_after s (suc n)
    else if eqb c b'>'
    then elim n [ zero ↦ none | suc m ↦ depth_after s m ]
    else depth_after s n

-- Wherever the text stands, what follows it is at the depth that the text began at.
pub Nests : Text → Type 0
Nests x = (rest : Text) (n : ℕ) → depth_after (x ++ rest) n ≡ depth_after rest n

-- A name without angle brackets.
abbrev pub IsPlain : Text → Type 0
IsPlain = All (λ c. (c ≢ b'<') × (c ≢ b'>'))

pub Nests-plain : (x : Text) → IsPlain x → Nests x
unfolding Nests depth_after
Nests-plain [] p rest n = refl
Nests-plain (c ∷ x) p rest n = ground (arith, Nests-plain x p.1 rest n)

pub Nests-append : (x y : Text) → Nests x → Nests y → Nests (x ++ y)
unfolding Nests
Nests-append x y a b rest n = rw (append_assoc x y rest) (a (y ++ rest) n ∙ b rest n)

pub Nests-wrap : (x : Text) → Nests x → Nests (text "<" ++ x ++ text ">")
unfolding Nests depth_after
Nests-wrap x a rest n = rw (append_assoc x (text ">") rest) (a (text ">" ++ rest) (suc n))

-- A generic type of one argument.
pub Nests-generic : (n x : Text) → IsPlain n → Nests x → Nests (n ++ (text "<" ++ x ++ text ">"))
Nests-generic n x p a =
    Nests-append n (text "<" ++ x ++ text ">") (Nests-plain n p) (Nests-wrap x a)
