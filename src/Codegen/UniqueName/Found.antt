-- ===== src/Codegen/UniqueName/Found.antt =====
-- codegen/helpers.ts, `getUniqueVarName`: the loop ends, at the first candidate that no parameter has.
use typespec_rust.Prelude.{
  ℕ, zero, suc, ◌+◌, ◌-◌, ◌≤◌, ◌<◌, Text, text, true, false, Option, some, List, [], ◌∷◌, ◌++◌, map,
  ltb, length, get_elem?, ◌≡◌, refl, arith, Bool-cases, inl, inr, ap, ◌∙◌, sym, ◌⊎◌,
}
use typespec_rust.Prelude.Decimal.{decimal, decimal_injective}
use typespec_rust.Codemodel.Parameters.{MethodParameter}
use typespec_rust.Codegen.UniqueName.{
  candidate, collides, next_unique, parameter_name, get_unique_var_name, printed,
}
use typespec_rust.Codegen.UniqueName.Pigeonhole.{pigeonhole}

append_cancel : (xs ys zs : Text) → xs ++ ys ≡ xs ++ zs → ys ≡ zs
append_cancel [] ys zs e = e
append_cancel (x ∷ xs) ys zs e = append_cancel xs ys zs (cc)

-- The candidates behind the end of the list are all different.
numbered : List Text → ℕ → Text
numbered cs k = candidate cs (length cs + k)

numbered_lem :
    (cs : List Text) (k : ℕ)
    → numbered cs k ≡ printed (get_elem? cs (length cs - 1)) ++ (text "_" ++ decimal k)
unfolding numbered candidate
numbered_lem cs k =
    let past : ltb (length cs + k) (length cs) ≡ false = ground arith in
    let offset : length cs + k - length cs ≡ k = omega arith in rw (past, offset)

numbered_injective : (cs : List Text) (i j : ℕ) → numbered cs i ≡ numbered cs j → i ≡ j
numbered_injective cs i j e = decimal_injective i j (
    append_cancel (text "_") (decimal i) (decimal j) (
      append_cancel (printed (get_elem? cs (length cs - 1))) _ _
        (sym (numbered_lem cs i) ∙ e ∙ numbered_lem cs j)))

-- All candidates from one index up to another collide.
abbrev pub AllCollide : List Text → List Text → ℕ → ℕ → Type 0
AllCollide ns cs i k = (j : ℕ) → i ≤ j → j < k → collides ns (candidate cs j) ≡ true

-- The loop from an index on ends at the first candidate that does not collide.
pub record Ends (ns cs : List Text) (found : Option Text) (i bound : ℕ) : Type 0 where
  pub index : ℕ
  pub result : found ≡ some (candidate cs index)
  pub within : index < bound
  pub free : collides ns (candidate cs index) ≡ false
  pub first : AllCollide ns cs i index

one_more :
    (ns cs : List Text) (i k : ℕ)
    → collides ns (candidate cs i) ≡ true
    → AllCollide ns cs (i + 1) k
    → AllCollide ns cs i k
one_more ns cs i k here rest j lo hi = elim (Bool-cases (ltb i j)) [
  | inl later ↦ rest j (ground arith) hi
  | inr now ↦ let e : j ≡ i = ground arith in rw e here
]

next_unique_cases :
    (fuel : ℕ) (ns cs : List Text) (i : ℕ)
    → Ends ns cs (next_unique fuel ns cs i) i (i + fuel) ⊎ AllCollide ns cs i (i + fuel)
unfolding next_unique
next_unique_cases zero ns cs i = inr (λ j lo hi. absurd (omega arith))
next_unique_cases (suc fuel) ns cs i = elim (Bool-cases (collides ns (candidate cs i))) [
  | inl taken ↦ elim (next_unique_cases fuel ns cs (i + 1)) [
    | inl r ↦ inl (record {
      index = r.index;
      result = rw taken r.result;
      within = omega (arith, r.within);
      free = r.free;
      first = one_more ns cs i r.index taken r.first;
    })
    | inr a ↦ inr (one_more ns cs i (i + suc fuel) taken (λ j lo hi. a j lo (omega arith)))
  ]
  | inr free ↦ inl (record {
    index = i;
    result = rw free;
    within = omega arith;
    free = free;
    first = λ j lo hi. absurd (omega arith);
  })
]

not_all :
    (ns cs : List Text) (bound : ℕ) → length cs + length ns < bound → ¬ AllCollide ns cs 0 bound
unfolding numbered
not_all ns cs bound h a =
    let most : suc (length ns) ≤ length ns =
      pigeonhole (suc (length ns)) (numbered cs) ns (numbered_injective cs)
        (λ k lt. a (length cs + k) (omega arith) (omega arith)) in
    absurd (omega arith)

length-map : (ps : List MethodParameter) → length (map parameter_name ps) ≡ length ps
length-map [] = refl
length-map (p ∷ ps) = ap suc (length-map ps)

-- `getUniqueVarName` ends after one round more than there are candidates and parameters at most; its
-- result is the first candidate that is no parameter's name.
pub get_unique_var_name-Ends :
    (params : List MethodParameter) (candidates : List Text)
    → Ends
        (map parameter_name params)
        candidates
        (get_unique_var_name params candidates)
        0
        (length candidates + length params + 1)
unfolding get_unique_var_name
get_unique_var_name-Ends params candidates =
    let fuel = length candidates + length params + 1 in
    let ns = map parameter_name params in
    elim (next_unique_cases fuel ns candidates 0) [
      | inl r ↦ record {
        index = r.index;
        result = r.result;
        within = omega (arith, r.within);
        free = r.free;
        first = r.first;
      }
      | inr a ↦ absurd (not_all ns candidates (0 + fuel) (omega (arith, length-map params)) a)
    ]
