-- ===== src/Codegen/UniqueName.antt =====
-- codegen/helpers.ts, `getUniqueVarName`: a local name that no parameter has.
pub mod Pigeonhole
pub mod Found
use typespec_rust.Prelude.{
  ℕ, zero, suc, ◌+◌, ◌-◌, Text, text, Bool, Option, none, some, List, [], ◌∷◌, ◌++◌, map, any, ◌==◌,
  ltb, length, get_elem?, if◌then◌else◌,
}
use typespec_rust.Prelude.Decimal.{decimal}
use typespec_rust.Codemodel.Parameters.{MethodParameter, parameter_base}

-- A missing element prints as `undefined`.
unfoldable pub printed : Option Text → Text
printed none = text "undefined"
printed (some t) = t

-- The candidate of a round: one of the list, or behind its end the last one with a number.
unfoldable pub candidate : List Text → ℕ → Text
unfolding printed decimal
candidate candidates i =
    if ltb i (length candidates)
    then printed (get_elem? candidates i)
    else printed (get_elem? candidates (length candidates - 1))
      ++ (text "_" ++ decimal (i - length candidates))

-- The inner loop over the parameters.
unfoldable pub collides : List Text → Text → Bool
unfolding any ◌==◌
collides names name = any (λ n. n == name) names

-- `while (true)`, with fuel; `none` means that the fuel ran out.
unfoldable pub next_unique : ℕ → List Text → List Text → ℕ → Option Text
unfolding candidate collides
next_unique zero names candidates i = none
next_unique (suc fuel) names candidates i =
    let rest = next_unique fuel names candidates (i + 1) in
    if collides names (candidate candidates i) then rest else some (candidate candidates i)

abbrev pub parameter_name : MethodParameter → Text
parameter_name p = (parameter_base p).name

-- One round for each candidate and for each parameter, and one more.
unfoldable pub get_unique_var_name : List MethodParameter → List Text → Option Text
unfolding next_unique parameter_base
get_unique_var_name params candidates =
    next_unique (length candidates + length params + 1) (map parameter_name params) candidates 0
