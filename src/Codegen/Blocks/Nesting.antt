-- ===== src/Codegen/Blocks/Nesting.antt =====
-- codegen/helpers.ts: any nesting of the blocks moves the indentation as its depth says.
use typespec_rust.Prelude.{ℕ, suc, Text, text, Option, none, some, List, [], ◌∷◌, ◌++◌, refl, arith}
use typespec_rust.Codegen.Indentation.{Emit, ◌>>=◌, pure, get, push, pop, spaces, Renders}
use typespec_rust.Codegen.Blocks.{
  build_for_in, build_if_block, build_match, build_while, match_arms, returns_text, MatchArm,
}

-- Emitted code as its author nests it.
mutual
  pub data Code : Type 0 where
    empty : Code
    line : Text → Code → Code
    for_in : Text → Text → Code → Code → Code
    if_then : Text → Code → Code → Code
    if_else : Text → Code → Code → Code → Code
    match_on : Text → Arms → Code → Code
    while_loop : Text → Code → Code → Code

  pub data Arms : Type 0 where
    nil : Arms
    arm : Text → Option Text → Code → Arms → Arms

-- The code as the emitter's functions build it, statement by statement.
unfoldable mutual
  pub emit_code : {S : Type 0} → Code → Emit S Text
  emit_code empty = pure []
  emit_code (line l rest) = do i ← get; r ← emit_code rest; pure (i ++ l ++ text "\n" ++ r)
  emit_code (for_in v it body rest) = do
    i ← get
    b ← build_for_in v it (emit_code body)
    r ← emit_code rest
    pure (i ++ b ++ r)
  emit_code (if_then c body rest) = do
    i ← get
    b ← build_if_block (record { condition = c; body = emit_code body }) none
    r ← emit_code rest
    pure (i ++ b ++ text "\n" ++ r)
  emit_code (if_else c body other rest) = do
    i ← get
    b ←
        build_if_block (record { condition = c; body = emit_code body })
          (some (record { body = emit_code other }))
    r ← emit_code rest
    pure (i ++ b ++ text "\n" ++ r)
  emit_code (match_on e arms rest) = do
    i ← get
    b ← build_match e (emit_arms arms)
    r ← emit_code rest
    pure (i ++ b ++ text "\n" ++ r)
  emit_code (while_loop c body rest) = do
    i ← get
    b ← build_while c (emit_code body)
    r ← emit_code rest
    pure (i ++ b ++ r)

  pub emit_arms : {S : Type 0} → Arms → List (MatchArm S)
  emit_arms nil = []
  emit_arms (arm p ret body rest) =
      record { pattern_text = p; returns = ret; body = emit_code body } ∷ emit_arms rest

-- The text of the code at a depth, with no state.
mutual
  pub layout : ℕ → Code → Text
  layout n empty = []
  layout n (line l rest) = spaces n ++ l ++ text "\n" ++ layout n rest
  layout n (for_in v it body rest) =
      spaces n
      ++ (text "for "
          ++ v
          ++ text " in "
          ++ it
          ++ text " {\n"
          ++ layout (suc n) body
          ++ spaces n
          ++ text "}\n")
      ++ layout n rest
  layout n (if_then c body rest) =
      spaces n
      ++ (text "if " ++ c ++ text " {\n" ++ layout (suc n) body ++ spaces n ++ text "}" ++ [])
      ++ text "\n"
      ++ layout n rest
  layout n (if_else c body other rest) =
      spaces n
      ++ (text "if "
          ++ c
          ++ text " {\n"
          ++ layout (suc n) body
          ++ spaces n
          ++ text "}"
          ++ (text " else {\n" ++ layout (suc n) other ++ spaces n ++ text "}"))
      ++ text "\n"
      ++ layout n rest
  layout n (match_on e arms rest) =
      spaces n
      ++ (text "match " ++ e ++ text " {\n" ++ layout_arms (suc n) arms ++ spaces n ++ text "}")
      ++ text "\n"
      ++ layout n rest
  layout n (while_loop c body rest) =
      spaces n
      ++ (text "while " ++ c ++ text " {\n" ++ layout (suc n) body ++ spaces n ++ text "}\n")
      ++ layout n rest

  pub layout_arms : ℕ → Arms → Text
  layout_arms n nil = []
  layout_arms n (arm p ret body rest) =
      (spaces n
        ++ p
        ++ text " => "
        ++ returns_text ret
        ++ text "{\n"
        ++ layout (suc n) body
        ++ spaces n
        ++ text "},\n")
      ++ layout_arms n rest

ArmsRender : (S : Type 0) → List (MatchArm S) → (ℕ → Text) → Type 0
ArmsRender S arms f = Renders (match_arms arms) f

mutual
  unfolding emit_code layout build_for_in build_if_block build_match build_while ArmsRender get push
      pop

  renders : {S : Type 0} (c : Code) → Renders {S = S} (emit_code c) (λ n. layout n c)
  renders empty s n = refl
  renders (line l rest) s n = ground (arith, renders rest s n)
  renders (for_in v it body rest) s n = ground (arith, renders body s (suc n), renders rest s n)
  renders (if_then c body rest) s n = ground (arith, renders body s (suc n), renders rest s n)
  renders (if_else c body other rest) s n =
      ground (arith, renders body s (suc n), renders other s (suc n), renders rest s n)
  renders (match_on e arms rest) s n =
      ground (arith, arms_render _ arms s (suc n), renders rest s n)
  renders (while_loop c body rest) s n = ground (arith, renders body s (suc n), renders rest s n)

  arms_render : (S : Type 0) (a : Arms) → ArmsRender S (emit_arms a) (λ n. layout_arms n a)
  arms_render S nil s n = refl
  arms_render S (arm p ret body rest) s n =
      ground (arith, renders body s (suc n), arms_render _ rest s n)

-- However the blocks are nested, the emitted code is laid out by the depth of its nesting, the indentation is as it was before, and no `pop` underflows.
pub emit_code-Renders : {S : Type 0} (c : Code) → Renders {S = S} (emit_code c) (λ n. layout n c)
emit_code-Renders = renders
