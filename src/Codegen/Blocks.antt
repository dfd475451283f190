-- ===== src/Codegen/Blocks.antt =====
-- codegen/helpers.ts: `buildForIn`, `buildIfBlock`, `buildMatch` and `buildWhile`. The callbacks that
-- emit bodies are arguments.
pub mod Nesting
use typespec_rust.Prelude.{Text, text, Option, none, some, List, [], ◌∷◌, ◌++◌}
use typespec_rust.Codegen.Indentation.{Emit, ◌>>=◌, ◌>>◌, pure, get, push, pop}

unfoldable pub build_for_in : {S : Type 0} → Text → Text → Emit S Text → Emit S Text
unfolding push pop get
build_for_in loop_var iterator body = do
  push
  b ← body
  pop
  i ← get
  pure (text "for " ++ loop_var ++ text " in " ++ iterator ++ text " {\n" ++ b ++ i ++ text "}\n")

pub record IfBlock (S : Type 0) : Type 0 where
  pub condition : Text
  pub body : Emit S Text

pub record ElseBlock (S : Type 0) : Type 0 where
  pub body : Emit S Text

-- The part of `buildIfBlock` for the else block, if there is one.
unfoldable pub else_text : {S : Type 0} → Option (ElseBlock S) → Emit S Text
unfolding push pop get
else_text none = pure []
else_text (some e) = do
  push
  b ← e.body
  pop
  i ← get
  pure (text " else {\n" ++ b ++ i ++ text "}")

unfoldable pub build_if_block : {S : Type 0} → IfBlock S → Option (ElseBlock S) → Emit S Text
unfolding push pop get else_text
build_if_block block otherwise = do
  push
  b ← block.body
  pop
  i ← get
  e ← else_text otherwise
  pure (text "if " ++ block.condition ++ text " {\n" ++ b ++ i ++ text "}" ++ e)

pub record MatchArm (S : Type 0) : Type 0 where
  pub pattern_text : Text
  pub returns : Option Text
  pub body : Emit S Text

-- `arm.returns ? arm.returns + ' ' : ''`; an empty text counts as missing.
unfoldable pub returns_text : Option Text → Text
returns_text none = []
returns_text (some []) = []
returns_text (some (c ∷ r)) = (c ∷ r) ++ text " "

unfoldable pub match_arm : {S : Type 0} → MatchArm S → Emit S Text
unfolding push pop get returns_text
match_arm arm = do
  i ← get
  push
  b ← arm.body
  pop
  j ← get
  pure (
      i
      ++ arm.pattern_text
      ++ text " => "
      ++ returns_text arm.returns
      ++ text "{\n"
      ++ b
      ++ j
      ++ text "},\n")

unfoldable pub match_arms : {S : Type 0} → List (MatchArm S) → Emit S Text
unfolding match_arm
match_arms [] = pure []
match_arms (arm ∷ arms) = do a ← match_arm arm; rest ← match_arms arms; pure (a ++ rest)

unfoldable pub build_match : {S : Type 0} → Text → List (MatchArm S) → Emit S Text
unfolding push pop get match_arms
build_match expr arms = do
  push
  a ← match_arms arms
  pop
  i ← get
  pure (text "match " ++ expr ++ text " {\n" ++ a ++ i ++ text "}")

unfoldable pub build_while : {S : Type 0} → Text → Emit S Text → Emit S Text
unfolding push pop get
build_while condition body = do
  push
  b ← body
  pop
  i ← get
  pure (text "while " ++ condition ++ text " {\n" ++ b ++ i ++ text "}\n")
