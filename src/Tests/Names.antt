-- ===== src/Tests/Names.antt =====
-- utils/utils.ts, `snakeCaseName`, at concrete names.
use typespec_rust.Prelude.{text, [], ◌∷◌, ◌≡◌, refl}
use typespec_rust.Utils.SnakeCase.{deconstruct, snake_case_name}
use typespec_rust.Utils.SnakeCase.Shape.{IsSnake, snake_case_name-IsSnake}

variable_name : deconstruct (text "myVariableName") ≡ text "my" ∷ text "variable" ∷ text "name" ∷ []
unfolding deconstruct
variable_name = refl

capitals : snake_case_name (text "HTTPServer2Go") ≡ text "http_server2_go"
unfolding snake_case_name
capitals = refl

e_tag : snake_case_name (text "e!Tag") ≡ text "etag"
unfolding snake_case_name
e_tag = refl

snake_case_name-IsSnake_example : IsSnake (snake_case_name (text "X-Ms-Request"))
snake_case_name-IsSnake_example = snake_case_name-IsSnake (text "X-Ms-Request")
