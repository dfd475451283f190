-- ===== src/Codegen/Indentation.antt =====
-- codegen/helpers.ts, the class `indentation`, and code that emits text while it moves it.
use typespec_rust.Prelude.{ℕ, zero, suc, Text, text, List, [], ◌∷◌, ◌++◌, ◌≡◌}
use typespec_rust.Prelude.Result.{Result, ok, err, throw}

-- four spaces per indent level
abbrev pub one_indentation : Text
one_indentation = text "    "

pub record Indentation : Type 0 where
  pub level : ℕ

-- `new indentation()`, at one level.
unfoldable pub new_indentation : Indentation
new_indentation = record { level = 1 }

-- The loop of `indentation.get`.
unfoldable pub spaces : ℕ → Text
spaces zero = []
spaces (suc n) = one_indentation ++ spaces n

unfoldable pub indentation_get : Indentation → Text
unfolding spaces
indentation_get i = spaces i.level

unfoldable pub indentation_push : Indentation → Indentation
indentation_push i = record { level = suc i.level }

-- `indentation.pop` below level zero throws.
unfoldable pub pop_level : ℕ → Result Indentation
pop_level zero = throw (text "indentation stack underflow")
pop_level (suc n) = ok (record { level = n })

unfoldable pub indentation_pop : Indentation → Result Indentation
unfolding pop_level
indentation_pop i = pop_level i.level

-- Code that reads and moves the indentation in scope and another object, and may throw.
abbrev pub Emit : Type 0 → Type 0 → Type 0
Emit S A = S → Indentation → Result (A × S × Indentation)

infixl 5 ◌>>=◌ ◌>>◌
abbrev pub ◌>>=◌ : {S A B : Type 0} → Emit S A → (A → Emit S B) → Emit S B
◌>>=◌ m f s i = elim (m s i) [ ok (a, t, j) ↦ f a t j | err e ↦ err e ]

abbrev pub ◌>>◌ : {S A B : Type 0} → Emit S A → Emit S B → Emit S B
m >> k = m >>= λ _. k

abbrev pub pure : {S A : Type 0} → A → Emit S A
pure a s i = ok (a, s, i)

-- `indent.get()`
unfoldable pub get : {S : Type 0} → Emit S Text
unfolding indentation_get
get s i = ok (indentation_get i, s, i)

-- `indent.push()`
unfoldable pub push : {S : Type 0} → Emit S Unit
unfolding indentation_push
push s i = ok (tt, s, indentation_push i)

abbrev pub popped : {S : Type 0} → S → Result Indentation → Result (Unit {0} × S × Indentation)
popped s (ok i) = ok (tt, s, i)
popped s (err e) = err e

-- `indent.pop()`
unfoldable pub pop : {S : Type 0} → Emit S Unit
unfolding indentation_pop
pop s i = popped s (indentation_pop i)

-- From every level the code succeeds, returns to that level and the same object, and emits the text for it.
abbrev pub Renders : {S : Type 0} → Emit S Text → (ℕ → Text) → Type 0
Renders {S} m f = (s : S) (n : ℕ) → m s (record { level = n }) ≡ ok (f n, s, record { level = n })

infixl 5 ◌+>◌
-- `body += …` twice.
unfoldable pub ◌+>◌ : {S : Type 0} → Emit S Text → Emit S Text → Emit S Text
m +> k = do t ← m; u ← k; pure (t ++ u)

-- `indent.get() + t`
unfoldable pub line : {S : Type 0} → Text → Emit S Text
unfolding get
line t = do i ← get; pure (i ++ t)

-- A statement that adds no text.
unfoldable pub silently : {S : Type 0} → Emit S Unit → Emit S Text
silently m = do m; pure []

-- The statements of a loop over the items.
unfoldable pub each : {S A : Type 0} → (A → Emit S Text) → List A → Emit S Text
unfolding ◌+>◌
each f [] = pure []
each f (x ∷ xs) = f x +> each f xs

-- The code with an `indentation` of its own.
unfoldable pub freshly : {S A : Type 0} → Emit S A → Emit S A
unfolding new_indentation
freshly m s i = elim (m s new_indentation) [ ok (a, t, j) ↦ ok (a, t, i) | err e ↦ err e ]

-- A call of a method of the object that is not the indentation.
unfoldable pub calling : {S : Type 0} → (S → Result S) → Emit S Text
calling f s i = elim (f s) [ ok t ↦ ok ([], t, i) | err e ↦ err e ]
