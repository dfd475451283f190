-- ===== src/Prelude/Result.antt =====
-- A computation that may throw, `CodegenError` of codegen/errors.ts.
use mathlib.Core.Path.{◌≡◌, refl}
use typespec_rust.Prelude.Strings.{Text}

-- `ErrorCode`
pub data ErrorCode : Type 0 where
  internal_error : ErrorCode

-- `CodegenError`
pub record CodegenError : Type 0 where
  pub code : ErrorCode
  pub message : Text

-- What a call that may throw leaves: its value, or the error.
pub data Result {ℓ} (R : Type ℓ) : Type ℓ where
  err : CodegenError → Result R
  ok : R → Result R

abbrev pub throw {ℓ} : {R : Type ℓ} → Text → Result R
throw message = err (record { code = internal_error; message = message })

infixl 5 ◌>>=◌
-- The statements behind a call run only if it does not throw.
abbrev pub ◌>>=◌ {ℓ κ} :
    {R : Type ℓ} {S : Type κ} (call : Result R) (rest : R → Result S) → Result S
call >>= rest = elim call [ err thrown ↦ err thrown | ok value ↦ rest value ]

infixl 5 ◌>>◌
abbrev pub ◌>>◌ {ℓ κ} : {R : Type ℓ} {S : Type κ} (call : Result R) (rest : Result S) → Result S
call >> rest = elim call [ err thrown ↦ err thrown | ok value ↦ rest ]

-- A bind that succeeds, taken apart.
pub >>=-eq-ok {ℓ κ} :
    {R : Type ℓ} {S : Type κ} (call : Result R) (rest : R → Result S) {s : S}
    → (call >>= rest) ≡ ok s
    → (r : R) × (call ≡ ok r) × (rest r ≡ ok s)
>>=-eq-ok (err thrown) rest h = cc
>>=-eq-ok (ok r) rest h = (r, refl, h)
