-- ===== src/Result.antt =====
-- What a call returns: a value, an HTTPException, or an exception that nothing catches and that the
-- framework turns into a response 500.
use mock_idp.Common.{ℕ, String, Bool, true, false, Option, none, some, ◌≡◌, refl}

-- `http` holds the status and the detail; of a detail that is a dict it holds the entry `error`.
pub data Error : Type 0 where
  http : ℕ → String → Error
  uncaught : String → Error

pub data Result {ℓ} (T : Type ℓ) : Type ℓ where
  ok : T → Result T
  err : Error → Result T

-- `if test: raise error`
abbrev pub raise_if : Bool → Error → Result (Unit {0})
raise_if false error = ok tt
raise_if true error = err error

-- `if value is None: raise error`
abbrev pub or_raise {ℓ} : {T : Type ℓ} → Option T → Error → Result T
or_raise (some value) error = ok value
or_raise none error = err error

module _ {ℓ κ} {S : Type ℓ} {T : Type κ} where
  infixl 5 ◌>>=◌
  abbrev pub ◌>>=◌ : Result S → (S → Result T) → Result T
  err error >>= next = err error
  ok value >>= next = next value

  pub >>=-eq-ok :
      (first : Result S) (next : S → Result T) {t : T}
      → (first >>= next) ≡ ok t
      → (s : S) × (first ≡ ok s) × (next s ≡ ok t)
  >>=-eq-ok (err error) next h = cc
  >>=-eq-ok (ok s) next h = (s, refl, h)

-- a check before the rest of a call
infixl 5 ◌>>◌
abbrev pub ◌>>◌ {κ} : {T : Type κ} → Result (Unit {0}) → Result T → Result T
check >> rest = check >>= λ _. rest
