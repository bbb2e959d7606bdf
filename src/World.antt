-- ===== src/World.antt =====
-- The state that a request can change and the calls that change it: a state monad with exceptions.
-- What was written before an exception stays written.
pub mod Calls
use mock_idp.Common.{ℕ, String, Bool, true, false, Option, none, some, List, if◌then◌else◌}
use mock_idp.Dict.{Dict}
use mock_idp.Value.{Claims}
use mock_idp.Keys.{KeyStore}
use mock_idp.Chaos.{Faults}
use mock_idp.Result.{Result, ok, err, Error}

pub record World : Type 0 where
  -- the module state of keys.py
  pub keys : KeyStore
  -- the module state of chaos.py
  pub faults : Faults
  -- the audit log of the store
  pub audit : List Claims
  -- the webhook requests that were made, each with its URL and its body
  pub posts : List (String × Claims)
  -- the times slept, in milliseconds
  pub slept : List ℕ
  -- the accepted requests to the sandbox of each address, by their times in units of 2⁻²² s
  pub hits : Dict (List ℕ)

-- a call that changes a state and may end in an exception
abbrev pub Stateful : Type 0 → Type 0 → Type 0
Stateful S A = S → Result A × S

abbrev pub Action : Type 0 → Type 0
Action A = Stateful World A

module _ {S A : Type 0} where
  abbrev pub pure : A → Stateful S A
  pure a s = (ok a, s)

  abbrev pub raise : Error → Stateful S A
  raise e s = (err e, s)

  abbrev pub lift : Result A → Stateful S A
  lift r s = (r, s)

abbrev pub modify : {S : Type 0} → (S → S) → Stateful S (Unit {0})
modify f s = (ok tt, f s)

unfoldable pub bind : {S A B : Type 0} → Result A × S → (A → Stateful S B) → Result B × S
bind (ok a, s) f = f a s
bind (err e, s) f = (err e, s)

infixl 5 ◌>>=◌ ◌>>◌
abbrev pub ◌>>=◌ : {S A B : Type 0} → Stateful S A → (A → Stateful S B) → Stateful S B
◌>>=◌ m f s = bind (m s) f

abbrev pub ◌>>◌ : {S B : Type 0} → Stateful S (Unit {0}) → Stateful S B → Stateful S B
m >> k = m >>= λ _. k
