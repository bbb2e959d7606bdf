-- ===== src/Tokens/Overrides/Reserved.antt =====
-- What `apply_overrides` writes, claim by claim.
use mock_idp.Common.{
  String, Bool, true, false, ◌≡◌, refl, inl, inr, [], ◌∷◌, ◌&&◌, if◌then◌else◌, elem, arith,
  Bool-cases, Option, none, some, ◌==◌, eq_iff,
}
use mock_idp.Dict.{Dict, lookup, insert, lookup-insert}
use mock_idp.Value.{Value, Claims}
use mock_idp.Tokens.Overrides.{
  reserved_form_fields, claim_value, writes, override_one, apply_overrides,
}

abbrev pub or_old : Option Value → Option Value → Option Value
or_old none old = old
or_old (some v) old = some v

-- the value of the last field of the form that the loop writes to claim `k`
abbrev pub last_override : Bool → String → Dict String → Option Value
last_override allow_iss k [] = none
last_override allow_iss k ((j, v) ∷ form) =
    or_old (last_override allow_iss k form)
      (if j == k && writes allow_iss j then some (claim_value j v) else none)

override_one_iss :
    (allow_iss : Bool) (claims : Claims) (v : String)
    → override_one allow_iss claims "iss" v
      ≡ (if writes allow_iss "iss" then insert "iss" (claim_value "iss" v) claims else claims)
unfolding override_one writes claim_value
override_one_iss true claims v = refl
override_one_iss false claims v = refl

override_one-writes :
    (allow_iss : Bool) (claims : Claims) (k v : String)
    → override_one allow_iss claims k v
      ≡ (if writes allow_iss k then insert k (claim_value k v) claims else claims)
unfolding override_one writes claim_value
override_one-writes allow_iss claims k v = elim (Bool-cases (k == "iss")) [
  | inl same ↦ rw ((eq_iff k "iss").0 same) (override_one_iss allow_iss claims v)
  | inr other ↦ rw other (ground arith)
]

lookup-override_one :
    (allow_iss : Bool) (claims : Claims) (j v k : String)
    → lookup k (override_one allow_iss claims j v)
      ≡ (if j == k && writes allow_iss j then some (claim_value j v) else lookup k claims)
lookup-override_one allow_iss claims j v k =
    ground
      (arith, override_one-writes allow_iss claims j v, lookup-insert j k (claim_value j v) claims)

-- After the overrides a claim has the value of the last form field that may write it, and its old
-- value if there is none. A field may write its claim if its name is not empty and not reserved, or
-- is `iss` where that is allowed.
lookup-apply_overrides :
    (claims : Claims) (form : Dict String) (allow_iss : Bool) (k : String)
    → lookup k (apply_overrides claims form allow_iss)
      ≡ or_old (last_override allow_iss k form) (lookup k claims)
unfolding apply_overrides
lookup-apply_overrides claims [] allow_iss k = refl
lookup-apply_overrides claims ((j, v) ∷ form) allow_iss k = ground (
  arith,
  lookup-apply_overrides (override_one allow_iss claims j v) form allow_iss k,
  lookup-override_one allow_iss claims j v k,
)

writes_reserved : (k : String) → elem k reserved_form_fields ≡ true → writes false k ≡ false
unfolding writes
writes_reserved k h = ground arith

last_override-none :
    (k : String) (form : Dict String)
    → elem k reserved_form_fields ≡ true
    → last_override false k form ≡ none
last_override-none k [] h = refl
last_override-none k ((j, v) ∷ form) h = elim (Bool-cases (j == k)) [
  | inl same ↦
      let silent : writes false j ≡ false = writes_reserved j (rw ((eq_iff j k).0 same) h) in
      rw (last_override-none k form h, same, silent)
  | inr other ↦ rw (last_override-none k form h, other)
]

-- A claim that is named like a reserved form field keeps its value, if overriding `iss` is not
-- allowed: the credentials of a request never reach the token, and neither does its `iss`.
pub apply_overrides-reserved :
    (claims : Claims) (form : Dict String) (k : String)
    → elem k reserved_form_fields ≡ true
    → lookup k (apply_overrides claims form false) ≡ lookup k claims
apply_overrides-reserved claims form k h =
    rw (lookup-apply_overrides claims form false k, last_override-none k form h)
