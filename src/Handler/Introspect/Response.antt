-- ===== src/Handler/Introspect/Response.antt =====
-- Which claims of a token the answer of the introspection shows.
use mock_idp.Common.{
  String, true, false, Option, none, some, ◌≡◌, refl, [], ◌∷◌, if◌then◌else◌, elem, ◌==◌, eq_iff,
  Bool-cases, inl, inr,
}
use mock_idp.Dict.{lookup, insert, contains, lookup-insert, lookup_last}
use mock_idp.Value.{Value, bool, str, Claims}
use mock_idp.Handler.Introspect.{active_response, pass_claims, pass_through, add_client}

-- what the loop over the claims makes of the response's entry for a name
abbrev pass_one : String → Option Value → Option Value → Option Value
pass_one k none old = old
pass_one k (some v) old = if elem k pass_through then some v else old

pass_first :
    (c k : String) (v : Value) (m old : Option Value)
    → elem c pass_through ≡ true
    → pass_one k m (if c == k then some v else old)
      ≡ pass_one k (elim m [ none ↦ if c == k then some v else none | some w ↦ some w ]) old
pass_first c k v none old passed = elim (Bool-cases (c == k)) [
  | inl same ↦ let eq = (eq_iff c k).0 same in rw same (rw (← eq) (rw passed refl))
  | inr other ↦ rw other refl
]
pass_first c k v (some w) old passed = elim (Bool-cases (c == k)) [
  | inl same ↦ let eq = (eq_iff c k).0 same in rw same (rw (← eq) (rw passed refl))
  | inr other ↦ rw other refl
]

hold_first :
    (c k : String) (v : Value) (m old : Option Value)
    → elem c pass_through ≡ false
    → pass_one k m old
      ≡ pass_one k (elim m [ none ↦ if c == k then some v else none | some w ↦ some w ]) old
hold_first c k v none old held = elim (Bool-cases (c == k)) [
  | inl same ↦ let eq = (eq_iff c k).0 same in rw same (rw (← eq) (rw held refl))
  | inr other ↦ rw other refl
]
hold_first c k v (some w) old held = refl

lookup-pass_claims :
    (k : String) (response claims : Claims)
    → lookup k (pass_claims response claims) ≡ pass_one k (lookup_last k claims) (lookup k response)
unfolding pass_claims
lookup-pass_claims k response [] = refl
lookup-pass_claims k response ((c, v) ∷ claims) = elim (Bool-cases (elem c pass_through)) [
  | inl passed ↦
      rw (passed, lookup-pass_claims k (insert c v response) claims, lookup-insert c k v response)
        (pass_first c k v (lookup_last k claims) (lookup k response) passed)
  | inr held ↦
      rw (held, lookup-pass_claims k response claims)
        (hold_first c k v (lookup_last k claims) (lookup k response) held)
]

lookup-add_client :
    (k : String) (azp : Option Value) (response : Claims)
    → lookup "client_id" response ≡ none
    → lookup k (add_client azp response) ≡ (if "client_id" == k then azp else lookup k response)
lookup-add_client k none response h = elim (Bool-cases ("client_id" == k)) [
  | inl same ↦ let eq = (eq_iff "client_id" k).0 same in rw same (rw (← eq) h)
  | inr other ↦ rw other refl
]
lookup-add_client k (some v) response h = rw (h, contains) (lookup-insert "client_id" k v response)

-- the response before the claims are added
abbrev pub first_fields : Claims
first_fields = ("active", bool true) ∷ ("token_type", str "Bearer") ∷ []

passed_elsewhere : (k : String) → elem k pass_through ≡ true → lookup k first_fields ≡ none
unfolding lookup
passed_elsewhere k h = elim (Bool-cases ("active" == k)) [
  | inl same ↦ absurd (cc (rw (← (eq_iff "active" k).0 same) at h))
  | inr no1 ↦ elim (Bool-cases ("token_type" == k)) [
    | inl same ↦ absurd (cc (rw (← (eq_iff "token_type" k).0 same) at h))
    | inr no2 ↦ rw (no1, no2) refl
  ]
]

shown :
    (k : String) (m : Option Value)
    → pass_one k m (lookup k first_fields)
      ≡ (if elem k pass_through then m else lookup k first_fields)
shown k none = elim (Bool-cases (elem k pass_through)) [
  | inl yes1 ↦ rw yes1 (passed_elsewhere k yes1)
  | inr no1 ↦ rw no1 refl
]
shown k (some v) = refl

-- An active answer shows a claim of the token, the last of its name, only if it is one of those that
-- are passed through. Apart from these it says that the token is active and a bearer token, and gives
-- as `client_id` the claim `azp` of the token.
lookup-active_response :
    (claims : Claims) (k : String)
    → lookup k (active_response claims) ≡ (
        if "client_id" == k
        then lookup "azp" claims
        else if elem k pass_through
        then lookup_last k claims
        else lookup k first_fields)
unfolding active_response lookup
lookup-active_response claims k =
    rw
      (lookup-add_client k (lookup "azp" claims) (pass_claims first_fields claims) (
        rw (lookup-pass_claims "client_id" first_fields claims)
          (shown "client_id" (lookup_last "client_id" claims))))
      (rw (lookup-pass_claims k first_fields claims) (rw (shown k (lookup_last k claims)) refl))
