-- ===== src/Tokens/Overrides.antt =====
-- src/mock_idp/tokens.py: `apply_overrides` and `omit`.
pub mod Reserved
pub mod Omit
use mock_idp.Common.{
  String, Bool, true, false, Option, none, some, List, [], ◌∷◌, ◌==◌, if◌then◌else◌, elem, not,
}
use mock_idp.Text.{is_empty, or_empty, strip, split, parse_int}
use mock_idp.Dict.{Dict, lookup, insert, erase}
use mock_idp.Value.{Value, int, str, texts, Claims}
use mock_idp.Tokens.Roles.{comma_list}

abbrev pub list_claims : List String
list_claims = "roles" ∷ "groups" ∷ "amr" ∷ []

abbrev pub reserved_form_fields : List String
reserved_form_fields =
    "grant_type" ∷ "client_id" ∷ "client_secret" ∷ "username" ∷ "password" ∷ "resource" ∷ "scope"
    ∷ "iss" ∷ []

abbrev pub time_claims : List String
time_claims = "exp" ∷ "iat" ∷ "nbf" ∷ []

-- `int(v)`, or the text itself where that fails
unfoldable pub int_or_text : String → Value
unfolding parse_int
int_or_text v = elim (parse_int v) [ none ↦ str v | some n ↦ int n ]

-- the value that a form field gives its claim
unfoldable pub claim_value : String → String → Value
unfolding comma_list int_or_text
claim_value k v =
    if elem k list_claims
    then texts (comma_list v)
    else if elem k time_claims
    then int_or_text v
    else str v

-- whether the loop writes the claim of a form field
unfoldable pub writes : Bool → String → Bool
writes allow_iss k =
    if is_empty k
    then false
    else if k == "iss"
    then allow_iss
    else not (elem k reserved_form_fields)

-- one round of the loop
override_one : Bool → Claims → String → String → Claims
unfolding insert claim_value writes
override_one allow_iss claims k v =
    if is_empty k
    then claims
    else if k == "iss"
    then (if allow_iss then insert "iss" (str v) claims else claims)
    else if elem k reserved_form_fields
    then claims
    else insert k (claim_value k v) claims

unfoldable pub apply_overrides : Claims → Dict String → Bool → Claims
unfolding override_one
apply_overrides claims [] allow_iss = claims
apply_overrides claims ((k, v) ∷ form) allow_iss =
    apply_overrides (override_one allow_iss claims k v) form allow_iss

abbrev omit_one : Claims → String → Claims
omit_one claims name = if is_empty name then claims else erase name claims

-- the loop of `omit` over the pieces of the header
unfoldable pub omit_names : Claims → List String → Claims
unfolding strip erase
omit_names claims [] = claims
omit_names claims (name ∷ names) = omit_names (omit_one claims (strip name)) names

unfoldable pub omit : Claims → Option String → Claims
unfolding omit_names split
omit claims header_value = omit_names claims (split b',' (or_empty header_value))
