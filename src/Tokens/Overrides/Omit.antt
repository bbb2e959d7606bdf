-- ===== src/Tokens/Overrides/Omit.antt =====
-- Which claims `omit` removes.
use mock_idp.Common.{
  String, not, ◌≡◌, refl, List, [], ◌∷◌, map, if◌then◌else◌, elem, arith, keep, Bool-cases, inl,
  inr, Option, none, eq_iff,
}
use mock_idp.Text.{is_empty, or_empty, strip, split}
use mock_idp.Dict.{lookup, erase, lookup-erase}
use mock_idp.Value.{Claims}
use mock_idp.Tokens.Roles.{comma_list}
use mock_idp.Tokens.Overrides.{omit_names, omit}

lookup-omit_names :
    (claims : Claims) (names : List String) (k : String)
    → lookup k (omit_names claims names)
      ≡ (if elem k (keep (λ r. not (is_empty r)) (map strip names)) then none else lookup k claims)
unfolding omit_names
lookup-omit_names claims [] k = refl
lookup-omit_names claims (n ∷ names) k = elim (Bool-cases (is_empty (strip n))) [
  | inl blank ↦ rw (blank, lookup-omit_names claims names k)
  | inr name ↦
      rw (name, lookup-omit_names (erase (strip n) claims) names k)
        (ground (arith, lookup-erase (strip n) k claims, eq_iff (strip n) k, eq_iff k (strip n)))
]

-- After `omit` a claim is gone if the header names it, and has its old value otherwise. The names
-- stand between commas, with the blanks around them stripped; an absent header names nothing.
pub lookup-omit :
    (claims : Claims) (header_value : Option String) (k : String)
    → lookup k (omit claims header_value)
      ≡ (if elem k (comma_list (or_empty header_value)) then none else lookup k claims)
unfolding omit comma_list
lookup-omit claims header_value k = lookup-omit_names claims (split b',' (or_empty header_value)) k
