-- ===== src/Tokens/Roles/Layers.antt =====
-- The merge of the role layers in `resolve_roles`, and the X-Override-Roles header.
use mock_idp.Common.{
  String, Bool, true, not, ◌≡◌, refl, sym, ap, ◌∙◌, List, [], ◌∷◌, ◌++◌, ◌&&◌, ◌||◌, elem,
  elem-append, arith, keep, Bool-cases, inl, inr, ◌==◌, eq_iff,
}
use mathlib.Core.Path.{fun_ext}
use mathlib.Core.List.{append-nil, append_assoc}
use mock_idp.Dict.{lookup}
use mock_idp.Config.{Config}
use mock_idp.Tokens.Roles.{
  Identity, tenant_realm_roles, realm_roles, audience_roles, collect, resolve_roles,
}

-- Each text once, at its first place.
abbrev pub firsts : List String → List String
firsts [] = []
firsts (x ∷ xs) = x ∷ keep (λ y. not (x == y)) (firsts xs)

abbrev pub unseen : List String → List String → List String
unseen result rs = keep (λ y. not (elem y result)) rs

keep-keep :
    (p q : String → Bool) (xs : List String) → keep p (keep q xs) ≡ keep (λ x. q x && p x) xs
keep-keep p q [] = refl
keep-keep p q (x ∷ xs) = ground (arith, keep-keep p q xs)

keep_ext :
    (p q : String → Bool) (xs : List String) → ((x : String) → p x ≡ q x) → keep p xs ≡ keep q xs
keep_ext p q xs h = ap (λ t. keep t xs) (fun_ext h)

skip_seen :
    (r x : String) (result : List String)
    → elem r result ≡ true
    → (not (r == x) && not (elem x result)) ≡ not (elem x result)
skip_seen r x result seen = elim (Bool-cases (r == x)) [
  | inl same ↦ let e : elem x result ≡ true = rw (← (eq_iff r x).0 same) seen in rw (same, e)
  | inr other ↦ rw other
]

skip_new :
    (r x : String) (result : List String)
    → (not (r == x) && not (elem x result)) ≡ not (elem x (result ++ r ∷ []))
skip_new r x result = rw (elem-append x result (r ∷ [])) (ground (arith, eq_iff r x, eq_iff x r))

collect-firsts : (result rs : List String) → collect result rs ≡ result ++ unseen result (firsts rs)
unfolding collect
collect-firsts result [] = sym (append-nil result)
collect-firsts result (r ∷ rs) = elim (Bool-cases (elem r result)) [
  | inl seen ↦ rw seen (
      collect-firsts result rs
      ∙ ap (λ t. result ++ t)
          (sym (
            keep-keep _ _ (firsts rs) ∙ keep_ext _ _ (firsts rs) (λ x. skip_seen r x result seen))))
  | inr new ↦ rw new (
      collect-firsts (result ++ r ∷ []) rs
      ∙ append_assoc result (r ∷ []) _
      ∙ ap (λ t. result ++ r ∷ t)
          (sym (keep-keep _ _ (firsts rs) ∙ keep_ext _ _ (firsts rs) (λ x. skip_new r x result))))
]

keep_all : (xs : List String) → keep (λ y. not (elem y [])) xs ≡ xs
keep_all [] = refl
keep_all (x ∷ xs) = ap (λ t. x ∷ t) (keep_all xs)

-- The roles of a token are the tenant's, the identity's own realm roles and the roles for the
-- audience, in this order, each once and at its first place.
pub resolve_roles-firsts :
    (cfg : Config) (key : String) (identity : Identity) (aud : String)
    → resolve_roles cfg key identity aud
      ≡ firsts (
          tenant_realm_roles identity
          ++ realm_roles identity
          ++ audience_roles key identity (lookup aud cfg.client_apps))
unfolding resolve_roles
resolve_roles-firsts cfg key identity aud = collect-firsts [] _ ∙ keep_all _

elem-keep :
    (r x : String) (xs : List String)
    → elem r (keep (λ y. not (x == y)) xs) ≡ (elem r xs && not (x == r))
elem-keep r x [] = refl
elem-keep r x (y ∷ xs) = elim (Bool-cases (r == y)) [
  | inl same ↦ rw ((eq_iff r y).0 same) (ground (arith, elem-keep y x xs, eq_iff y y))
  | inr other ↦ ground (arith, elem-keep r x xs)
]

elem-firsts : (r : String) (xs : List String) → elem r (firsts xs) ≡ elem r xs
elem-firsts r [] = refl
elem-firsts r (x ∷ xs) =
    rw (elem-keep r x (firsts xs), elem-firsts r xs) (ground (arith, eq_iff r x, eq_iff x r))

-- A role stands in the token exactly when one of the three layers has it.
pub elem-resolve_roles :
    (cfg : Config) (key : String) (identity : Identity) (aud r : String)
    → elem r (resolve_roles cfg key identity aud) ≡ (
        elem r (tenant_realm_roles identity)
        || elem r (realm_roles identity)
        || elem r (audience_roles key identity (lookup aud cfg.client_apps)))
elem-resolve_roles cfg key identity aud r =
    rw
      (
        resolve_roles-firsts cfg key identity aud,
        elem-firsts r (
            tenant_realm_roles identity
            ++ realm_roles identity
            ++ audience_roles key identity (lookup aud cfg.client_apps)),
        elem-append,
        elem-append,
      )
      (ground arith)
