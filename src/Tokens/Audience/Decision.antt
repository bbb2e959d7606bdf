-- ===== src/Tokens/Audience/Decision.antt =====
-- Which identities pass the audience gate.
use mock_idp.Common.{
  String, true, ◌≡◌, ◌≢◌, refl, ◌↔◌, inl, inr, List, elem, arith, Bool-cases, Option, none, some,
  ◌==◌, eq_iff,
}
use mock_idp.Dict.{lookup, contains_of_lookup, lookup_of_contains}
use mock_idp.Models.{ClientAppRecord}
use mock_idp.Config.{Config}
use mock_idp.Result.{ok}
use mock_idp.Tokens.Roles.{Identity, grants_key, allowed_audiences}
use mock_idp.Tokens.Audience.{effective, overrides, has_access, check_audience}

-- why an identity may ask for an audience
pub data Allowed (cfg : Config) (key : String) (identity : Identity) (aud : String)
    (mode : Option String) : Type 0 where
  lax : effective cfg.mode mode ≢ "strict" → Allowed cfg key identity aud mode
  trusted : overrides identity ≡ true → Allowed cfg key identity aud mode
  granted :
      (app : ClientAppRecord) (names : List String)
      → lookup aud cfg.client_apps ≡ some app
      → lookup (grants_key key identity) app.grants ≡ some names
      → Allowed cfg key identity aud mode
  listed :
      lookup aud cfg.client_apps ≡ none
      → elem aud (allowed_audiences identity) ≡ true
      → Allowed cfg key identity aud mode

has_access-Allowed :
    (cfg : Config) (key : String) (identity : Identity) (aud : String) (mode : Option String)
    (app : Option ClientAppRecord)
    → lookup aud cfg.client_apps ≡ app
    → has_access key identity aud app ≡ true
    → Allowed cfg key identity aud mode
has_access-Allowed cfg key identity aud mode none e h = listed e h
has_access-Allowed cfg key identity aud mode (some app) e h =
    let (names, found) = lookup_of_contains (grants_key key identity) app.grants h in
    granted app names e found

check_sound :
    (cfg : Config) (key : String) (identity : Identity) (aud : String) (mode : Option String)
    → check_audience cfg key identity aud mode ≡ ok tt
    → Allowed cfg key identity aud mode
unfolding check_audience
check_sound cfg key identity aud mode h = elim (Bool-cases (effective cfg.mode mode == "strict")) [
  | inr off ↦ lax (λ e. ground (arith, eq_iff (effective cfg.mode mode) "strict"))
  | inl on ↦ elim (Bool-cases (overrides identity)) [
    | inl t ↦ trusted t
    | inr plain ↦ has_access-Allowed cfg key identity aud mode _ refl (ground arith)
  ]
]

check_complete :
    {cfg : Config} {key : String} {identity : Identity} {aud : String} {mode : Option String}
    → Allowed cfg key identity aud mode
    → check_audience cfg key identity aud mode ≡ ok tt
unfolding check_audience
check_complete {cfg} {mode} (lax off) = ground (arith, eq_iff (effective cfg.mode mode) "strict")
check_complete (trusted t) = ground arith
check_complete {key} {identity} (granted app names found has) =
    rw found (ground (arith, contains_of_lookup (grants_key key identity) app.grants has))
check_complete (listed missing has) = rw (missing) (ground arith)

-- The gate lets an identity through exactly for one of four reasons: the mode is not strict, the
-- identity is a service principal that may override claims, the audience's app has a grant under
-- the identity's key, or there is no such app and the identity lists the audience.
pub check_audience-ok_iff :
    (cfg : Config) (key : String) (identity : Identity) (aud : String) (mode : Option String)
    → (check_audience cfg key identity aud mode ≡ ok tt) ↔ Allowed cfg key identity aud mode
check_audience-ok_iff cfg key identity aud mode =
    (check_sound cfg key identity aud mode, check_complete)
