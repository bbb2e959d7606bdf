-- ===== src/Providers/Timed.antt =====
-- The issuer and the times in the claims of all providers.
use mock_idp.Common.{
  String, Bool, true, false, Option, some, ◌≡◌, refl, subst, List, [], if◌then◌else◌, ◌==◌,
  Bool-cases, inl, inr,
}
use mock_idp.Int.{ℤ, pos, ◌+ℤ◌}
use mock_idp.Text.{truthy, ◌<>◌}
use mock_idp.Dict.{lookup, insert, update, lookup_last, first_of, lookup-update}
use mock_idp.Value.{int, str, Claims}
use mock_idp.Models.{UserRecord, ServicePrincipalRecord}
use mock_idp.Config.{Config}
use mock_idp.Result.{ok}
use mock_idp.Providers.Common.{Clock, common}
use mock_idp.Providers.EntraId
use mock_idp.Providers.Okta
use mock_idp.Providers.Cognito
use mock_idp.Providers.Keycloak
use mock_idp.Providers.Registry.{Provider, get_provider, entra_id, okta, cognito, keycloak}

pub data IsRegistered : Provider → Type 0 where
  is_entra_id : IsRegistered entra_id
  is_okta : IsRegistered okta
  is_cognito : IsRegistered cognito
  is_keycloak : IsRegistered keycloak

ok_eq : {p q : Provider} → ok p ≡ ok q → p ≡ q
ok_eq h = cc

pub get_provider-IsRegistered :
    (name : String) {p : Provider} → get_provider name ≡ ok p → IsRegistered p
unfolding get_provider
get_provider-IsRegistered name {p} h = elim (Bool-cases (name == "entra_id")) [
  | inl y1 ↦ subst IsRegistered (ok_eq (rw y1 at h)) is_entra_id
  | inr n1 ↦
      let h1 = rw n1 at h in
      elim (Bool-cases (name == "okta")) [
        | inl y2 ↦ subst IsRegistered (ok_eq (rw y2 at h1)) is_okta
        | inr n2 ↦
            let h2 = rw n2 at h1 in
            elim (Bool-cases (name == "cognito")) [
              | inl y3 ↦ subst IsRegistered (ok_eq (rw y3 at h2)) is_cognito
              | inr n3 ↦
                  let h3 = rw n3 at h2 in
                  elim (Bool-cases (name == "keycloak")) [
                    | inl y4 ↦ subst IsRegistered (ok_eq (rw y4 at h3)) is_keycloak
                    | inr n4 ↦ absurd (cc (rw n4 at h3))
                  ]
            ]
      ]
]

module _ (cfg : Config) (clock : Clock) (issuer : String) (expires_in : ℤ) where
  -- The claims name the issuer and give the times of the token, unless the extra claims of the identity
  -- say otherwise.
  pub record Timed (extra c : Claims) : Type 0 where
    pub iss :
        lookup "iss" c
        ≡ first_of (lookup_last "iss" extra) (some (str (cfg.iss_base <> "/" <> issuer)))
    pub iat : lookup "iat" c ≡ first_of (lookup_last "iat" extra) (some (int (pos clock.built)))
    pub nbf : lookup "nbf" c ≡ first_of (lookup_last "nbf" extra) (some (int (pos clock.built)))
    pub exp :
        lookup "exp" c
        ≡ first_of (lookup_last "exp" extra) (some (int (pos clock.built +ℤ expires_in)))

  update-Timed : (c extra : Claims) → Timed [] c → Timed extra (update c extra)
  update-Timed c extra t = record {
    iss = rw (lookup-update "iss" c extra, t.iss) refl;
    iat = rw (lookup-update "iat" c extra, t.iat) refl;
    nbf = rw (lookup-update "nbf" c extra, t.nbf) refl;
    exp = rw (lookup-update "exp" c extra, t.exp) refl;
  }

  if-Timed : (b : Bool) (c d : Claims) → Timed [] c → Timed [] d → Timed [] (if b then c else d)
  if-Timed true c d s t = s
  if-Timed false c d s t = t

  registered_user :
      (p : Provider) (user : UserRecord) (aud shape : String) (roles : List String)
      (client_id : Option String)
      → IsRegistered p
      → Timed user.extra_claims
          (p.user_claims cfg clock issuer user aud shape expires_in roles client_id)
  unfolding EntraId.user_claims Okta.user_claims Cognito.user_claims Keycloak.user_claims common
      lookup insert
  registered_user p user aud shape roles client_id is_entra_id = update-Timed _ user.extra_claims (
      if-Timed (shape == "v1") _ _
        (if-Timed (truthy client_id) _ _ (record { iss = refl; iat = refl; nbf = refl; exp = refl })
          (record { iss = refl; iat = refl; nbf = refl; exp = refl }))
        (if-Timed (truthy client_id) _ _ (record { iss = refl; iat = refl; nbf = refl; exp = refl })
          (record { iss = refl; iat = refl; nbf = refl; exp = refl })))
  registered_user p user aud shape roles client_id is_okta = update-Timed _ user.extra_claims (
      if-Timed (truthy client_id) _ _ (record { iss = refl; iat = refl; nbf = refl; exp = refl })
        (record { iss = refl; iat = refl; nbf = refl; exp = refl }))
  registered_user p user aud shape roles client_id is_cognito = update-Timed _ user.extra_claims (
      if-Timed (truthy client_id) _ _ (record { iss = refl; iat = refl; nbf = refl; exp = refl })
        (record { iss = refl; iat = refl; nbf = refl; exp = refl }))
  registered_user p user aud shape roles client_id is_keycloak = update-Timed _ user.extra_claims (
      if-Timed (truthy client_id) _ _ (record { iss = refl; iat = refl; nbf = refl; exp = refl })
        (record { iss = refl; iat = refl; nbf = refl; exp = refl }))

  registered_sp :
      (p : Provider) (canonical_id : String) (sp : ServicePrincipalRecord) (aud shape : String)
      (roles : List String)
      → IsRegistered p
      → Timed sp.extra_claims
          (p.sp_claims cfg clock issuer canonical_id sp aud shape expires_in roles)
  unfolding EntraId.sp_claims Okta.sp_claims Cognito.sp_claims Keycloak.sp_claims common lookup
      insert
  registered_sp p canonical_id sp aud shape roles is_entra_id = update-Timed _ sp.extra_claims (
      if-Timed (shape == "v1") _ _ (record { iss = refl; iat = refl; nbf = refl; exp = refl })
        (record { iss = refl; iat = refl; nbf = refl; exp = refl }))
  registered_sp p canonical_id sp aud shape roles is_okta =
      update-Timed _ sp.extra_claims (record { iss = refl; iat = refl; nbf = refl; exp = refl })
  registered_sp p canonical_id sp aud shape roles is_cognito =
      update-Timed _ sp.extra_claims (record { iss = refl; iat = refl; nbf = refl; exp = refl })
  registered_sp p canonical_id sp aud shape roles is_keycloak =
      update-Timed _ sp.extra_claims (record { iss = refl; iat = refl; nbf = refl; exp = refl })

  -- With every provider that a name stands for, the claims of a user name the issuer under its base URL,
  -- are issued and valid now, and expire after the given lifetime, unless the user's extra claims give
  -- other values, which are then used.
  pub user_claims-Timed :
      (name : String) (p : Provider) (user : UserRecord) (aud shape : String) (roles : List String)
      (client_id : Option String)
      → get_provider name ≡ ok p
      → Timed user.extra_claims
          (p.user_claims cfg clock issuer user aud shape expires_in roles client_id)
  user_claims-Timed name p user aud shape roles client_id h =
      registered_user p user aud shape roles client_id (get_provider-IsRegistered name h)

  -- The same of the claims of a service principal and its extra claims; the issuer, the times and the
  -- expiry do not depend on the provider.
  pub sp_claims-Timed :
      (name : String) (p : Provider) (canonical_id : String) (sp : ServicePrincipalRecord)
      (aud shape : String) (roles : List String)
      → get_provider name ≡ ok p
      → Timed sp.extra_claims
          (p.sp_claims cfg clock issuer canonical_id sp aud shape expires_in roles)
  sp_claims-Timed name p canonical_id sp aud shape roles h =
      registered_sp p canonical_id sp aud shape roles (get_provider-IsRegistered name h)
