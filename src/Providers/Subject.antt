-- ===== src/Providers/Subject.antt =====
-- The subject and the audience in the claims of service principals.
use mock_idp.Common.{String, Bool, true, false, some, ◌≡◌, refl, List, [], if◌then◌else◌, ◌==◌}
use mock_idp.Int.{ℤ}
use mock_idp.Dict.{lookup, insert, update, lookup_last, first_of, lookup-update}
use mock_idp.Value.{str, Claims}
use mock_idp.Models.{ServicePrincipalRecord}
use mock_idp.Config.{Config}
use mock_idp.Result.{ok}
use mock_idp.Providers.Common.{Clock, common}
use mock_idp.Providers.EntraId
use mock_idp.Providers.Okta
use mock_idp.Providers.Cognito
use mock_idp.Providers.Keycloak
use mock_idp.Providers.Registry.{Provider, get_provider}
use mock_idp.Providers.Timed.{
  IsRegistered, is_entra_id, is_okta, is_cognito, is_keycloak, get_provider-IsRegistered,
}

-- the two claims of the subject and the audience
abbrev pub Named : Config → String → String → Claims → Claims → Type 0
Named cfg canonical_id aud extra c =
    (lookup "sub" c ≡ first_of (lookup_last "sub" extra) (some (str canonical_id)))
    × (lookup "aud" c ≡ first_of (lookup_last "aud" extra) (some (str aud)))

update-Named :
    (cfg : Config) (canonical_id aud : String) (c extra : Claims)
    → Named cfg canonical_id aud [] c
    → Named cfg canonical_id aud extra (update c extra)
update-Named cfg canonical_id aud c extra (sub, audience) =
    (rw (lookup-update "sub" c extra, sub) refl, rw (lookup-update "aud" c extra, audience) refl)

if-Named :
    (cfg : Config) (canonical_id aud : String) (b : Bool) (c d : Claims)
    → Named cfg canonical_id aud [] c
    → Named cfg canonical_id aud [] d
    → Named cfg canonical_id aud [] (if b then c else d)
if-Named cfg canonical_id aud true c d s t = s
if-Named cfg canonical_id aud false c d s t = t

sp_claims-Named :
    (cfg : Config) (clock : Clock) (issuer : String) (expires_in : ℤ) (p : Provider)
    (canonical_id : String) (sp : ServicePrincipalRecord) (aud shape : String) (roles : List String)
    → IsRegistered p
    → Named cfg canonical_id aud sp.extra_claims
        (p.sp_claims cfg clock issuer canonical_id sp aud shape expires_in roles)
unfolding EntraId.sp_claims Okta.sp_claims Cognito.sp_claims Keycloak.sp_claims common lookup insert
sp_claims-Named cfg clock issuer expires_in p canonical_id sp aud shape roles is_entra_id =
    update-Named cfg canonical_id aud _ sp.extra_claims
      (if-Named cfg canonical_id aud (shape == "v1") _ _ (refl, refl) (refl, refl))
sp_claims-Named cfg clock issuer expires_in p canonical_id sp aud shape roles is_okta =
    update-Named cfg canonical_id aud _ sp.extra_claims (refl, refl)
sp_claims-Named cfg clock issuer expires_in p canonical_id sp aud shape roles is_cognito =
    update-Named cfg canonical_id aud _ sp.extra_claims (refl, refl)
sp_claims-Named cfg clock issuer expires_in p canonical_id sp aud shape roles is_keycloak =
    update-Named cfg canonical_id aud _ sp.extra_claims (refl, refl)

-- With every provider the subject of a service principal is its canonical id and the audience is the
-- one asked for, unless its extra claims give other values.
sp_claims-subject :
    (cfg : Config) (clock : Clock) (issuer : String) (expires_in : ℤ) (name : String) (p : Provider)
    (canonical_id : String) (sp : ServicePrincipalRecord) (aud shape : String) (roles : List String)
    → get_provider name ≡ ok p
    → Named cfg canonical_id aud sp.extra_claims
        (p.sp_claims cfg clock issuer canonical_id sp aud shape expires_in roles)
sp_claims-subject cfg clock issuer expires_in name p canonical_id sp aud shape roles h =
    sp_claims-Named cfg clock issuer expires_in p canonical_id sp aud shape roles
      (get_provider-IsRegistered name h)
