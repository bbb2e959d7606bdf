-- ===== src/Providers/Keycloak.antt =====
-- src/mock_idp/providers/keycloak.py
use mock_idp.Common.{String, Option, List, [], ◌∷◌, if◌then◌else◌}
use mock_idp.Int.{ℤ}
use mock_idp.Text.{or_empty, truthy}
use mock_idp.Dict.{insert, update}
use mock_idp.Value.{Value, str, dict, texts, fields, Claims}
use mock_idp.Models.{UserRecord, ServicePrincipalRecord}
use mock_idp.Config.{Config}
use mock_idp.Providers.Common.{Clock, common, first_of_texts}

-- `{k: v}`
abbrev pub entry : String → Value → Value
entry k v = dict (fields ((k, v) ∷ []))

-- the claims of the client through which a user signs in
abbrev pub client_access : Option String → List String → Claims → Claims
client_access client_id roles c =
    if truthy client_id
    then insert "resource_access" (entry (or_empty client_id) (entry "roles" (texts roles)))
        (insert "azp" (str (or_empty client_id)) c)
    else c

unfoldable pub user_claims :
    Config
    → Clock
    → String
    → UserRecord
    → String
    → String
    → ℤ
    → List String
    → Option String
    → Claims
unfolding common insert update
user_claims cfg clock issuer user aud shape expires_in roles oauth_client_id =
    let c = common cfg clock issuer aud expires_in in
    let c = insert "sub" (str user.oid) c in
    let name = first_of_texts user.preferred_username user.upn "unknown" in
    let c = insert "preferred_username" (str name) c in
    let c = insert "email" (str (first_of_texts user.upn user.preferred_username "")) c in
    let c = insert "realm_access" (entry "roles" (texts roles)) c in
    let c = insert "scope" (str "openid profile email") c in
    update (client_access oauth_client_id roles c) user.extra_claims

unfoldable pub sp_claims :
    Config
    → Clock
    → String
    → String
    → ServicePrincipalRecord
    → String
    → String
    → ℤ
    → List String
    → Claims
unfolding common insert update
sp_claims cfg clock issuer canonical_id sp aud shape expires_in roles =
    let c = common cfg clock issuer aud expires_in in
    let c = insert "sub" (str canonical_id) c in
    let c = insert "azp" (str canonical_id) c in
    let c = insert "realm_access" (entry "roles" (texts roles)) c in
    let c = insert "resource_access" (entry canonical_id (entry "roles" (texts roles))) c in
    let c = insert "scope" (str "openid") c in update c sp.extra_claims
