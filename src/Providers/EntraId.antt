-- ===== src/Providers/EntraId.antt =====
-- src/mock_idp/providers/entra_id.py
use mock_idp.Common.{String, Option, List, if◌then◌else◌, ◌==◌}
use mock_idp.Int.{ℤ}
use mock_idp.Dict.{insert, update}
use mock_idp.Value.{str, texts, Claims}
use mock_idp.Models.{UserRecord, ServicePrincipalRecord}
use mock_idp.Config.{Config}
use mock_idp.Tokens.Resolve.{resolve_user_aud}
use mock_idp.Providers.Common.{Clock, common, str_or_null, insert_client}

-- the claims of shape v1 or v2 of a user
abbrev user_shape : UserRecord → String → Option String → Claims → Claims
user_shape user shape oauth_client_id c =
    if shape == "v1"
    then insert_client "appid" oauth_client_id (
        insert "ver" (str "1.0")
          (insert "unique_name" (str_or_null user.upn) (insert "upn" (str_or_null user.upn) c)))
    else insert_client "azp" oauth_client_id (
        insert "ver" (str "2.0")
          (insert "preferred_username" (str_or_null user.preferred_username) c))

unfoldable pub user_claims :
    Config
    → Clock
    → String
    → UserRecord
    → String
    → String
    → ℤ
    → List String
    → Option String
    → Claims
unfolding common insert update resolve_user_aud
user_claims cfg clock issuer user aud shape expires_in roles oauth_client_id =
    let c = common cfg clock issuer (resolve_user_aud cfg aud) expires_in in
    let c = insert "sub" (str user.oid) c in
    let c = insert "oid" (str user.oid) c in
    let c = insert "tid" (str user.tid) c in
    let c = insert "roles" (texts roles) c in
    let c = insert "groups" (texts user.groups) c in
    update (user_shape user shape oauth_client_id c) user.extra_claims

abbrev sp_shape : String → String → Claims → Claims
sp_shape canonical_id shape c =
    if shape == "v1"
    then insert "ver" (str "1.0") (insert "appid" (str canonical_id) c)
    else insert "ver" (str "2.0") (insert "azp" (str canonical_id) c)

unfoldable pub sp_claims :
    Config
    → Clock
    → String
    → String
    → ServicePrincipalRecord
    → String
    → String
    → ℤ
    → List String
    → Claims
unfolding common insert update
sp_claims cfg clock issuer canonical_id sp aud shape expires_in roles =
    let c = common cfg clock issuer aud expires_in in
    let c = insert "sub" (str canonical_id) c in
    let c = insert "tid" (str sp.tid) c in
    let c = insert "roles" (texts roles) c in
    let c = insert "groups" (texts sp.groups) c in
    update (sp_shape canonical_id shape c) sp.extra_claims
