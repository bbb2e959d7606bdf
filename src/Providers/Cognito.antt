-- ===== src/Providers/Cognito.antt =====
-- src/mock_idp/providers/cognito.py
use mock_idp.Common.{String, Option, List}
use mock_idp.Int.{ℤ, pos}
use mock_idp.Dict.{insert, update}
use mock_idp.Value.{int, str, texts, Claims}
use mock_idp.Models.{UserRecord, ServicePrincipalRecord}
use mock_idp.Config.{Config}
use mock_idp.Providers.Common.{Clock, common, insert_client, first_of_texts, spaced}

unfoldable pub user_claims :
    Config
    → Clock
    → String
    → UserRecord
    → String
    → String
    → ℤ
    → List String
    → Option String
    → Claims
unfolding common insert update
user_claims cfg clock issuer user aud shape expires_in roles oauth_client_id =
    let c = common cfg clock issuer aud expires_in in
    let c = insert "sub" (str user.oid) c in
    let c = insert "token_use" (str "access") c in
    let c = insert "auth_time" (int (pos clock.authenticated)) c in
    let name = first_of_texts user.preferred_username user.upn "unknown" in
    let c = insert "cognito:username" (str name) c in
    let c = insert "cognito:groups" (texts user.groups) c in
    let c = insert "scope" (str (spaced roles "openid profile email")) c in
    update (insert_client "client_id" oauth_client_id c) user.extra_claims

unfoldable pub sp_claims :
    Config
    → Clock
    → String
    → String
    → ServicePrincipalRecord
    → String
    → String
    → ℤ
    → List String
    → Claims
unfolding common insert update
sp_claims cfg clock issuer canonical_id sp aud shape expires_in roles =
    let c = common cfg clock issuer aud expires_in in
    let c = insert "sub" (str canonical_id) c in
    let c = insert "token_use" (str "access") c in
    let c = insert "client_id" (str canonical_id) c in
    let c = insert "scope" (str (spaced roles "openid")) c in update c sp.extra_claims
