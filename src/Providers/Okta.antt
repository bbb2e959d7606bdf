-- ===== src/Providers/Okta.antt =====
-- src/mock_idp/providers/okta.py
use mock_idp.Common.{String, Option, List}
use mock_idp.Int.{ℤ}
use mock_idp.Dict.{insert, update}
use mock_idp.Value.{str, texts, Claims}
use mock_idp.Models.{UserRecord, ServicePrincipalRecord}
use mock_idp.Config.{Config}
use mock_idp.Providers.Common.{Clock, common, insert_client, first_of_texts, spaced}

unfoldable pub user_claims :
    Config
    → Clock
    → String
    → UserRecord
    → String
    → String
    → ℤ
    → List String
    → Option String
    → Claims
unfolding common insert update
user_claims cfg clock issuer user aud shape expires_in roles oauth_client_id =
    let c = common cfg clock issuer aud expires_in in
    let c = insert "sub" (str (first_of_texts user.upn user.preferred_username user.oid)) c in
    let c = insert "uid" (str user.oid) c in
    let c = insert "groups" (texts user.groups) c in
    let c = insert "scp" (str (spaced roles "openid profile email")) c in
    update (insert_client "cid" oauth_client_id c) user.extra_claims

unfoldable pub sp_claims :
    Config
    → Clock
    → String
    → String
    → ServicePrincipalRecord
    → String
    → String
    → ℤ
    → List String
    → Claims
unfolding common insert update
sp_claims cfg clock issuer canonical_id sp aud shape expires_in roles =
    let c = common cfg clock issuer aud expires_in in
    let c = insert "sub" (str canonical_id) c in
    let c = insert "cid" (str canonical_id) c in
    let c = insert "scp" (str (spaced roles "openid")) c in
    let c = insert "groups" (texts sp.groups) c in update c sp.extra_claims
