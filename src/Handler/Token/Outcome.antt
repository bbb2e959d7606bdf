-- ===== src/Handler/Token/Outcome.antt =====
-- What the checks of the four grants establish when they succeed.
use mock_idp.Common.{
  String, Bool, true, false, Option, none, some, ◌≡◌, refl, ap, ◌∙◌, subst, List, if◌then◌else◌,
  eq_iff,
}
use mock_idp.Int.{ℤ}
use mock_idp.Text.{is_empty}
use mock_idp.Dict.{Dict, lookup}
use mock_idp.Value.{Claims}
use mock_idp.Models.{UserRecord, ServicePrincipalRecord}
use mock_idp.Keys.{KeyStore}
use mock_idp.Result.{ok, err, http, raise_if, or_raise, Error, >>=-eq-ok}
use mock_idp.World.{World, bind}
use mock_idp.World.Calls.{lift_ok}
use mock_idp.Tokens.Roles.{user, service}
use mock_idp.Tokens.Audience.{check_audience}
use mock_idp.Tokens.Audience.Decision.{Allowed, check_audience-ok_iff}
use mock_idp.Tokens.Signing.{verify_token}
use mock_idp.Handler.Context.{Env, TokenContext}
use mock_idp.Handler.Grants.{
  Issued, is_text, find_user, find_sp, user_key, sp_key, check_password, check_secret, user_token,
  sp_token, full_sp_token, password_grant, client_grant,
}
use mock_idp.Handler.Token.{is_expired, presented}

-- the user of a request has shown its password
pub data HasPassword (ctx : TokenContext) (form : Dict String) (u : UserRecord) : Type 0 where
  has_password :
      lookup (user_key form) ctx.users ≡ some u
      → lookup "password" form ≡ some u.password
      → HasPassword ctx form u

-- the service principal of a request has shown its secret
pub data HasSecret (ctx : TokenContext) (form : Dict String) (sp : ServicePrincipalRecord)
    : Type 0 where
  has_secret :
      lookup (sp_key form) ctx.service_principals ≡ some sp
      → lookup "client_secret" form ≡ some sp.secret
      → HasSecret ctx form sp

-- a token that the issuer's keys verify and that has not expired
pub data Presents (env : Env) (ctx : TokenContext) (issuer : String) (keys : KeyStore)
    (token : String) : Type 0 where
  presents :
      (claims : Claims)
      → is_empty token ≡ false
      → verify_token env.codec token (ctx.keys.jwks_keys issuer keys).0 ≡ some claims
      → is_expired env claims ≡ ok false
      → Presents env ctx issuer keys token

pub is_text-eq : (o : Option String) (s : String) → is_text o s ≡ true → o ≡ some s
is_text-eq none s h = cc
is_text-eq (some t) s h = ap some ((eq_iff t s).0 h)

raise_if-ok : (b : Bool) (e : Error) → raise_if b e ≡ ok tt → b ≡ false
raise_if-ok true e h = cc
raise_if-ok false e h = refl

or_raise-ok : {A : Type 0} (o : Option A) (e : Error) {a : A} → or_raise o e ≡ ok a → o ≡ some a
or_raise-ok none e h = cc
or_raise-ok (some a) e h = cc

pub if_ok :
    {A : Type 0} (b : Bool) (a : A) (e : Error) {a' : A}
    → (if b then ok a else err e) ≡ ok a'
    → (b ≡ true) × (a ≡ a')
if_ok true a e h = (refl, cc)
if_ok false a e h = cc

check_password-ok :
    (ctx : TokenContext) (form : Dict String) (o : Option UserRecord) {u : UserRecord}
    → lookup (user_key form) ctx.users ≡ o
    → check_password form o ≡ ok u
    → HasPassword ctx form u
check_password-ok ctx form none e h = cc
check_password-ok ctx form (some v) e h =
    let (good, same) = if_ok (is_text (lookup "password" form) v.password) v _ h in
    subst (HasPassword ctx form) same (has_password e (is_text-eq _ _ good))

check_secret-ok :
    (ctx : TokenContext) (form : Dict String) (o : Option ServicePrincipalRecord)
    {sp : ServicePrincipalRecord}
    → lookup (sp_key form) ctx.service_principals ≡ o
    → check_secret form o ≡ ok sp
    → HasSecret ctx form sp
check_secret-ok ctx form none e h = cc
check_secret-ok ctx form (some v) e h =
    let (good, same) = if_ok (is_text (lookup "client_secret" form) v.secret) v _ h in
    subst (HasSecret ctx form) same (has_secret e (is_text-eq _ _ good))

pub find_user-ok :
    (ctx : TokenContext) (form : Dict String) {u : UserRecord}
    → find_user ctx form ≡ ok u
    → HasPassword ctx form u
unfolding find_user
find_user-ok ctx form h = check_password-ok ctx form _ refl h

pub find_sp-ok :
    (ctx : TokenContext) (form : Dict String) {sp : ServicePrincipalRecord}
    → find_sp ctx form ≡ ok sp
    → HasSecret ctx form sp
unfolding find_sp
find_sp-ok ctx form h = check_secret-ok ctx form _ refl h

module _ (env : Env) (ctx : TokenContext) (issuer : String) (form headers : Dict String)
    (aud mode : String) where
  pub user_token-ok :
      (u : UserRecord) (time : ℤ) (roles : List String) {i : Issued}
      → user_token env ctx issuer form headers aud mode u time roles ≡ ok i
      → Allowed env.cfg (user_key form) (user u) aud (some mode)
  unfolding user_token
  user_token-ok u time roles h =
      (check_audience-ok_iff _ _ _ _ _).0
        (>>=-eq-ok (check_audience env.cfg (user_key form) (user u) aud (some mode)) _ h).1

  pub sp_token-ok :
      (sp : ServicePrincipalRecord) (time : ℤ) (roles : List String) {i : Issued}
      → sp_token env ctx issuer form headers aud mode sp time roles ≡ ok i
      → Allowed env.cfg (sp_key form) (service sp) aud (some mode)
  unfolding sp_token
  sp_token-ok sp time roles h =
      (check_audience-ok_iff _ _ _ _ _).0
        (>>=-eq-ok (check_audience env.cfg (sp_key form) (service sp) aud (some mode)) _ h).1

  pub full_sp_token-ok :
      (sp : ServicePrincipalRecord) {i : Issued}
      → full_sp_token env ctx issuer form headers aud mode sp ≡ ok i
      → Allowed env.cfg (sp_key form) (service sp) aud (some mode)
  unfolding full_sp_token
  full_sp_token-ok sp h = sp_token-ok sp _ _ h

  pub password_grant-ok :
      {i : Issued}
      → password_grant env ctx issuer form headers aud mode ≡ ok i
      → (u : UserRecord) × HasPassword ctx form u
        × Allowed env.cfg (user_key form) (user u) aud (some mode)
  unfolding password_grant
  password_grant-ok h =
      let (u, found, made) = >>=-eq-ok (find_user ctx form) _ h in
      (u, find_user-ok ctx form found, user_token-ok u _ _ made)

  pub client_grant-ok :
      {i : Issued}
      → client_grant env ctx issuer form headers aud mode ≡ ok i
      → (sp : ServicePrincipalRecord) × HasSecret ctx form sp
        × Allowed env.cfg (sp_key form) (service sp) aud (some mode)
  unfolding client_grant
  client_grant-ok h =
      let (sp, found, rest) = >>=-eq-ok (find_sp ctx form) _ h in
      let (issued, made, _) =
        >>=-eq-ok (full_sp_token env ctx issuer form headers aud mode sp) _ rest in
      (sp, find_sp-ok ctx form found, full_sp_token-ok sp made)

module _ (env : Env) (ctx : TokenContext) (issuer : String) where
  pub presented-ok :
      (token code : String) (w w' : World) {claims : Claims}
      → presented env ctx issuer token code w ≡ (ok claims, w')
      → Presents env ctx issuer w.keys token
  unfolding presented bind
  presented-ok token code w w' h =
      let (_, nonempty, h) =
        lift_ok (raise_if (is_empty token) (http 400 "invalid_request")) w _ h in
      let keys = ctx.keys.jwks_keys issuer w.keys in
      let w1 = record w { keys = keys.1 } in
      let (claims, read, h) =
        lift_ok (or_raise (verify_token env.codec token keys.0) (http 400 code)) w1 _ h in
      let (expired, on_time, h) = lift_ok (is_expired env claims) w1 _ h in
      let (_, valid, h) = lift_ok (raise_if expired (http 400 code)) w1 _ h in
      presents claims (raise_if-ok _ _ nonempty) (or_raise-ok _ _ read)
        (on_time ∙ ap ok (raise_if-ok expired _ valid))
