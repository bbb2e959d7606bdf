-- ===== src/Handler/Token/Entitled.antt =====
-- Who gets a token from `handle_token`.
use mock_idp.Common.{String, some, ◌≡◌, ap, subst, List, Bool-cases, inl, inr}
use mock_idp.Text.{or_empty, strip}
use mock_idp.Dict.{Dict, lookup}
use mock_idp.Value.{Claims}
use mock_idp.Models.{UserRecord, ServicePrincipalRecord}
use mock_idp.Keys.{KeyStore}
use mock_idp.Result.{Result, ok}
use mock_idp.World.{World}
use mock_idp.World.Calls.{bind_ok, lift_ok}
use mock_idp.Tokens.Resolve.{resolve_aud}
use mock_idp.Tokens.Roles.{user, service}
use mock_idp.Tokens.Audience.Decision.{Allowed}
use mock_idp.Handler.Context.{Env, TokenContext, Request, lower_keys, effective_mode}
use mock_idp.Handler.Grants.{
  is_text, find_sp, user_key, sp_key, full_sp_token, password_grant, client_grant,
}
use mock_idp.Handler.Token.{
  presented, exchange_grant, simple_grant, dispatch, handle_token, exchange_aud, token_exchange,
  jwt_bearer,
}
use mock_idp.Handler.Token.Hooked.{hooks-keys}
use mock_idp.Handler.Token.Outcome.{
  HasPassword, HasSecret, Presents, is_text-eq, password_grant-ok, client_grant-ok,
  full_sp_token-ok, presented-ok, find_sp-ok,
}

module _ (env : Env) (ctx : TokenContext) (issuer : String) (keys : KeyStore)
    (form : Dict String) where
  -- what entitles a request to a token, for each of the four grants
  pub data Entitled : Type 0 where
    by_password :
        (u : UserRecord)
        → lookup "grant_type" form ≡ some "password"
        → HasPassword ctx form u
        → Allowed env.cfg
            (user_key form)
            (user u)
            (resolve_aud form)
            (some (effective_mode ctx issuer))
        → Entitled
    by_secret :
        (sp : ServicePrincipalRecord)
        → lookup "grant_type" form ≡ some "client_credentials"
        → HasSecret ctx form sp
        → Allowed env.cfg
            (sp_key form)
            (service sp)
            (resolve_aud form)
            (some (effective_mode ctx issuer))
        → Entitled
    by_exchange :
        (sp : ServicePrincipalRecord)
        → lookup "grant_type" form ≡ some token_exchange
        → HasSecret ctx form sp
        → Presents env ctx issuer keys (strip (or_empty (lookup "subject_token" form)))
        → Allowed env.cfg
            (sp_key form)
            (service sp)
            (exchange_aud env ctx issuer form)
            (some (effective_mode ctx issuer))
        → Entitled
    by_assertion :
        (sp : ServicePrincipalRecord)
        → lookup "grant_type" form ≡ some jwt_bearer
        → HasSecret ctx form sp
        → Presents env ctx issuer keys (strip (or_empty (lookup "assertion" form)))
        → Allowed env.cfg
            (sp_key form)
            (service sp)
            (resolve_aud form)
            (some (effective_mode ctx issuer))
        → Entitled

module _ (env : Env) (ctx : TokenContext) (issuer : String) where
  exchange_grant-ok :
      (grant_type token_field code : String) (names : List String) (form headers : Dict String)
      (aud mode : String) (w w' : World) {c : Claims}
      → exchange_grant env ctx issuer grant_type token_field code names form headers aud mode w
        ≡ (ok c, w')
      → (sp : ServicePrincipalRecord) × HasSecret ctx form sp
        × Presents env ctx issuer w.keys (strip (or_empty (lookup token_field form)))
        × Allowed env.cfg (sp_key form) (service sp) aud (some mode)
  unfolding exchange_grant
  exchange_grant-ok grant_type token_field code names form headers aud mode w w' h =
      let (sp, found, h) = lift_ok (find_sp ctx form) w _ h in
      let (subject, v, shown, h) = bind_ok (presented env ctx issuer _ code w) _ h in
      let (i, made, h) = lift_ok (full_sp_token env ctx issuer form headers aud mode sp) v _ h in
      (
        sp,
        find_sp-ok ctx form found,
        presented-ok env ctx issuer _ code w v shown,
        full_sp_token-ok env ctx issuer form headers aud mode sp made,
      )

  dispatch-Entitled :
      (form headers : Dict String) (w w' : World) {c : Claims}
      → dispatch env ctx issuer (lookup "grant_type" form) form headers w ≡ (ok c, w')
      → Entitled env ctx issuer w.keys form
  unfolding dispatch simple_grant
  dispatch-Entitled form headers w w' h =
      let mode = effective_mode ctx issuer in
      let grant = lookup "grant_type" form in
      elim (Bool-cases (is_text grant "password")) [
        | inl yes1 ↦
            let (i, made, _) =
              lift_ok (password_grant env ctx issuer form headers (resolve_aud form) mode) w _
                (rw yes1 at h) in
            let (u, shown, allowed) =
              password_grant-ok env ctx issuer form headers (resolve_aud form) mode made in
            by_password u (is_text-eq _ _ yes1) shown allowed
        | inr no1 ↦
            let h1 = rw no1 at h in
            elim (Bool-cases (is_text grant "client_credentials")) [
              | inl yes2 ↦
                  let (i, made, _) =
                    lift_ok (client_grant env ctx issuer form headers (resolve_aud form) mode) w _
                      (rw yes2 at h1) in
                  let (sp, shown, allowed) =
                    client_grant-ok env ctx issuer form headers (resolve_aud form) mode made in
                  by_secret sp (is_text-eq _ _ yes2) shown allowed
              | inr no2 ↦
                  let h2 = rw no2 at h1 in
                  elim (Bool-cases (is_text grant token_exchange)) [
                    | inl yes3 ↦
                        let (sp, shown, valid, allowed) =
                          exchange_grant-ok _ _ _ _ form headers _ mode w w' (rw yes3 at h2) in
                        by_exchange sp (is_text-eq _ _ yes3) shown valid allowed
                    | inr no3 ↦
                        let h3 = rw no3 at h2 in
                        elim (Bool-cases (is_text grant jwt_bearer)) [
                          | inl yes4 ↦
                              let (sp, shown, valid, allowed) =
                                exchange_grant-ok _ _ _ _ form headers _ mode w w'
                                  (rw yes4 at h3) in
                              by_assertion sp (is_text-eq _ _ yes4) shown valid allowed
                          | inr no4 ↦
                              let h4 = rw no4 at h3 in
                              absurd (cc (ap (λ (t : Result Claims × World). t.0) h4))
                        ]
                  ]
            ]
      ]

  -- `handle_token` gives a token only to a request that is entitled to it. With the grant `password`
  -- the user is known, the password is the user's, and the audience gate lets the user through. With
  -- the other three grants the service principal is known, the secret is its own, and the gate lets
  -- it through; the grants that present a token also need one that the issuer's keys verify and that
  -- has not expired. The gate judges by the audience and the mode that the request leads to.
  pub handle_token-Entitled :
      (request : Request) (w w' : World) {reply : Claims}
      → handle_token env ctx issuer request w ≡ (ok reply, w')
      → Entitled env ctx issuer w.keys request.form
  unfolding handle_token
  handle_token-Entitled request w w' h =
      let headers = lower_keys request.headers in
      let (v, same, h) =
        hooks-keys env issuer headers
          (dispatch env ctx issuer (lookup "grant_type" request.form) request.form headers) w h in
      subst (λ k. Entitled env ctx issuer k request.form) same
        (dispatch-Entitled request.form headers v w' h)
