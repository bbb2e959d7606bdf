-- ===== src/Handler/Token/Answered.antt =====
-- What the client, the webhooks and the audit log are told of a password request that passes every
-- check.
use mock_idp.Common.{
  String, false, Option, none, some, List, [], ◌∷◌, ◌++◌, ◌≡◌, refl, ap, map, keep, elem, or_else,
  arith, if◌then◌else◌,
}
use mock_idp.Int.{pos, ◌+ℤ◌, ◌-ℤ◌, max_zero}
use mock_idp.Text.{or_empty}
use mock_idp.Dict.{lookup, lookup_last, first_of, insert, update}
use mock_idp.Value.{int, str, dict, fields, Claims}
use mock_idp.Models.{UserRecord, WebhookConfig}
use mock_idp.Keys.{KeyStore}
use mock_idp.Webhooks.{matching, fire_webhooks}
use mock_idp.Result.{ok}
use mock_idp.World.{World, bind}
use mock_idp.Tokens.Resolve.{resolve_expiry, resolve_aud, resolve_shape}
use mock_idp.Tokens.Overrides.Omit.{lookup-omit}
use mock_idp.Tokens.Roles.{comma_list, user, resolve_roles, apply_roles_override}
use mock_idp.Tokens.Signing.{sign}
use mock_idp.Providers.Registry.{Provider}
use mock_idp.Providers.Timed.{user_claims-Timed}
use mock_idp.Handler.Context.{Env, TokenContext, Request, lower_keys}
use mock_idp.Handler.Issue.{emit_event, expires_in}
use mock_idp.Handler.Grants.{user_key}
use mock_idp.Handler.Token.{handle_token}
use mock_idp.Handler.Token.Completed.{
  Calm, Accepted, password_claims, issued_claims, handle_token-password,
}

matching-keep :
    (event : String) (hooks : List WebhookConfig)
    → matching event hooks ≡ keep (λ h. elem event h.events) hooks
unfolding matching
matching-keep event [] = refl
matching-keep event (h ∷ hooks) = ground (arith, matching-keep event hooks)

-- the claims of `own` but for those that the header names
pub record LeftOf (header : Option String) (own left : Claims) : Type 0 where
  pub claim :
      (c : String)
      → lookup c left ≡ (if elem c (comma_list (or_empty header)) then none else lookup c own)

module _ (env : Env) (ctx : TokenContext) (issuer grant : String) where
  -- the body of the webhook requests about a token with the claims `left`
  abbrev pub notice : Claims → Claims
  notice left =
      ("event", str "token_issued")
      ∷ ("timestamp", str env.timestamp)
      ∷ ("issuer", str issuer)
      ∷ ("grant_type", str grant)
      ∷ ("claims", dict (fields left))
      ∷ []

  -- The webhooks for `token_issued` and the audit log were told of the claims `left` on the way from `w`
  -- to `w'`, the key store became `keys`, and all else is as it was.
  pub record Told (left : Claims) (keys : KeyStore) (w w' : World) : Type 0 where
    pub posts :
        w'.posts
        ≡ w.posts
          ++ map
              (λ h. (h.url, notice left))
              (keep (λ h. elem "token_issued" h.events) env.cfg.webhooks)
    pub audit :
        w'.audit ≡ or_else (ctx.store (insert "grant_type" (str grant) left) w.audit) w.audit
    pub store : w'.keys ≡ keys
    pub faults : w'.faults ≡ w.faults
    pub slept : w'.slept ≡ w.slept
    pub hits : w'.hits ≡ w.hits

  pub emit_event-Told :
      (left : Claims) (keys : KeyStore) (w : World)
      → Told left keys w
          (emit_event env ctx "token_issued" issuer grant left (record w { keys = keys })).1
  unfolding emit_event fire_webhooks bind update insert
  emit_event-Told left keys w = record {
    posts =
        ap (λ hs. w.posts ++ map (λ h. (h.url, notice left)) hs)
          (matching-keep "token_issued" env.cfg.webhooks);
    audit = refl;
    store = refl;
    faults = refl;
    slept = refl;
    hits = refl;
  }

module _ (env : Env) (ctx : TokenContext) (issuer : String) where
  -- Without test hooks and faults, a password request with the right password that passes the gate, for
  -- a user whose extra claims have no `exp`, and with a header X-Omit-Claims that does not name `exp`,
  -- is answered with one set of claims: the provider's, less those that the header names. The token is
  -- signed for them with the issuer's key for the user's algorithm, with the lifetime that they have
  -- left and the requested scope; every webhook for `token_issued` gets the same claims, not those
  -- before the header, and so does the audit log; apart from that only the keys may have been made.
  pub handle_token-Told :
      (request : Request) (u : UserRecord) (provider : Provider) (w : World)
      → Calm env ctx issuer request w
      → Accepted env ctx issuer request u provider
      → lookup_last "exp" u.extra_claims ≡ none
      → let headers = lower_keys request.headers in
        elem "exp" (comma_list (or_empty (lookup "x-omit-claims" headers))) ≡ false
        → let (key, keys) = ctx.keys.signing_key_for_alg issuer u.signing_alg w.keys in
          let exp = pos env.clock.built +ℤ resolve_expiry u.token_lifetime_seconds headers in
          let r = handle_token env ctx issuer request w in
          (left : Claims) × LeftOf
            (lookup "x-omit-claims" headers)
            (password_claims env ctx issuer request u provider)
            left
          × (r.0
              ≡ ok (
                  ("access_token", str (sign env.codec left key))
                  ∷ ("token_type", str "Bearer")
                  ∷ ("expires_in", int (max_zero (exp -ℤ pos env.clock.replied)))
                  ∷ ("scope", str (or_else (lookup "scope" request.form) "openid profile email"))
                  ∷ []))
          × Told env ctx issuer "password" left keys w r.1
  unfolding expires_in
  handle_token-Told request u provider w calm accepted plain kept =
      let headers = lower_keys request.headers in
      let own = password_claims env ctx issuer request u provider in
      let left = issued_claims env ctx issuer request u provider in
      let z = pos env.clock.built +ℤ resolve_expiry u.token_lifetime_seconds headers in
      let run = handle_token-password env ctx issuer request u provider w calm accepted in
      let own_exp : lookup "exp" own ≡ first_of (lookup_last "exp" u.extra_claims) (some (int z)) =
        (user_claims-Timed env.cfg env.clock issuer
          (resolve_expiry u.token_lifetime_seconds headers) u.provider provider u
          (resolve_aud request.form)
          (resolve_shape u.token_version request.form (lookup "x-token-shape" headers))
          (apply_roles_override
            (resolve_roles env.cfg (user_key request.form) (user u) (resolve_aud request.form))
            headers)
          (lookup "client_id" request.form) accepted.provided).exp in
      let exp : lookup "exp" left ≡ some (int z) =
        rw (lookup-omit own (lookup "x-omit-claims" headers) "exp")
          (rw kept (rw own_exp (rw plain refl))) in
      (
        left,
        record { claim = lookup-omit own (lookup "x-omit-claims" headers) },
        rw run (rw exp refl),
        rw run (emit_event-Told env ctx issuer "password" left _ w),
      )
