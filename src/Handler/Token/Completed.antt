-- ===== src/Handler/Token/Completed.antt =====
-- What a password request gets that passes every check, and what it leaves behind.
use mock_idp.Common.{String, true, none, some, ◌≡◌, refl, arith, eq_iff, or_else, elem}
use mock_idp.Text.{or_empty}
use mock_idp.Dict.{Dict, lookup}
use mock_idp.Value.{Claims}
use mock_idp.Models.{UserRecord}
use mock_idp.Chaos.{get_fault}
use mock_idp.Webhooks.{fire_webhooks}
use mock_idp.Result
use mock_idp.World.Calls.{bind_pure, bind_pure_map}
use mock_idp.Result.{Result, ok, err, http, uncaught, Error}
use mock_idp.World.{World, bind}
use mock_idp.Tokens.Resolve.{resolve_aud, resolve_expiry, resolve_shape}
use mock_idp.Tokens.Overrides.{omit}
use mock_idp.Tokens.Overrides.Omit.{lookup-omit}
use mock_idp.Tokens.Roles.{comma_list}
use mock_idp.Tokens.Roles.{user, resolve_roles, apply_roles_override}
use mock_idp.Tokens.Audience.Decision.{Allowed, check_audience-ok_iff}
use mock_idp.Tokens.Signing.{sign}
use mock_idp.Providers.Registry.{Provider, get_provider}
use mock_idp.Handler.Context.{Env, TokenContext, Request, lower_keys, effective_mode}
use mock_idp.Handler.Hooks.{apply_test_hooks, apply_pre}
use mock_idp.Handler.Issue.{audit_event, expires_in, corrupt_or_sign, emit_event}
use mock_idp.Handler.Grants.{user_key, find_user, user_token, password_grant}
use mock_idp.Handler.Token.{reply, finish, simple_grant, dispatch, handle_token}

module _ (env : Env) (ctx : TokenContext) (issuer : String) where
  -- the claims of a user as the grant `password` builds them
  abbrev pub password_claims : Request → UserRecord → Provider → Claims
  password_claims request u provider =
      let form = request.form in
      let headers = lower_keys request.headers in
      let aud = resolve_aud form in
      provider.user_claims env.cfg env.clock issuer u aud
        (resolve_shape u.token_version form (lookup "x-token-shape" headers))
        (resolve_expiry u.token_lifetime_seconds headers)
        (apply_roles_override (resolve_roles env.cfg (user_key form) (user u) aud) headers)
        (lookup "client_id" form)

  -- no test header fails or delays a request, and the issuer has no fault
  pub record Calm (request : Request) (w : World) : Type 0 where
    pub no_delay : lookup "x-test-delay-ms" (lower_keys request.headers) ≡ none
    pub no_failure : lookup "x-test-fail" (lower_keys request.headers) ≡ none
    pub no_fault : get_fault issuer w.faults ≡ none

  -- the request names a user and shows its password, and the gate lets the user through
  pub record Accepted (request : Request) (u : UserRecord) (provider : Provider) : Type 0 where
    pub grant : lookup "grant_type" request.form ≡ some "password"
    pub known : lookup (user_key request.form) ctx.users ≡ some u
    pub shown : lookup "password" request.form ≡ some u.password
    pub allowed :
        Allowed env.cfg
          (user_key request.form)
          (user u)
          (resolve_aud request.form)
          (some (effective_mode ctx issuer))
    pub provided : get_provider u.provider ≡ ok provider

  find_user-known :
      (form : Dict String) (u : UserRecord)
      → lookup (user_key form) ctx.users ≡ some u
      → lookup "password" form ≡ some u.password
      → find_user ctx form ≡ ok u
  unfolding find_user
  find_user-known form u known shown =
      rw known (rw shown (ground (arith, eq_iff u.password u.password)))

  password_grant-Accepted :
      (request : Request) (u : UserRecord) (provider : Provider)
      → Accepted request u provider
      → password_grant env ctx issuer request.form
          (lower_keys request.headers)
          (resolve_aud request.form)
          (effective_mode ctx issuer)
        ≡ ok (password_claims request u provider, u.signing_alg)
  unfolding password_grant user_token
  password_grant-Accepted request u provider a = rw (
    find_user-known request.form u a.known a.shown,
    (check_audience-ok_iff _ _ _ _ _).1 a.allowed,
    a.provided,
  )

  pub hooks-Calm :
      (request : Request) (w : World)
      → Calm request w
      → apply_test_hooks (lower_keys request.headers) w ≡ (ok tt, w)
  unfolding apply_test_hooks bind
  hooks-Calm request w c = rw (c.no_delay, c.no_failure)

  pub pre-Calm :
      (request : Request) (w : World) → Calm request w → apply_pre env issuer w ≡ (ok tt, w)
  unfolding apply_pre
  pre-Calm request w c = rw c.no_fault

  -- the events and the answer of a request whose issuer has no fault
  pub finish-no_fault :
      (headers : Dict String) (grant_type : String) (claims : Claims) (alg : String) (w : World)
      → get_fault issuer w.faults ≡ none
      → let left = omit claims (lookup "x-omit-claims" headers) in
        let (key, keys) = ctx.keys.signing_key_for_alg issuer alg w.keys in
        finish env ctx issuer headers grant_type claims alg w ≡ (
          Result.◌>>=◌ (expires_in env left) (λ time. ok (sign env.codec left key, time)),
          (emit_event env ctx "token_issued" issuer grant_type left (record w { keys = keys })).1,
        )
  unfolding finish corrupt_or_sign emit_event fire_webhooks bind
  finish-no_fault headers grant_type claims alg w no_fault =
      rw no_fault (bind_pure (expires_in env _) _ _)

  -- the claims that are left of those when the header X-Omit-Claims has been followed
  abbrev pub issued_claims : Request → UserRecord → Provider → Claims
  issued_claims request u provider =
      omit (password_claims request u provider)
        (lookup "x-omit-claims" (lower_keys request.headers))

  -- Without test hooks and faults, a password request with the right password that passes the gate is
  -- answered with the claims of the user's provider, less the omitted ones, signed with the issuer's
  -- key for the user's algorithm, and with the time they have left; an `exp` that is missing or no
  -- number ends the request in an exception. In both cases the event `token_issued` has been emitted
  -- for these claims, and apart from it only the keys may have been made.
  pub handle_token-password :
      (request : Request) (u : UserRecord) (provider : Provider) (w : World)
      → Calm request w
      → Accepted request u provider
      → let left = issued_claims request u provider in
        let (key, keys) = ctx.keys.signing_key_for_alg issuer u.signing_alg w.keys in
        handle_token env ctx issuer request w ≡ (
          Result.◌>>=◌
              (expires_in env left)
              (λ time. ok (reply env ctx issuer request.form (sign env.codec left key, time))),
          (emit_event env ctx "token_issued" issuer "password" left (record w { keys = keys })).1,
        )
  unfolding handle_token dispatch simple_grant bind
  handle_token-password request u provider w calm a = rw (hooks-Calm request w calm) (
      rw (pre-Calm request w calm) (
        rw a.grant (
          rw (password_grant-Accepted request u provider a) (
            rw
              (finish-no_fault (lower_keys request.headers) "password"
                (password_claims request u provider) u.signing_alg w calm.no_fault)
              (bind_pure_map (expires_in env _) _ _ _)))))

  -- If the header X-Omit-Claims of such a request names `exp`, the request ends in an exception and not
  -- in a response, but the event of the token has been emitted.
  pub handle_token-omit_exp :
      (request : Request) (u : UserRecord) (provider : Provider) (w : World)
      → Calm request w
      → Accepted request u provider
      → elem "exp" (comma_list (or_empty (lookup "x-omit-claims" (lower_keys request.headers))))
        ≡ true
      → let left = issued_claims request u provider in
        let r = handle_token env ctx issuer request w in
        (r.0 ≡ err (uncaught "KeyError"))
        × (r.1.audit ≡ or_else (ctx.store (audit_event "password" left) w.audit) w.audit)
  unfolding emit_event fire_webhooks expires_in bind
  handle_token-omit_exp request u provider w calm a named =
      let gone : lookup "exp" (issued_claims request u provider) ≡ none = rw (
        lookup-omit (password_claims request u provider)
            (lookup "x-omit-claims" (lower_keys request.headers)) "exp",
        named,
      ) in
      rw (handle_token-password request u provider w calm a) (rw gone, refl)
