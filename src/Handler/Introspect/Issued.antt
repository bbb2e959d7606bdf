-- ===== src/Handler/Introspect/Issued.antt =====
-- From the token endpoint to the introspection endpoint.
use mock_idp.Common.{String, Option, some, ◌≡◌, refl, ap, sym, ◌∙◌, subst, List}
use mock_idp.Int.{ℤ, pos, ◌-ℤ◌, max_zero}
use mock_idp.Dict.{lookup}
use mock_idp.Value.{int, Claims}
use mock_idp.Models.{UserRecord}
use mock_idp.Keys.{KeyStore, Key, IssuerKeys, get, signing_key_for_alg}
use mock_idp.Keys.Stores.{AllFit, get-AllFit, get_idempotent}
use mock_idp.Webhooks.{fire_webhooks}
use mock_idp.Result.{Result, ok}
use mock_idp.World.{World, bind}
use mock_idp.Tokens.Signing.{sign}
use mock_idp.Tokens.Signing.Verification.{Reads}
use mock_idp.Providers.Registry.{Provider}
use mock_idp.Handler.Context.{Env, TokenContext, Request, flat_context, global_keys}
use mock_idp.Handler.Issue.{emit_event, expires_in}
use mock_idp.Handler.Grants.{sp_key}
use mock_idp.Handler.Token.{handle_token, reply}
use mock_idp.Handler.Token.Completed.{Calm, Accepted, issued_claims, handle_token-password}
use mock_idp.Handler.Introspect.{handle_introspect, respond}
use mock_idp.Handler.Introspect.Verified.{IsCaller, handle_introspect-signed}

module _ (env : Env) (write : Claims → List Claims → Option (List Claims)) (issuer : String)
    (request : Request) (u : UserRecord) (provider : Provider) (w : World) where
  abbrev context : TokenContext
  context = flat_context env write

  -- the claims of the token, and its key
  abbrev left : Claims
  left = issued_claims env context issuer request u provider

  abbrev key : Key
  key = signing_key_for_alg (get issuer w.keys).0 u.signing_alg

  -- the state after the request
  abbrev later : World
  later =
      (emit_event env context "token_issued" issuer "password" left
        (record w { keys = (get issuer w.keys).1 })).1

  answered :
      (z : ℤ)
      → Calm env context issuer request w
      → Accepted env context issuer request u provider
      → lookup "exp" left ≡ some (int z)
      → handle_token env context issuer request w ≡ (
        ok (
            reply env context issuer request.form
              (sign env.codec left key, int (max_zero (z -ℤ pos env.clock.replied)))),
        later,
      )
  unfolding expires_in flat_context global_keys
  answered z calm accepted expiry =
      handle_token-password env context issuer request u provider w calm accepted ∙ rw expiry refl

  introspected :
      (asked : Request)
      → AllFit w.keys.stores
      → Reads env.codec left key
      → IsCaller env asked.form
      → lookup "token" asked.form ≡ some (sign env.codec left key)
      → (handle_introspect env context issuer asked later).0
        ≡ respond env context (sp_key asked.form) (some left)
  unfolding emit_event fire_webhooks bind
  introspected asked fits reads caller shown =
      let same : (get issuer later.keys).0 ≡ (get issuer w.keys).0 =
        ap (λ (t : IssuerKeys × KeyStore). t.0) (get_idempotent issuer w.keys) in
      let back : key ≡ signing_key_for_alg (get issuer later.keys).0 u.signing_alg =
        ap (λ ik. signing_key_for_alg ik u.signing_alg) (sym same) in
      handle_introspect-signed env write issuer later left u.signing_alg
        (get-AllFit issuer w.keys fits).1 asked caller (subst (Reads env.codec left) back reads)
        (shown ∙ ap (λ k. some (sign env.codec left k)) back)

  -- On the flat routes a password request that passes every check, without test hooks and faults, is
  -- answered with a token; and when a caller with the right secret then asks about this token, the
  -- introspection judges it by the very claims that were issued. The JWT library must read back this
  -- token, and the issued claims must have a number for `exp`.
  pub handle_token-handle_introspect :
      (z : ℤ) (asked : Request)
      → Calm env context issuer request w
      → Accepted env context issuer request u provider
      → AllFit w.keys.stores
      → lookup "exp" left ≡ some (int z)
      → Reads env.codec left key
      → IsCaller env asked.form
      → lookup "token" asked.form ≡ some (sign env.codec left key)
      → let r = handle_token env context issuer request w in
        (r.0
          ≡ ok (
              reply env context issuer request.form
                (sign env.codec left key, int (max_zero (z -ℤ pos env.clock.replied)))))
        × ((handle_introspect env context issuer asked r.1).0
            ≡ respond env context (sp_key asked.form) (some left))
  handle_token-handle_introspect z asked calm accepted fits expiry reads caller shown =
      let done = answered z calm accepted expiry in
      (
        ap (λ (t : Result Claims × World). t.0) done,
        ap (λ (t : Result Claims × World). (handle_introspect env context issuer asked t.1).0) done
            ∙ introspected asked fits reads caller shown,
      )
