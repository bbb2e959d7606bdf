-- ===== src/Handler/Issue.antt =====
-- src/mock_idp/token_handler.py: `_corrupt_or_sign`, `_emit_event` and the fields of a token response.
use mock_idp.Common.{ℕ, String, true, false, Option, none, some, [], ◌∷◌, or_else}
use mock_idp.Int.{pos, ◌+ℤ◌, ◌-ℤ◌, max_zero}
use mock_idp.Dict.{lookup, insert}
use mock_idp.Value.{Value, bool, int, str, dict, Claims, fields}
use mock_idp.Keys.{Key, KeyStore}
use mock_idp.Chaos.{Fault, FaultMode, invalid_token, invalid_signature, expired_token}
use mock_idp.Webhooks.{fire_webhooks}
use mock_idp.Result.{Result, ok, err, uncaught}
use mock_idp.World.{Action, ◌>>=◌, ◌>>◌, pure, modify}
use mock_idp.Tokens.Signing.{sign, make_unsigned_token}
use mock_idp.Handler.Context.{Env, TokenContext}

-- a call of the key resolver
abbrev pub with_keys : {A : Type 0} → (KeyStore → A × KeyStore) → Action A
with_keys f w = let (a, ks) = f w.keys in (ok a, record w { keys = ks })

abbrev pub sign_with : Env → Claims → (KeyStore → Key × KeyStore) → Action String
sign_with env claims key = do k ← with_keys key; pure (sign env.codec claims k)

-- `claims` with the expiry of the fault
abbrev pub expire : Env → Claims → Fault → Claims
expire env claims fault = insert "exp" (int (pos env.clock.corrupted +ℤ fault.skew_seconds)) claims

abbrev pub corrupt :
    Env → TokenContext → Claims → String → String → FaultMode → Fault → Action String
corrupt env ctx claims alg issuer invalid_token fault = pure (make_unsigned_token env.codec claims)
corrupt env ctx claims alg issuer invalid_signature fault =
    sign_with env claims (ctx.keys.alt_key_for_alg issuer alg)
corrupt env ctx claims alg issuer expired_token fault =
    sign_with env (expire env claims fault) (ctx.keys.signing_key_for_alg issuer alg)
corrupt env ctx claims alg issuer _ fault =
    sign_with env claims (ctx.keys.signing_key_for_alg issuer alg)

unfoldable pub corrupt_or_sign :
    Env → TokenContext → Claims → Option Fault → String → String → Action String
corrupt_or_sign env ctx claims none alg issuer =
    sign_with env claims (ctx.keys.signing_key_for_alg issuer alg)
corrupt_or_sign env ctx claims (some fault) alg issuer =
    corrupt env ctx claims alg issuer fault.mode fault

-- the event that is written, `{**claims, "grant_type": grant_type}`
abbrev pub audit_event : String → Claims → Claims
audit_event grant_type claims = insert "grant_type" (str grant_type) claims

-- A failure of the store is logged and otherwise ignored.
abbrev pub write_event : TokenContext → Claims → Action (Unit {0})
write_event ctx event = modify (λ w. record w { audit = or_else (ctx.store event w.audit) w.audit })

unfoldable pub emit_event :
    Env → TokenContext → String → String → String → Claims → Action (Unit {0})
emit_event env ctx event_type issuer grant_type claims = do
  fire_webhooks env.cfg.webhooks env.timestamp event_type (
      ("issuer", str issuer)
      ∷ ("grant_type", str grant_type)
      ∷ ("claims", dict (fields claims))
      ∷ [])
  write_event ctx (audit_event grant_type claims)

-- `max(0, claims["exp"] - int(time.time()))`
abbrev pub remaining : ℕ → Option Value → Result Value
remaining now none = err (uncaught "KeyError")
remaining now (some (int z)) = ok (int (max_zero (z -ℤ pos now)))
remaining now (some (bool true)) = ok (int (max_zero (pos 1 -ℤ pos now)))
remaining now (some (bool false)) = ok (int (max_zero (pos 0 -ℤ pos now)))
remaining now (some _) = err (uncaught "TypeError")

unfoldable pub expires_in : Env → Claims → Result Value
expires_in env claims = remaining env.clock.replied (lookup "exp" claims)
