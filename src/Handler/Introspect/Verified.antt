-- ===== src/Handler/Introspect/Verified.antt =====
-- What introspection and userinfo tell of the tokens that the flat routes issue.
use mock_idp.Common.{String, Option, some, ◌≡◌, refl, List, arith, eq_iff}
use mock_idp.Text.{or_empty, ◌<>◌}
use mock_idp.Text.Suffix.{strip_prefix-append}
use mock_idp.Dict.{Dict, lookup}
use mock_idp.Value.{Claims}
use mock_idp.Models.{ServicePrincipalRecord}
use mock_idp.Keys.{get, IssuerKeys, signing_key_for_alg, alt_key_for_alg}
use mock_idp.Keys.Kids.{IsNamed}
use mock_idp.Keys.Stores.{AllFit, get-AllFit}
use mock_idp.Result.{ok, err, http}
use mock_idp.World.{World, bind}
use mock_idp.Tokens.Signing.{sign}
use mock_idp.Tokens.Signing.Verification.{Reads, verify_token-signed, verify_token-alt}
use mock_idp.Handler.Context.{Env, TokenContext, Request, flat_context, global_keys}
use mock_idp.Handler.Grants.{sp_key}
use mock_idp.Handler.Introspect.{handle_introspect, handle_userinfo, respond, inactive, find_caller}

-- the caller of an introspection shows its secret
abbrev pub IsCaller : Env → Dict String → Type 0
IsCaller env form =
    (sp : ServicePrincipalRecord) × (lookup (sp_key form) env.cfg.service_principals ≡ some sp)
    × (sp.secret ≡ or_empty (lookup "client_secret" form))

module _ (env : Env) (write : Claims → List Claims → Option (List Claims)) (issuer : String)
    (w : World) (claims : Claims) (alg : String) (fits : AllFit w.keys.stores) where
  abbrev ctx : TokenContext
  ctx = flat_context env write

  abbrev ik : IssuerKeys
  ik = (get issuer w.keys).0

  find_caller-known : (form : Dict String) → IsCaller env form → find_caller ctx form ≡ ok tt
  unfolding find_caller flat_context
  find_caller-known form (sp, known, shown) =
      rw known (ground (arith, eq_iff sp.secret (or_empty (lookup "client_secret" form))))

  named : IsNamed ik
  named = (get-AllFit issuer w.keys fits).0.1

  -- Introspection of a token that is signed with a signing key of the issuer answers a caller with the
  -- right secret as it does for the claims that were signed.
  pub handle_introspect-signed :
      (request : Request)
      → IsCaller env request.form
      → let key = signing_key_for_alg ik alg in
        Reads env.codec claims key
        → lookup "token" request.form ≡ some (sign env.codec claims key)
        → (handle_introspect env ctx issuer request w).0
          ≡ respond env ctx (sp_key request.form) (some claims)
  unfolding handle_introspect bind flat_context global_keys
  handle_introspect-signed request caller reads shown = rw (find_caller-known request.form caller) (
      rw (shown) (
        rw reads.compact
          (rw reads.nonempty (rw (verify_token-signed env.codec claims ik alg named reads) refl))))

  -- Introspection of a token that is signed with the alternative key tells the caller that it is not
  -- active, whatever its claims are.
  pub handle_introspect-alt :
      (request : Request)
      → IsCaller env request.form
      → let key = alt_key_for_alg ik alg in
        Reads env.codec claims key
        → lookup "token" request.form ≡ some (sign env.codec claims key)
        → (handle_introspect env ctx issuer request w).0 ≡ ok inactive
  unfolding handle_introspect bind flat_context global_keys respond
  handle_introspect-alt request caller reads shown = rw (find_caller-known request.form caller) (
      rw (shown) (
        rw reads.compact
          (rw reads.nonempty (rw (verify_token-alt env.codec claims ik alg named reads) refl))))

  -- The userinfo of a token that is signed with a signing key of the issuer is its claims, and that of
  -- a token that is signed with the alternative key is refused with 401.
  handle_userinfo-signed :
      let key = signing_key_for_alg ik alg in
      let other = alt_key_for_alg ik alg in
      Reads env.codec claims key
      → Reads env.codec claims other
      → ((handle_userinfo env ctx issuer ("Bearer " <> sign env.codec claims key) w).0 ≡ ok claims)
        × ((handle_userinfo env ctx issuer ("Bearer " <> sign env.codec claims other) w).0
            ≡ err (http 401 "invalid token"))
  unfolding handle_userinfo bind flat_context global_keys
  handle_userinfo-signed reads others = (
    rw (strip_prefix-append "Bearer " (sign env.codec claims (signing_key_for_alg ik alg)))
        (rw (verify_token-signed env.codec claims ik alg named reads) refl),
    rw (strip_prefix-append "Bearer " (sign env.codec claims (alt_key_for_alg ik alg)))
        (rw (verify_token-alt env.codec claims ik alg named others) refl),
  )
