-- ===== src/Service.antt =====
-- The states that the routes of src/mock_idp/routers/oidc.py and src/mock_idp/routers/admin.py reach, in
-- whatever order requests come.
use mock_idp.Common.{String, Option, none, some, List, ◌≡◌, arith, [], ◌∷◌, sym, subst}
use mock_idp.Value.{Claims}
use mock_idp.Dict.{lookup}
use mock_idp.Result.{ok}
use mock_idp.Keys.{get, alt_key_for_alg}
use mock_idp.Keys.Reach.{Reach, start, next, turn, turn_all, no_keys, Reach-AllFit}
use mock_idp.Tokens.Signing.{sign}
use mock_idp.Tokens.Signing.Verification.{Reads}
use mock_idp.Chaos.{Fault}
use mock_idp.World.{World, bind}
use mock_idp.Handler.Context.{Env, Request, flat_context, lower_keys}
use mock_idp.Handler.Hooks.{apply_test_hooks}
use mock_idp.Handler.Token.{handle_token}
use mock_idp.Handler.BadTokens.{
  handle_token_wrong_sig, handle_token_unsigned, handle_token_wrong_alg,
}
use mock_idp.Handler.Introspect.{handle_introspect, handle_userinfo, inactive}
use mock_idp.Handler.Introspect.Verified.{IsCaller, handle_introspect-alt}
use mock_idp.Handler.Discovery.{handle_jwks, handle_discovery}
use mock_idp.Handler.Keeps.{
  Keeps, bind-Keeps, same-Keeps, apply_test_hooks-Keeps, handle_token-Keeps,
  handle_token_wrong_sig-Keeps, handle_token_unsigned-Keeps, handle_token_wrong_alg-Keeps,
  handle_introspect-Keeps, handle_userinfo-Keeps, handle_jwks-Keeps,
}
use mock_idp.Admin.{admin_rotate, admin_set_chaos, admin_clear_chaos, require_admin}

-- a request to one of the routes that use the keys of issuers, or change the faults
pub data Call : Type 0 where
  token wrong_sig unsigned wrong_alg introspect jwks discovery : String → Request → Call
  userinfo : String → String → Call
  rotate : Option String → Option String → Call
  set_chaos : String → Fault → Option String → Call
  clear_chaos : String → Option String → Call

module _ (write : Claims → List Claims → Option (List Claims)) where
  -- the state after a request that finds `env` around it
  unfoldable pub serve : Env → Call → World → World
  serve env (token issuer request) w =
      (handle_token env (flat_context env write) issuer request w).1
  serve env (wrong_sig issuer request) w =
      (handle_token_wrong_sig env (flat_context env write) issuer request w).1
  serve env (unsigned issuer request) w =
      (handle_token_unsigned env (flat_context env write) issuer request w).1
  serve env (wrong_alg issuer request) w =
      (handle_token_wrong_alg env (flat_context env write) issuer request w).1
  serve env (introspect issuer request) w =
      (handle_introspect env (flat_context env write) issuer request w).1
  serve env (jwks issuer request) w = (handle_jwks env (flat_context env write) issuer request w).1
  serve env (discovery issuer request) w =
      (handle_discovery (flat_context env write) issuer request w).1
  serve env (userinfo issuer authorization) w =
      (handle_userinfo env (flat_context env write) issuer authorization w).1
  serve env (rotate issuer x_admin_token) w = (admin_rotate env issuer x_admin_token w).1
  serve env (set_chaos issuer fault x_admin_token) w =
      (admin_set_chaos env issuer fault x_admin_token w).1
  serve env (clear_chaos issuer x_admin_token) w = (admin_clear_chaos env issuer x_admin_token w).1

  -- the requests in their order
  unfoldable pub serve_all : List (Env × Call) → World → World
  serve_all [] w = w
  serve_all ((env, call) ∷ calls) w = serve_all calls (serve env call w)

  discovery-Keeps :
      (env : Env) (issuer : String) (request : Request)
      → Keeps (handle_discovery (flat_context env write) issuer request)
  unfolding handle_discovery
  discovery-Keeps env issuer request =
      bind-Keeps (apply_test_hooks (lower_keys request.headers)) _
        (apply_test_hooks-Keeps (lower_keys request.headers)) λ _ v r. r

  rotate-Keeps :
      (env : Env) (issuer x_admin_token : Option String)
      → Keeps (admin_rotate env issuer x_admin_token)
  unfolding admin_rotate require_admin bind
  rotate-Keeps env none x_admin_token =
      bind-Keeps (require_admin env x_admin_token) _ (λ w r. r) λ _ v r. next r (turn_all v.keys)
  rotate-Keeps env (some issuer) x_admin_token =
      bind-Keeps (require_admin env x_admin_token) _ (λ w r. r) λ _ v r. next r (turn issuer v.keys)

  set_chaos-keys :
      (env : Env) (issuer : String) (fault : Fault) (x_admin_token : Option String) (w : World)
      → (admin_set_chaos env issuer fault x_admin_token w).1.keys ≡ w.keys
  unfolding admin_set_chaos require_admin bind
  set_chaos-keys env issuer fault x_admin_token w = ground arith

  clear_chaos-keys :
      (env : Env) (issuer : String) (x_admin_token : Option String) (w : World)
      → (admin_clear_chaos env issuer x_admin_token w).1.keys ≡ w.keys
  unfolding admin_clear_chaos require_admin bind
  clear_chaos-keys env issuer x_admin_token w = ground arith

  serve-Reach : (env : Env) (call : Call) (w : World) → Reach w.keys → Reach (serve env call w).keys
  unfolding serve
  serve-Reach env (token issuer request) = handle_token-Keeps env write issuer request
  serve-Reach env (wrong_sig issuer request) = handle_token_wrong_sig-Keeps env write issuer request
  serve-Reach env (unsigned issuer request) = handle_token_unsigned-Keeps env write issuer request
  serve-Reach env (wrong_alg issuer request) = handle_token_wrong_alg-Keeps env write issuer request
  serve-Reach env (introspect issuer request) = handle_introspect-Keeps env write issuer request
  serve-Reach env (jwks issuer request) = handle_jwks-Keeps env write issuer request
  serve-Reach env (discovery issuer request) = discovery-Keeps env issuer request
  serve-Reach env (userinfo issuer authorization) =
      handle_userinfo-Keeps env write issuer authorization
  serve-Reach env (rotate issuer x_admin_token) = rotate-Keeps env issuer x_admin_token
  serve-Reach env (set_chaos issuer fault x_admin_token) =
      same-Keeps (admin_set_chaos env issuer fault x_admin_token)
        (set_chaos-keys env issuer fault x_admin_token)
  serve-Reach env (clear_chaos issuer x_admin_token) =
      same-Keeps (admin_clear_chaos env issuer x_admin_token)
        (clear_chaos-keys env issuer x_admin_token)

  -- However many requests were served in whatever order since a start, the key store is one that
  -- Keys.Reach describes.
  serve_all-Reach :
      (calls : List (Env × Call)) (w : World) → Reach w.keys → Reach (serve_all calls w).keys
  unfolding serve_all
  serve_all-Reach [] w r = r
  serve_all-Reach ((env, call) ∷ calls) w r =
      serve_all-Reach calls (serve env call w) (serve-Reach env call w r)

  -- Whatever requests were served since a start with no keys, introspection of a token that is signed
  -- with the alternative key of the issuer, as it is then, tells a caller with the right secret that it
  -- is not active, given that the JWT library does not read a token without its key.
  pub serve_all-alt_inactive :
      (calls : List (Env × Call)) (first : World)
      → first.keys ≡ no_keys
      → (env : Env) (issuer : String) (claims : Claims) (alg : String) (request : Request)
      → IsCaller env request.form
      → let w = serve_all calls first in
        let key = alt_key_for_alg (get issuer w.keys).0 alg in
        Reads env.codec claims key
        → lookup "token" request.form ≡ some (sign env.codec claims key)
        → (handle_introspect env (flat_context env write) issuer request w).0 ≡ ok inactive
  serve_all-alt_inactive calls first fresh env issuer claims alg request caller reads shown =
      handle_introspect-alt env write issuer (serve_all calls first) claims alg
        (Reach-AllFit (serve_all-Reach calls first (subst Reach (sym fresh) start))) request caller
        reads shown
