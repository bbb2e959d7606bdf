-- ===== src/Handler/Keeps.antt =====
-- The calls of the token handlers take the key store only along the steps of Keys.Reach.
use mock_idp.Common.{
  ℕ, String, Bool, true, false, Option, none, some, List, ◌≡◌, refl, sym, subst, arith,
  if◌then◌else◌,
}
use mock_idp.Text.{truthy, strip, or_empty}
use mock_idp.Dict.{Dict, lookup}
use mock_idp.Value.{Claims}
use mock_idp.Keys.{KeyStore, get}
use mock_idp.Keys.Reach.{Reach, next, use_keys}
use mock_idp.Chaos.{
  Fault, FaultMode, error_500, delay_ms, invalid_signature, expired_token, invalid_token, get_fault,
}
use mock_idp.Webhooks.{fire_webhooks}
use mock_idp.Result.{Result, ok, err}
use mock_idp.World.{World, Action, bind, ◌>>=◌}
use mock_idp.Handler.Context.{
  Env, TokenContext, Request, flat_context, global_keys, lower_keys, effective_mode,
}
use mock_idp.Handler.Hooks.{delay, pre, pre_fault, apply_test_hooks, apply_pre}
use mock_idp.Handler.Issue.{corrupt, corrupt_or_sign, emit_event}
use mock_idp.Tokens.Resolve.{resolve_aud}
use mock_idp.Handler.BadTokens.{
  test_claims, handle_token_wrong_sig, handle_token_unsigned, handle_token_wrong_alg,
}
use mock_idp.Handler.Introspect.{handle_introspect, handle_userinfo}
use mock_idp.Handler.Discovery.{handle_jwks}
use mock_idp.Handler.Grants.{Issued, is_text, find_sp}
use mock_idp.Handler.Token.{
  token_exchange, jwt_bearer, subject_names, assertion_names, exchange_aud, presented, finish,
  simple_grant, exchange_grant, dispatch, handle_token,
}

-- the call takes the key store only to stores that can be reached
abbrev pub Keeps : {A : Type 0} → Action A → Type 0
Keeps m = (w : World) → Reach w.keys → Reach (m w).1.keys

bind-Reach :
    {A B : Type 0} (r : Result A × World) (f : A → Action B)
    → Reach r.1.keys
    → ((a : A) → Keeps (f a))
    → Reach (bind r f).1.keys
unfolding bind
bind-Reach (ok a, v) f h k = k a v h
bind-Reach (err e, v) f h k = h

pub bind-Keeps :
    {A B : Type 0} (m : Action A) (f : A → Action B)
    → Keeps m
    → ((a : A) → Keeps (f a))
    → Keeps (m >>= f)
bind-Keeps m f h k w r = bind-Reach (m w) f (h w r) k

if-Keeps : {A : Type 0} (b : Bool) (m n : Action A) → Keeps m → Keeps n → Keeps (if b then m else n)
if-Keeps true m n p q = p
if-Keeps false m n p q = q

pub same-Keeps : {A : Type 0} (m : Action A) → ((w : World) → (m w).1.keys ≡ w.keys) → Keeps m
same-Keeps m same w r = subst Reach (sym (same w)) r

delay-keys : (header : Option String) (w : World) → (delay header w).1.keys ≡ w.keys
delay-keys header w = ground arith

pre-keys :
    (draw : ℕ) (mode : FaultMode) (fault : Fault) (w : World)
    → (pre draw mode fault w).1.keys ≡ w.keys
pre-keys draw error_500 fault w = ground arith
pre-keys draw delay_ms fault w = refl
pre-keys draw _ fault w = refl

pre_fault-keys :
    (draw : ℕ) (fault : Option Fault) (w : World) → (pre_fault draw fault w).1.keys ≡ w.keys
pre_fault-keys draw none w = refl
pre_fault-keys draw (some fault) w = pre-keys draw fault.mode fault w

pub apply_test_hooks-Keeps : (headers : Dict String) → Keeps (apply_test_hooks headers)
unfolding apply_test_hooks
apply_test_hooks-Keeps headers =
    bind-Keeps (delay (lookup "x-test-delay-ms" headers)) _
      (same-Keeps (delay (lookup "x-test-delay-ms" headers))
        (delay-keys (lookup "x-test-delay-ms" headers)))
      λ _. if-Keeps (truthy (lookup "x-test-fail" headers)) _ _ (λ w r. r) (λ w r. r)

module _ (env : Env) (write : Claims → List Claims → Option (List Claims)) (issuer : String) where
  abbrev ctx : TokenContext
  ctx = flat_context env write

  used : {ks : KeyStore} → Reach ks → Reach (get issuer ks).1
  used {ks} r = next r (use_keys issuer ks)

  apply_pre-Keeps : Keeps (apply_pre env issuer)
  unfolding apply_pre
  apply_pre-Keeps w r = subst Reach (sym (pre_fault-keys env.draw (get_fault issuer w.faults) w)) r

  corrupt-Keeps :
      (claims : Claims) (alg : String) (mode : FaultMode) (fault : Fault)
      → Keeps (corrupt env ctx claims alg issuer mode fault)
  unfolding flat_context global_keys bind
  corrupt-Keeps claims alg invalid_token fault w r = r
  corrupt-Keeps claims alg invalid_signature fault w r = used r
  corrupt-Keeps claims alg expired_token fault w r = used r
  corrupt-Keeps claims alg error_500 fault w r = used r
  corrupt-Keeps claims alg delay_ms fault w r = used r

  corrupt_or_sign-Keeps :
      (claims : Claims) (fault : Option Fault) (alg : String)
      → Keeps (corrupt_or_sign env ctx claims fault alg issuer)
  unfolding corrupt_or_sign flat_context global_keys bind
  corrupt_or_sign-Keeps claims none alg w r = used r
  corrupt_or_sign-Keeps claims (some fault) alg w r = corrupt-Keeps claims alg fault.mode fault w r

  emit_event-Keeps :
      (kind grant_type : String) (claims : Claims)
      → Keeps (emit_event env ctx kind issuer grant_type claims)
  unfolding emit_event fire_webhooks bind
  emit_event-Keeps kind grant_type claims w r = r

  finish-Keeps :
      (headers : Dict String) (grant_type : String) (claims : Claims) (alg : String)
      → Keeps (finish env ctx issuer headers grant_type claims alg)
  unfolding finish
  finish-Keeps headers grant_type claims alg w r =
      bind-Reach (corrupt_or_sign env ctx _ (get_fault issuer w.faults) alg issuer w) _
        (corrupt_or_sign-Keeps _ (get_fault issuer w.faults) alg w r)
        λ token v r.
          bind-Reach (emit_event env ctx "token_issued" issuer grant_type _ v) _
            (emit_event-Keeps "token_issued" grant_type _ v r)
            λ _ v r. bind-Reach (_, v) _ r λ time v r. r

  presented-Keeps : (token code : String) → Keeps (presented env ctx issuer token code)
  unfolding presented flat_context global_keys
  presented-Keeps token code w r =
      bind-Reach (_, w) _ r
        λ _ v r.
          bind-Reach (_, record v { keys = (get issuer v.keys).1 }) _ (used r)
            λ keys v r.
              bind-Reach (_, v) _ r
                λ claims v r. bind-Reach (_, v) _ r λ expired v r. bind-Reach (_, v) _ r λ _ v r. r

  simple_grant-Keeps :
      (grant_type : String) (issued : Result Issued) (form headers : Dict String)
      → Keeps (simple_grant env ctx issuer grant_type issued form headers)
  unfolding simple_grant
  simple_grant-Keeps grant_type issued form headers w r =
      bind-Reach (issued, w) _ r
        λ i.
          bind-Keeps (finish env ctx issuer headers grant_type i.0 i.1) _
            (finish-Keeps headers grant_type i.0 i.1) λ result v r. r

  exchange_grant-Keeps :
      (grant_type token_field code : String) (names : List String) (form headers : Dict String)
      (aud mode : String)
      → Keeps
          (exchange_grant env ctx issuer grant_type token_field code names form headers aud mode)
  unfolding exchange_grant
  exchange_grant-Keeps grant_type token_field code names form headers aud mode w r =
      bind-Reach (find_sp ctx form, w) _ r
        λ sp.
          bind-Keeps (presented env ctx issuer (strip (or_empty (lookup token_field form))) code) _
            (presented-Keeps _ code)
            λ subject v r.
              bind-Reach (_, v) _ r
                λ i.
                  bind-Keeps (finish env ctx issuer headers grant_type _ i.1) _
                    (finish-Keeps headers grant_type _ i.1) λ result v r. r

  dispatch-Keeps :
      (grant_type : Option String) (form headers : Dict String)
      → Keeps (dispatch env ctx issuer grant_type form headers)
  unfolding dispatch
  dispatch-Keeps grant_type form headers =
      let aud = resolve_aud form in
      let mode = effective_mode ctx issuer in
      if-Keeps (is_text grant_type "password") _ _ (simple_grant-Keeps "password" _ form headers) (
        if-Keeps (is_text grant_type "client_credentials") _ _
          (simple_grant-Keeps "client_credentials" _ form headers)
          (if-Keeps (is_text grant_type token_exchange) _ _
            (exchange_grant-Keeps token_exchange "subject_token" "invalid_request" subject_names
              form headers (exchange_aud env ctx issuer form) mode)
            (if-Keeps (is_text grant_type jwt_bearer) _ _
              (exchange_grant-Keeps jwt_bearer "assertion" "invalid_grant" assertion_names form
                headers aud mode)
              λ w r. r)))

  pub handle_token-Keeps : (request : Request) → Keeps (handle_token env ctx issuer request)
  unfolding handle_token
  handle_token-Keeps request =
      bind-Keeps (apply_test_hooks (lower_keys request.headers)) _
        (apply_test_hooks-Keeps (lower_keys request.headers))
        λ _. bind-Keeps (apply_pre env issuer) _ apply_pre-Keeps λ _.
          dispatch-Keeps (lookup "grant_type" request.form) request.form
            (lower_keys request.headers)

  pub handle_token_wrong_sig-Keeps :
      (request : Request) → Keeps (handle_token_wrong_sig env ctx issuer request)
  unfolding handle_token_wrong_sig flat_context global_keys bind
  handle_token_wrong_sig-Keeps request w r =
      bind-Reach (test_claims env ctx issuer request, w) _ r λ i v r. used r

  pub handle_token_wrong_alg-Keeps :
      (request : Request) → Keeps (handle_token_wrong_alg env ctx issuer request)
  unfolding handle_token_wrong_alg flat_context global_keys
  handle_token_wrong_alg-Keeps request w r =
      bind-Reach (_, w) _ r
        λ i v r. bind-Reach (_, record v { keys = (get issuer v.keys).1 }) _ (used r) λ token v r. r

  pub handle_token_unsigned-Keeps :
      (request : Request) → Keeps (handle_token_unsigned env ctx issuer request)
  unfolding handle_token_unsigned
  handle_token_unsigned-Keeps request w r = bind-Reach (_, w) _ r λ i v r. r

  pub handle_introspect-Keeps :
      (request : Request) → Keeps (handle_introspect env ctx issuer request)
  unfolding handle_introspect flat_context global_keys
  handle_introspect-Keeps request w r =
      bind-Reach (_, w) _ r
        λ _ v r.
          bind-Reach (_, v) _ r
            λ _ v r.
              bind-Reach (_, record v { keys = (get issuer v.keys).1 }) _ (used r) λ keys v r. r

  pub handle_userinfo-Keeps :
      (authorization : String) → Keeps (handle_userinfo env ctx issuer authorization)
  unfolding handle_userinfo flat_context global_keys
  handle_userinfo-Keeps authorization w r =
      bind-Reach (_, w) _ r
        λ token v r.
          bind-Reach (_, record v { keys = (get issuer v.keys).1 }) _ (used r) λ keys v r. r

  pub handle_jwks-Keeps : (request : Request) → Keeps (handle_jwks env ctx issuer request)
  unfolding handle_jwks flat_context global_keys
  handle_jwks-Keeps request =
      bind-Keeps (apply_test_hooks (lower_keys request.headers)) _
        (apply_test_hooks-Keeps (lower_keys request.headers))
        λ _ v r. bind-Reach (_, record v { keys = (get issuer v.keys).1 }) _ (used r) λ keys v r. r
