-- ===== src/Handler/Token/Delegated.antt =====
-- What a service principal gets that exchanges a token, or acts on behalf of the subject of one.
use mock_idp.Common.{
  String, none, some, List, [], ◌∷◌, ◌≡◌, ◌≢◌, refl, arith, eq_iff, elem, Option, ◌==◌, Bool-cases,
  inl, inr, if◌then◌else◌, ap, ◌∙◌, sym,
}
use mock_idp.Text.{or_empty, strip}
use mock_idp.Dict.{Dict, lookup, insert, lookup-insert, first_of}
use mock_idp.Value.{Value, str, dict, fields, Claims}
use mock_idp.Models.{ServicePrincipalRecord}
use mock_idp.Chaos.{get_fault}
use mock_idp.Result
use mock_idp.Result.{ok}
use mock_idp.World.{World, bind}
use mock_idp.World.Calls.{bind_pure_map}
use mock_idp.Tokens.Resolve.{resolve_aud}
use mock_idp.Tokens.Overrides.{omit}
use mock_idp.Tokens.Overrides.Omit.{lookup-omit}
use mock_idp.Handler.Token.Answered.{LeftOf, Told, emit_event-Told}
use mock_idp.Tokens.Signing.{sign}
use mock_idp.Handler.Context.{Env, TokenContext, Request, lower_keys, effective_mode}
use mock_idp.Handler.Issue.{expires_in, emit_event}
use mock_idp.Handler.Grants.{Issued, find_sp, full_sp_token}
use mock_idp.Handler.Token.{
  token_exchange, jwt_bearer, subject_names, assertion_names, copy_claims, with_actor, exchange_aud,
  exchange_reply, exchange_grant, presented, dispatch, handle_token,
}
use mock_idp.Handler.Token.Completed.{Calm, hooks-Calm, pre-Calm, finish-no_fault}
use mock_idp.Handler.Token.Silent.{presented-Quiet}

lookup-copied_claim :
    (n c : String) (v : Option Value) (claims : Claims)
    → lookup c (elim v [ none ↦ claims | some w ↦ insert n w claims ])
      ≡ (if n == c then first_of v (lookup c claims) else lookup c claims)
lookup-copied_claim n c none claims = ground arith
lookup-copied_claim n c (some w) claims = lookup-insert n c w claims

lookup-copy_claims :
    (names : List String) (subject claims : Claims) (c : String)
    → lookup c (copy_claims names subject claims)
      ≡ (if elem c names then first_of (lookup c subject) (lookup c claims) else lookup c claims)
unfolding copy_claims
lookup-copy_claims [] subject claims c = refl
lookup-copy_claims (n ∷ names) subject claims c =
    rw (lookup-copy_claims names subject _ c, lookup-copied_claim n c (lookup n subject) claims)
      (elim (Bool-cases (c == n)) [
        | inl same ↦ rw ((eq_iff c n).0 same) (ground (arith, eq_iff n n))
        | inr other ↦ ground (arith, eq_iff c n, eq_iff n c)
      ])

-- The claims `claims` of the service principal `canonical_id` that acts for the subject of a token: it
-- stands in `act`, the claims of `names` are the subject's where it has them, and all else is `own`.
pub record Delegates (names : List String) (subject own : Claims) (canonical_id : String)
    (claims : Claims) : Type 0 where
  pub actor : lookup "act" claims ≡ some (dict (fields (("sub", str canonical_id) ∷ [])))
  pub others :
      (c : String)
      → c ≢ "act"
      → lookup c claims
        ≡ (if elem c names then first_of (lookup c subject) (lookup c own) else lookup c own)

copy_claims-Delegates :
    (names : List String) (subject own : Claims) (canonical_id : String)
    → Delegates names subject own canonical_id
        (with_actor canonical_id (copy_claims names subject own))
copy_claims-Delegates names subject own canonical_id = record {
  actor = rw (lookup-insert "act" "act" _ (copy_claims names subject own)) refl;
  others = λ c other.
      rw (lookup-insert "act" c _ (copy_claims names subject own))
        (ground (arith, eq_iff "act" c, lookup-copy_claims names subject own c));
}

-- The two grants of a service principal that presents a token: the field of the token, the error code,
-- the names that are copied, and the audience.
pub data Delegation (env : Env) (ctx : TokenContext) (issuer : String) (form : Dict String)
    : String → String → String → List String → String → Type 0 where
  exchange :
      lookup "grant_type" form ≡ some token_exchange
      → Delegation env ctx issuer form token_exchange "subject_token" "invalid_request"
          subject_names
          (exchange_aud env ctx issuer form)
  on_behalf :
      lookup "grant_type" form ≡ some jwt_bearer
      → Delegation env ctx issuer form jwt_bearer "assertion" "invalid_grant" assertion_names
          (resolve_aud form)

module _ (env : Env) (ctx : TokenContext) (issuer : String) where
  dispatch-Delegation :
      (form headers : Dict String) {grant field code : String} {names : List String} {aud : String}
      → Delegation env ctx issuer form grant field code names aud
      → dispatch env ctx issuer (lookup "grant_type" form) form headers
        ≡ exchange_grant env ctx issuer grant field code names form headers aud
            (effective_mode ctx issuer)
  unfolding dispatch
  dispatch-Delegation form headers (exchange chosen) = rw chosen refl
  dispatch-Delegation form headers (on_behalf chosen) = rw chosen refl

  -- the service principal, the claims of the presented token and its own claims, and the state after
  -- the token was checked
  pub record Granted (form headers : Dict String) (field code aud : String)
      (sp : ServicePrincipalRecord) (subject : Claims) (issued : Issued) (w v : World)
      : Type 0 where
    pub known : find_sp ctx form ≡ ok sp
    pub verified :
        presented env ctx issuer (strip (or_empty (lookup field form))) code w ≡ (ok subject, v)
    pub allowed :
        full_sp_token env ctx issuer form headers aud (effective_mode ctx issuer) sp ≡ ok issued

  -- the run of such a request: its answer, and the event that it emits
  exchange_run :
      (request : Request) {grant field code : String} {names : List String} {aud : String}
      (sp : ServicePrincipalRecord) (subject : Claims) (issued : Issued) (w v : World)
      → Calm env ctx issuer request w
      → Delegation env ctx issuer request.form grant field code names aud
      → let headers = lower_keys request.headers in
        Granted request.form headers field code aud sp subject issued w v
        → get_fault issuer v.faults ≡ none
        → let claims = with_actor sp.canonical_id (copy_claims names subject issued.0) in
          let left = omit claims (lookup "x-omit-claims" headers) in
          let (key, keys) = ctx.keys.signing_key_for_alg issuer issued.1 v.keys in
          handle_token env ctx issuer request w ≡ (
            Result.◌>>=◌
                (expires_in env left)
                (λ time. ok (exchange_reply env ctx issuer (sign env.codec left key, time))),
            (emit_event env ctx "token_issued" issuer grant left (record v { keys = keys })).1,
          )
  unfolding handle_token exchange_grant bind
  exchange_run request {grant} {names} sp subject issued w v calm delegation granted still =
      let headers = lower_keys request.headers in
      let claims = with_actor sp.canonical_id (copy_claims names subject issued.0) in
      rw (hooks-Calm env ctx issuer request w calm) (
        rw (pre-Calm env ctx issuer request w calm) (
          rw (dispatch-Delegation request.form headers delegation) (
            rw granted.known (
              rw granted.verified (
                rw granted.allowed (
                  rw (finish-no_fault env ctx issuer headers grant claims issued.1 v still)
                    (bind_pure_map (expires_in env _) _ _ _)))))))

  -- Without test hooks and faults, a service principal that shows its secret, passes the gate and
  -- presents a token of a subject that the issuer's keys verify and that has not expired is answered
  -- with a token whose claims have it as the actor, the subject's claims where the grant copies them,
  -- and its own claims for all else, less those that X-Omit-Claims names. Every webhook for
  -- `token_issued` and the audit log are told of these same claims, not of those before the header,
  -- whether or not `exp` can be read; apart from that only the keys may have been made since the token
  -- was checked.
  pub handle_token-Delegates :
      (request : Request) {grant field code : String} {names : List String} {aud : String}
      (sp : ServicePrincipalRecord) (subject : Claims) (issued : Issued) (w v : World)
      → Calm env ctx issuer request w
      → Delegation env ctx issuer request.form grant field code names aud
      → let headers = lower_keys request.headers in
        Granted request.form headers field code aud sp subject issued w v
        → (claims : Claims) × Delegates names subject issued.0 sp.canonical_id claims
          × (left : Claims) × LeftOf (lookup "x-omit-claims" headers) claims left
          × (let (key, keys) = ctx.keys.signing_key_for_alg issuer issued.1 v.keys in
              let r = handle_token env ctx issuer request w in
              (r.0
                ≡ Result.◌>>=◌
                    (expires_in env left)
                    (λ time. ok (exchange_reply env ctx issuer (sign env.codec left key, time))))
              × Told env ctx issuer grant left keys v r.1)
  handle_token-Delegates request {grant} {code} {names} sp subject issued w v calm delegation
        granted =
      let headers = lower_keys request.headers in
      let claims = with_actor sp.canonical_id (copy_claims names subject issued.0) in
      let still : get_fault issuer v.faults ≡ none =
        ap (get_fault issuer) (
          ap (λ (r : Result.Result Claims × World). r.1.faults) (sym granted.verified)
          ∙ (presented-Quiet env ctx issuer _ code w).faults)
        ∙ calm.no_fault in
      let run = exchange_run request sp subject issued w v calm delegation granted still in
      (
        claims,
        copy_claims-Delegates names subject issued.0 sp.canonical_id,
        omit claims (lookup "x-omit-claims" headers),
        record { claim = lookup-omit claims (lookup "x-omit-claims" headers) },
        (rw run refl, rw run (emit_event-Told env ctx issuer grant _ _ v)),
      )
