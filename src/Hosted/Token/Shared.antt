-- ===== src/Hosted/Token/Shared.antt =====
-- What the hosted token route has in common with the flat one.
use mock_idp.Common.{String, Option, [], false, none, ◌≡◌, refl, ap, ◌∙◌, Bool-cases, inl, inr}
use mock_idp.Text.{or_empty, strip}
use mock_idp.Dict.{Dict, lookup}
use mock_idp.Value.{Claims}
use mock_idp.Chaos.{get_fault}
use mock_idp.Result.{Result, ok}
use mock_idp.World.{World, bind, pure}
use mock_idp.World.Calls.{bind_ext}
use mock_idp.Tokens.Resolve.{resolve_aud}
use mock_idp.Handler.Context.{Env, TokenContext, Request, lower_keys, effective_mode}
use mock_idp.Handler.Issue.{corrupt_or_sign, emit_event}
use mock_idp.Handler.Grants.{
  Issued, is_text, find_user, find_sp, user_token, sp_token, full_sp_token, password_grant,
  client_grant,
}
use mock_idp.Handler.Token.{
  token_exchange, jwt_bearer, finish, simple_grant, exchange_grant, dispatch, handle_token,
  presented, subject_names, exchange_aud, reply, exchange_reply,
}
use mock_idp.Handler.Token.Silent.{presented-Quiet}
use mock_idp.Hosted.Token.{
  hosted_finish, hosted_simple, hosted_exchange, hosted_dispatch, hosted_token,
}
use mock_idp.Hosted.Context.{OrgContext, HostedEnv, full_issuer, resolve_org}
use mock_idp.Handler.Hooks.{apply_test_hooks, apply_pre}
use mock_idp.Handler.Token.Quiet.{apply_test_hooks-Quiet}

module _ (env : Env) (ctx : TokenContext) (issuer : String) (form headers : Dict String) where
  hosted_finish-finish :
      (grant_type : String) (claims : Claims) (alg : String) (w : World)
      → get_fault issuer w.faults ≡ none
      → hosted_finish env ctx issuer headers grant_type claims alg w
        ≡ finish env ctx issuer headers grant_type claims alg w
  unfolding hosted_finish finish corrupt_or_sign
  hosted_finish-finish grant_type claims alg w no_fault = rw no_fault refl

  hosted_simple-simple_grant :
      (grant_type : String) (issued : Result Issued) (w : World)
      → get_fault issuer w.faults ≡ none
      → hosted_simple env ctx issuer grant_type issued form headers w
        ≡ simple_grant env ctx issuer grant_type issued form headers w
  unfolding hosted_simple simple_grant
  hosted_simple-simple_grant grant_type issued w no_fault =
      bind_ext (issued, w) _ _
        λ i.
          ap (λ r. bind r (λ result. pure (reply env ctx issuer form result)))
            (hosted_finish-finish grant_type i.0 i.1 w no_fault)

  hosted_exchange-exchange_grant :
      (mode : String) (w : World)
      → get_fault issuer w.faults ≡ none
      → hosted_exchange env ctx issuer form headers mode w
        ≡ exchange_grant env ctx issuer token_exchange "subject_token" "invalid_request"
            subject_names form headers
            (exchange_aud env ctx issuer form)
            mode
            w
  unfolding hosted_exchange exchange_grant
  hosted_exchange-exchange_grant mode w no_fault =
      let token = strip (or_empty (lookup "subject_token" form)) in
      let v = (presented env ctx issuer token "invalid_request" w).1 in
      let still : get_fault issuer v.faults ≡ none =
        ap (get_fault issuer) (presented-Quiet env ctx issuer token "invalid_request" w).faults
        ∙ no_fault in
      bind_ext (find_sp ctx form, w) _ _
        λ sp. bind_ext (presented env ctx issuer token "invalid_request" w) _ _ λ subject.
          bind_ext
            (
              full_sp_token env ctx issuer form headers (exchange_aud env ctx issuer form) mode sp,
              v,
            )
            _ _
            λ i.
              ap (λ r. bind r (λ result. pure (exchange_reply env ctx issuer result)))
                (hosted_finish-finish token_exchange _ i.1 v still)

  -- the inner dispatch, under the mode of the issuer that stands in the claims
  hosted_dispatch-dispatch :
      (w : World)
      → get_fault issuer w.faults ≡ none
      → is_text (lookup "grant_type" form) jwt_bearer ≡ false
      → hosted_dispatch env ctx issuer form headers (effective_mode ctx issuer) w
        ≡ dispatch env ctx issuer (lookup "grant_type" form) form headers w
  unfolding hosted_dispatch dispatch
  hosted_dispatch-dispatch w no_fault plain =
      let aud = resolve_aud form in
      let mode = effective_mode ctx issuer in
      let grant = lookup "grant_type" form in
      elim (Bool-cases (is_text grant "password")) [
        | inl y1 ↦ rw y1 (hosted_simple-simple_grant "password" _ w no_fault)
        | inr n1 ↦ rw n1 (elim (Bool-cases (is_text grant "client_credentials")) [
          | inl y2 ↦ rw y2 (hosted_simple-simple_grant "client_credentials" _ w no_fault)
          | inr n2 ↦ rw n2 (elim (Bool-cases (is_text grant token_exchange)) [
            | inl y3 ↦ rw y3 (hosted_exchange-exchange_grant mode w no_fault)
            | inr n3 ↦ rw n3 (rw plain refl)
          ])
        ])
      ]

-- the context in which every issuer has the given mode
abbrev pub under_mode : String → TokenContext → TokenContext
under_mode mode ctx = record ctx { mode = mode; issuer_modes = [] }

-- Of the modes in the context the dispatch reads only the one that it is given.
hosted_dispatch-under_mode :
    (env : Env) (ctx : TokenContext) (issuer mode : String) (form headers : Dict String) (w : World)
    → let ctx' = under_mode mode ctx in
      hosted_dispatch env ctx issuer form headers mode w
      ≡ hosted_dispatch env ctx' issuer form headers (effective_mode ctx' issuer) w
unfolding hosted_dispatch hosted_simple hosted_exchange hosted_finish password_grant client_grant
    user_token sp_token full_sp_token find_user find_sp presented exchange_aud emit_event
    effective_mode lookup
hosted_dispatch-under_mode env ctx issuer mode form headers w = refl

-- Once the organisation is found, and while the scoped issuer has no fault, the hosted token route does
-- for every grant but the on-behalf-of one what the flat handler does for the scoped issuer in the
-- organisation's context, in which the mode is that of the issuer without its scope: the same response
-- or error, and the same state.
pub hosted_token-handle_token :
    (henv : HostedEnv) (slug issuer : String) (authorization : Option String) (request : Request)
    (org : OrgContext) (w w' : World)
    → resolve_org henv slug authorization w ≡ (ok org, w')
    → get_fault (full_issuer slug issuer) w'.faults ≡ none
    → is_text (lookup "grant_type" request.form) jwt_bearer ≡ false
    → hosted_token henv slug issuer authorization request w
      ≡ handle_token henv.base
          (under_mode (effective_mode org.context issuer) org.context)
          (full_issuer slug issuer)
          request
          w'
unfolding hosted_token handle_token apply_pre bind
hosted_token-handle_token henv slug issuer authorization request org w w' found no_fault plain =
    let headers = lower_keys request.headers in
    let name = full_issuer slug issuer in
    let mode = effective_mode org.context issuer in
    let ctx = under_mode mode org.context in
    let v = (apply_test_hooks headers w').1 in
    let still : get_fault name v.faults ≡ none =
      ap (get_fault name) (apply_test_hooks-Quiet headers w').faults ∙ no_fault in
    rw found (
      bind_ext (apply_test_hooks headers w') _ _ λ _. rw still (
        hosted_dispatch-under_mode henv.base org.context name mode request.form headers v
        ∙ hosted_dispatch-dispatch henv.base ctx name request.form headers v still plain))
