-- ===== src/Hosted/Other/Shared.antt =====
-- What the hosted routes for tokens that exist have in common with the handlers of the flat routes.
use mock_idp.Common.{String, Option, none, some, [], ◌≡◌, refl, ap}
use mock_idp.Text.{or_empty, strip, is_empty}
use mock_idp.Dict.{lookup}
use mock_idp.Value.{Claims}
use mock_idp.Result.{ok, http, raise_if}
use mock_idp.World.{World, bind}
use mock_idp.World.Calls.{bind_ext}
use mock_idp.Handler.Context.{Env, TokenContext, Request}
use mock_idp.Handler.Issue.{with_keys}
use mock_idp.Tokens.Signing.{verify_token}
use mock_idp.Handler.Grants.{sp_key}
use mock_idp.Handler.Discovery.{handle_jwks}
use mock_idp.Handler.Introspect.{
  handle_introspect, handle_userinfo, find_caller, respond, is_visible,
}
use mock_idp.Hosted.Context.{OrgContext, HostedEnv, full_issuer, get_org, resolve_org}
use mock_idp.Hosted.Other.{
  hosted_introspect, hosted_respond, hosted_userinfo, hosted_jwks, get_header,
}

-- the context without its registered resources
abbrev pub unscoped : TokenContext → TokenContext
unscoped ctx = record ctx { clients = [] }

hosted_respond-respond :
    (env : Env) (ctx : TokenContext) (caller : String) (claims : Option Claims)
    → hosted_respond env claims ≡ respond env (unscoped ctx) caller claims
unfolding hosted_respond respond is_visible lookup
hosted_respond-respond env ctx caller none = refl
hosted_respond-respond env ctx caller (some claims) = refl

module _ (henv : HostedEnv) (slug issuer : String) (authorization : Option String) where
  -- Once the organisation is found, hosted introspection does what the flat handler does for the scoped
  -- issuer in the organisation's context without its client apps, on every branch and with the same
  -- state after it.
  pub hosted_introspect-handle_introspect :
      (request : Request) (org : OrgContext) (w w' : World)
      → resolve_org henv slug authorization w ≡ (ok org, w')
      → hosted_introspect henv slug issuer authorization request w
        ≡ handle_introspect henv.base (unscoped org.context) (full_issuer slug issuer) request w'
  unfolding hosted_introspect handle_introspect find_caller bind
  hosted_introspect-handle_introspect request org w w' found =
      let ctx = org.context in
      let token = strip (or_empty (lookup "token" request.form)) in
      let keys = ctx.keys.jwks_keys (full_issuer slug issuer) in
      rw found (
        bind_ext (find_caller ctx request.form, w') _ _
          λ _.
            bind_ext (raise_if (is_empty token) (http 400 "invalid_request"), w') _ _
              λ _.
                ap (λ r. (r, (with_keys keys w').1))
                  (hosted_respond-respond henv.base ctx (sp_key request.form)
                    (verify_token henv.base.codec token (keys w'.keys).0)))

  -- Once the organisation is found, the hosted keys are those that the flat handler publishes for the
  -- scoped issuer in the organisation's context.
  hosted_jwks-handle_jwks :
      (request : Request) (org : OrgContext) (w w' : World)
      → resolve_org henv slug authorization w ≡ (ok org, w')
      → hosted_jwks henv slug issuer authorization request w
        ≡ handle_jwks henv.base org.context (full_issuer slug issuer) request w'
  unfolding hosted_jwks handle_jwks bind
  hosted_jwks-handle_jwks request org w w' found = rw found refl

  -- Where the organisation is found without a header, the hosted user info is that of the flat handler
  -- for the header `authorization`, or "" without it.
  hosted_userinfo-handle_userinfo :
      (request : Request) (org : OrgContext) (w : World)
      → get_org henv slug none ≡ ok org
      → hosted_userinfo henv slug issuer request w
        ≡ handle_userinfo henv.base org.context
            (full_issuer slug issuer)
            (or_empty (get_header "authorization" request.headers))
            w
  unfolding hosted_userinfo handle_userinfo bind
  hosted_userinfo-handle_userinfo request org w found = rw found refl
