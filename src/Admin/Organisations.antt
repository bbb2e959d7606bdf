-- ===== src/Admin/Organisations.antt =====
-- src/mock_idp/routers/admin.py: the routes for organisations, over the registry. A response is modelled
-- by the data it shows; the URLs in it are left out.
pub mod Provisioned
pub mod Refused
use mock_idp.Common.{
  ℕ, String, Bool, true, false, not, ◌||◌, Option, none, some, List, [], ◌∷◌, length, ◌==◌,
}
use mock_idp.Dict.{Dict}
use mock_idp.Result.{Result, ok, err, http, raise_if}
use mock_idp.World.{Stateful, ◌>>=◌, ◌>>◌, pure, lift}
use mock_idp.Handler.Context.{Env}
use mock_idp.Handler.Grants.{is_text}
use mock_idp.Store.Postgres.{Loads}
use mock_idp.Orgs.Registry.{
  OrgEntry, Registry, Pushing, registry_get, register, deregister, push_config,
}

-- What the routes find: the configuration, whether the hosted mode is on, the reading of JSON and of a
-- configuration that is pushed, the hexadecimal SHA-256 of a text, and the two texts that `secrets`
-- draws next.
pub record AdminEnv : Type 0 where
  pub base : Env
  pub hosted : Bool
  pub loads : Loads
  pub pushing : Pushing
  pub sha256_hex : String → String
  pub plaintext : String
  pub first_token : String

abbrev pub RegistryAction : Type 0 → Type 0
RegistryAction A = Stateful Registry A

-- the admin token, and `_require_hosted`
unfoldable pub require_hosted_admin : AdminEnv → Option String → RegistryAction (Unit {0})
require_hosted_admin aenv x_admin_token = do
  lift (
      raise_if (not (is_text x_admin_token aenv.base.cfg.admin_token))
        (http 403 "invalid admin token"))
  lift (raise_if (not aenv.hosted) (http 404 "hosted mode not enabled"))

abbrev is_some : Option OrgEntry → Bool
is_some none = false
is_some (some _) = true

abbrev get_entry : String → RegistryAction (Option OrgEntry)
get_entry slug registry = (ok (registry_get slug registry), registry)

-- the slug, the tier and the key of a new organisation
pub record CreatedOrg : Type 0 where
  pub slug : String
  pub tier : String
  pub api_key : String

unfoldable pub admin_create_org :
    AdminEnv → Option String → String → String → RegistryAction CreatedOrg
unfolding require_hosted_admin
admin_create_org aenv x_admin_token slug tier = do
  require_hosted_admin aenv x_admin_token
  found ← get_entry slug
  lift (raise_if (is_some found) (http 409 "org_exists"))
  lift (raise_if (not (tier == "pro" || tier == "enterprise")) (http 400 "invalid_tier"))
  created ← register aenv.loads aenv.sha256_hex aenv.plaintext aenv.first_token slug tier
  pure (record { slug = slug; tier = tier; api_key = created.1 })

-- the slug, the tier and the id of each organisation
abbrev listing : Dict OrgEntry → List (String × String × String)
listing [] = []
listing ((slug, ctx) ∷ orgs) = (ctx.slug, ctx.tier, ctx.org_id) ∷ listing orgs

unfoldable pub admin_list_orgs :
    AdminEnv → Option String → RegistryAction (List (String × String × String))
unfolding require_hosted_admin
admin_list_orgs aenv x_admin_token = do
  require_hosted_admin aenv x_admin_token
  λ registry. (ok (listing registry.orgs), registry)

abbrev deregistered_or_not : String → RegistryAction Bool
deregistered_or_not slug registry =
    let (deleted, registry') = deregister slug registry in (ok deleted, registry')

unfoldable pub admin_delete_org : AdminEnv → Option String → String → RegistryAction (Unit {0})
unfolding require_hosted_admin deregister
admin_delete_org aenv x_admin_token slug = do
  require_hosted_admin aenv x_admin_token
  lift (raise_if (slug == "sandbox") (http 400 "cannot_delete_sandbox"))
  deleted ← deregistered_or_not slug
  lift (raise_if (not deleted) (http 404 "org_not_found"))

-- `except Exception`
abbrev or_invalid : Result (Unit {0}) × Registry → Result (Unit {0}) × Registry
or_invalid (ok _, registry) = (ok tt, registry)
or_invalid (err _, registry) = (err (http 422 "invalid_config"), registry)

-- the numbers of users and of service principals
abbrev counts : OrgEntry → ℕ × ℕ
counts ctx = (length ctx.store.users, length ctx.store.service_principals)

abbrev found_or_404 : Option OrgEntry → RegistryAction OrgEntry
found_or_404 none = lift (err (http 404 "org_not_found"))
found_or_404 (some ctx) = pure ctx

unfoldable pub admin_push_config :
    AdminEnv → Option String → String → String → RegistryAction (ℕ × ℕ)
unfolding require_hosted_admin push_config
admin_push_config aenv x_admin_token slug config_yaml = do
  require_hosted_admin aenv x_admin_token
  found ← get_entry slug
  ctx ← found_or_404 found
  lift (raise_if (slug == "sandbox") (http 400 "sandbox_config_is_readonly"))
  λ registry. or_invalid (push_config aenv.loads aenv.pushing slug config_yaml registry)
  pure (counts ctx)
