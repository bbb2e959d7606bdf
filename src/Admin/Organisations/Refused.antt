-- ===== src/Admin/Organisations/Refused.antt =====
-- Which requests the routes for organisations refuse, and what a removal leaves.
use mock_idp.Common.{
  String, true, false, Option, none, some, ◌≡◌, ◌≢◌, refl, ap, ◌∙◌, arith, inl, inr, ◌⊎◌,
  if◌then◌else◌, ◌==◌, eq_iff, eq_refl, Bool-cases, Option-cases, ne_of_eq_false,
}
use mock_idp.Dict.{lookup-erase}
use mock_idp.Result.{ok, err, http, Error}
use mock_idp.World.{bind}
use mock_idp.Handler.Grants.{is_text}
use mock_idp.Orgs.Registry.{OrgEntry, Registry, registry_get, deregister, push_config}
use mock_idp.Admin.Guarded.{wrong_token}
use mock_idp.Handler.Token.Outcome.{is_text-eq}
use mock_idp.Admin.Organisations.{
  AdminEnv, require_hosted_admin, admin_create_org, admin_list_orgs, admin_delete_org,
  admin_push_config,
}

abbrev admin_error : Error
admin_error = http 403 "invalid admin token"

abbrev hosted_error : Error
hosted_error = http 404 "hosted mode not enabled"

-- Without the admin token the routes for organisations refuse with 403, with it and without the hosted
-- mode with 404; either way they change nothing.
pub admin_orgs-forbidden :
    (aenv : AdminEnv) (token : Option String) (slug tier config_yaml : String) (r : Registry)
    → (token ≢ some aenv.base.cfg.admin_token)
      ⊎ ((token ≡ some aenv.base.cfg.admin_token) × (aenv.hosted ≡ false))
    → let e = if is_text token aenv.base.cfg.admin_token then hosted_error else admin_error in
      (admin_create_org aenv token slug tier r ≡ (err e, r))
      × (admin_list_orgs aenv token r ≡ (err e, r))
      × (admin_delete_org aenv token slug r ≡ (err e, r))
      × (admin_push_config aenv token slug config_yaml r ≡ (err e, r))
unfolding admin_create_org admin_list_orgs admin_delete_org admin_push_config require_hosted_admin
    bind
admin_orgs-forbidden aenv token slug tier config_yaml r (inl ne) =
    let no = wrong_token aenv.base token ne in (rw no refl, rw no refl, rw no refl, rw no refl)
admin_orgs-forbidden aenv token slug tier config_yaml r (inr (same, flat)) =
    let known : is_text token aenv.base.cfg.admin_token ≡ true =
      ap (λ t. is_text t aenv.base.cfg.admin_token) same ∙ eq_refl aenv.base.cfg.admin_token in
    (
      rw known (rw flat refl),
      rw known (rw flat refl),
      rw known (rw flat refl),
      rw known (rw flat refl),
    )

-- why a push is refused, in the order of the checks, and with which error
pub data Refusal (aenv : AdminEnv) (token : Option String) (slug : String) (r : Registry)
    : Error → Type 0 where
  wrong : token ≢ some aenv.base.cfg.admin_token → Refusal aenv token slug r admin_error
  flat :
      token ≡ some aenv.base.cfg.admin_token
      → aenv.hosted ≡ false
      → Refusal aenv token slug r hosted_error
  unknown :
      token ≡ some aenv.base.cfg.admin_token
      → aenv.hosted ≡ true
      → registry_get slug r ≡ none
      → Refusal aenv token slug r (http 404 "org_not_found")
  readonly :
      token ≡ some aenv.base.cfg.admin_token
      → aenv.hosted ≡ true
      → (ctx : OrgEntry) → registry_get slug r ≡ some ctx
      → slug ≡ "sandbox"
      → Refusal aenv token slug r (http 400 "sandbox_config_is_readonly")
  invalid :
      token ≡ some aenv.base.cfg.admin_token
      → aenv.hosted ≡ true
      → (ctx : OrgEntry) → registry_get slug r ≡ some ctx
      → slug ≢ "sandbox"
      → Refusal aenv token slug r (http 422 "invalid_config")

-- Every request to push a configuration is refused and changes nothing, whatever the configuration and
-- whatever reads it: with 403 without the admin token, with it and without the hosted mode with 404,
-- then with 404 for an unknown organisation, with 400 for the sandbox, and with 422 for any other.
pub admin_push_config-Refusal :
    (aenv : AdminEnv) (token : Option String) (slug config_yaml : String) (r : Registry)
    → (e : Error) × Refusal aenv token slug r e
      × (admin_push_config aenv token slug config_yaml r ≡ (err e, r))
unfolding admin_push_config require_hosted_admin push_config bind
admin_push_config-Refusal aenv token slug config_yaml r =
    elim (Bool-cases (is_text token aenv.base.cfg.admin_token)) [
      | inr mistaken ↦ (
        admin_error,
        wrong (λ e.
            let right : is_text token aenv.base.cfg.admin_token ≡ true =
              ap (λ t. is_text t aenv.base.cfg.admin_token) e ∙ eq_refl aenv.base.cfg.admin_token in
            cc),
        rw mistaken refl,
      )
      | inl right ↦
          let same = is_text-eq token aenv.base.cfg.admin_token right in
          elim (Bool-cases aenv.hosted) [
            | inr off ↦ (hosted_error, flat same off, rw (right, off) refl)
            | inl on ↦ elim (Option-cases (registry_get slug r)) [
              | inl missing ↦
                  (http 404 "org_not_found", unknown same on missing, rw (right, on, missing) refl)
              | inr (ctx, found) ↦ elim (Bool-cases (slug == "sandbox")) [
                | inl box ↦ (
                  http 400 "sandbox_config_is_readonly",
                  readonly same on ctx found ((eq_iff slug "sandbox").0 box),
                  rw (right, on, found, box) refl,
                )
                | inr other ↦ (
                  http 422 "invalid_config",
                  invalid same on ctx found (ne_of_eq_false slug "sandbox" other),
                  rw (right, on, found, other) refl,
                )
              ]
            ]
          ]
    ]

-- A removal that succeeds is not of the sandbox; afterwards the slug has no organisation in memory, and
-- every other slug has the one that it had.
pub admin_delete_org-removed :
    (aenv : AdminEnv) (token : Option String) (slug s : String) (r : Registry)
    → (admin_delete_org aenv token slug r).0 ≡ ok tt
    → (slug ≢ "sandbox")
      × (registry_get s (admin_delete_org aenv token slug r).1
          ≡ (if slug == s then none else registry_get s r))
unfolding admin_delete_org require_hosted_admin deregister bind
admin_delete_org-removed aenv token slug s r h =
    (ground (arith, eq_iff slug "sandbox"), ground (arith, lookup-erase slug s r.orgs))
