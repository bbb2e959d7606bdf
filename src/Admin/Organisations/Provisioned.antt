-- ===== src/Admin/Organisations/Provisioned.antt =====
-- What the routes for organisations change, and whom a new organisation lets in.
use mock_idp.Common.{
  String, true, false, ◌||◌, Option, none, some, ◌≡◌, ◌≢◌, refl, ap, sym, ◌∙◌, List, [], ◌∷◌, ◌++◌,
  arith, Bool-cases, inl, inr, if◌then◌else◌, ◌==◌, eq_iff, eq_refl,
}
use mock_idp.Text.{◌<>◌, strip_prefix}
use mock_idp.Text.Suffix.{strip_prefix-append}
use mock_idp.Dict.{Dict, lookup, insert, lookup-insert}
use mock_idp.Value.{Claims}
use mock_idp.Result.{Result, ok, err, http}
use mock_idp.World.{bind}
use mock_idp.Handler.Context.{KeyResolver}
use mock_idp.Handler.Grants.{is_text}
use mock_idp.Hosted.Context.{HostedEnv, OrgContext, get_org, check_org, has_hash, verify_api_key}
use mock_idp.Orgs.Registry.{
  OrgRow, OrgEntry, Registry, org_entry, load_org, provision, registry_get, taken, register,
  hosted_orgs, make_token_context,
}
use mock_idp.Admin.Organisations.{AdminEnv, CreatedOrg, require_hosted_admin, admin_create_org}

abbrev pub new_row : AdminEnv → String → String → OrgRow
new_row aenv slug tier = record {
  org_id = slug;
  slug = slug;
  tier = tier;
  api_key_hash = some (aenv.sha256_hex aenv.plaintext);
}

-- the entry of the new organisation
abbrev pub new_entry : AdminEnv → String → String → Registry → OrgEntry
new_entry aenv slug tier r =
    let row = new_row aenv slug tier in
    org_entry aenv.loads
      (provision slug aenv.first_token (record r.db { orgs = r.db.orgs ++ row ∷ [] })) row

module _ (aenv : AdminEnv) (token : Option String) (slug tier : String) (r : Registry) where
  abbrev registered : Result (OrgEntry × String) × Registry
  registered = register aenv.loads aenv.sha256_hex aenv.plaintext aenv.first_token slug tier r

  -- the steps of a request that is answered
  created_inv :
      {c : CreatedOrg}
      → (admin_create_org aenv token slug tier r).0 ≡ ok c
      → (taken (new_row aenv slug tier) r.db.orgs ≡ false)
        × ((tier == "pro" || tier == "enterprise") ≡ true)
        × (c ≡ record { slug = slug; tier = tier; api_key = aenv.plaintext })
        × ((admin_create_org aenv token slug tier r).1 ≡ registered.1)
  unfolding admin_create_org require_hosted_admin bind register
  created_inv h = ground arith

not_sandbox :
    (tier : String) → (tier == "pro" || tier == "enterprise") ≡ true → (tier == "sandbox") ≡ false
not_sandbox tier h = elim (Bool-cases (tier == "pro")) [
  | inl pro ↦ ap (λ t. t == "sandbox") ((eq_iff tier "pro").0 pro)
  | inr other ↦ ap (λ t. t == "sandbox") ((eq_iff tier "enterprise").0 (sym (rw other refl) ∙ h))
]

-- an organisation that is no sandbox, asked with a key
key_checked :
    (henv : HostedEnv) (org : OrgContext) {hash : String} (k : String)
    → (org.tier == "sandbox") ≡ false
    → org.api_key_hash ≡ some hash
    → check_org henv (some ("Bearer " <> k)) (some org)
      ≡ (if hash == henv.sha256_hex k then ok org else err (http 401 "invalid_api_key"))
unfolding verify_api_key
key_checked henv org k checked hash =
    ap
      (λ b.
        if (if b
          then true
          else has_hash henv.sha256_hex org.api_key_hash (strip_prefix "Bearer " ("Bearer " <> k)))
        then ok org
        else err (http 401 "invalid_api_key"))
      checked
    ∙ ap
        (λ o.
          if has_hash henv.sha256_hex org.api_key_hash o
          then ok org
          else err (http 401 "invalid_api_key"))
        (strip_prefix-append "Bearer " k)
    ∙ ap (λ o. if is_text o (henv.sha256_hex k) then ok org else err (http 401 "invalid_api_key"))
        hash

module _ (keys : OrgEntry → KeyResolver)
    (write : OrgEntry → Claims → List Claims → Option (List Claims)) (iss_base : String) where
  abbrev pub hosted_org : OrgEntry → OrgContext
  hosted_org entry = record {
    slug = entry.slug;
    tier = entry.tier;
    api_key_hash = entry.api_key_hash;
    context = make_token_context (keys entry) (write entry) iss_base entry;
  }

  abbrev pub hosted_option : Option OrgEntry → Option OrgContext
  hosted_option none = none
  hosted_option (some entry) = some (hosted_org entry)

  lookup-hosted_orgs :
      (slug : String) (orgs : Dict OrgEntry)
      → lookup slug (hosted_orgs keys write iss_base orgs) ≡ hosted_option (lookup slug orgs)
  unfolding lookup hosted_orgs
  lookup-hosted_orgs slug [] = refl
  lookup-hosted_orgs slug ((name, e) ∷ orgs) = elim (Bool-cases (name == slug)) [
    | inl same ↦ rw same refl
    | inr other ↦ rw other (lookup-hosted_orgs slug orgs)
  ]

  module _ (aenv : AdminEnv) (token : Option String) (slug tier : String) (r : Registry) where
    registered_orgs :
        taken (new_row aenv slug tier) r.db.orgs ≡ false
        → (registered aenv token slug tier r).1.orgs
          ≡ insert slug (new_entry aenv slug tier r) r.orgs
    unfolding register load_org
    registered_orgs free = rw free refl

    -- what the hosted routes find after the request
    abbrev pub later_env : HostedEnv → HostedEnv
    later_env henv = record henv {
      orgs = hosted_orgs keys write iss_base (admin_create_org aenv token slug tier r).1.orgs;
      sha256_hex = aenv.sha256_hex;
    }

    found_later :
        {c : CreatedOrg}
        → (admin_create_org aenv token slug tier r).0 ≡ ok c
        → (s : String)
        → registry_get s (admin_create_org aenv token slug tier r).1
          ≡ (if slug == s then some (new_entry aenv slug tier r) else registry_get s r)
    found_later h s =
        let (free, allowed, shown, after) = created_inv aenv token slug tier r h in
        ap (registry_get s) after
        ∙ ap (lookup s) (registered_orgs free)
        ∙ lookup-insert slug s (new_entry aenv slug tier r) r.orgs

    pub admin_create_org-get_org :
        (henv : HostedEnv) {c : CreatedOrg} (k s : String)
        → (admin_create_org aenv token slug tier r).0 ≡ ok c
        → s ≢ slug
        → (get_org (later_env henv) slug (some ("Bearer " <> k)) ≡ (
            if aenv.sha256_hex c.api_key == aenv.sha256_hex k
            then ok (hosted_org (new_entry aenv slug tier r))
            else err (http 401 "invalid_api_key")))
          × (get_org (later_env henv) slug none ≡ err (http 401 "invalid_api_key"))
          × (registry_get s (admin_create_org aenv token slug tier r).1 ≡ registry_get s r)
    unfolding get_org verify_api_key org_entry
    admin_create_org-get_org henv k s h ne =
        let (free, allowed, shown, after) = created_inv aenv token slug tier r h in
        let orgs = (admin_create_org aenv token slug tier r).1.orgs in
        let other : (slug == s) ≡ false = ground (arith, eq_iff slug s) in
        let known : lookup slug (hosted_orgs keys write iss_base orgs)
            ≡ some (hosted_org (new_entry aenv slug tier r)) =
          lookup-hosted_orgs slug orgs
          ∙ ap hosted_option (
              found_later h slug
              ∙ ap (λ b. if b then some (new_entry aenv slug tier r) else registry_get slug r)
                  (eq_refl slug)) in
        let checked = not_sandbox tier allowed in
        (
          ap (check_org (later_env henv) (some ("Bearer " <> k))) known
              ∙ key_checked (later_env henv) (hosted_org (new_entry aenv slug tier r)) k checked
                  refl
              ∙ ap
                  (λ (c : CreatedOrg).
                    if aenv.sha256_hex c.api_key == aenv.sha256_hex k
                    then ok (hosted_org (new_entry aenv slug tier r))
                    else err (http 401 "invalid_api_key"))
                  (sym shown),
          ap (check_org (later_env henv) none) known ∙ rw checked refl,
          found_later h s
              ∙ ap (λ b. if b then some (new_entry aenv slug tier r) else registry_get s r) other,
        )
