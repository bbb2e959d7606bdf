-- ===== src/Orgs/Registry/Remains.antt =====
-- What is left of an organisation that is removed.
use mock_idp.Common.{
  String, true, some, ◌≡◌, refl, ap, sym, ◌∙◌, [], ◌∷◌, ◌++◌, arith, Bool-cases, inl, inr,
  if◌then◌else◌, eq_refl, or_else,
}
use mock_idp.Dict.{Dict, lookup, lookup-insert}
use mock_idp.Result.{ok}
use mock_idp.Store.Postgres.{Loads, ConfigRow, Snapshot, new_store, reload_pg}
use mock_idp.Orgs.Registry.{
  OrgRow, Database, OrgEntry, Registry, fetch, org_entry, load_org, provision, register, deregister,
  has_slug, no_rows, or_config, first_config,
}

deregister-tables : (slug : String) (r : Registry) → (deregister slug r).1.db.tables ≡ r.db.tables
unfolding deregister
deregister-tables slug r = elim (Bool-cases (has_slug slug r.db.orgs)) [
  | inl present ↦ rw present refl
  | inr absent ↦ rw absent refl
]

-- where there is a configuration row, the queries find after the provision what they found before
fetch-provision :
    (slug admin_token : String) (db : Database) (cfg : ConfigRow)
    → (fetch db slug).cfg_row ≡ some cfg
    → fetch (provision slug admin_token db) slug ≡ fetch db slug
unfolding provision
fetch-provision slug admin_token db cfg has_cfg =
    let found = fetch db slug in
    let kept : Snapshot = record found {
      cfg_row = or_config (first_config admin_token) found.cfg_row;
    } in
    ap (λ o. or_else o no_rows)
      (lookup-insert slug slug kept db.tables
        ∙ ap (λ b. if b then some kept else lookup slug db.tables) (eq_refl slug))
    ∙ ap (λ o. record found { cfg_row = o })
        (ap (or_config (first_config admin_token)) has_cfg ∙ sym has_cfg)

registered_entry :
    (loads : Loads) (sha256_hex : String → String) (plaintext admin_token slug tier : String)
    (r : Registry) {entry : OrgEntry} {key : String}
    → (register loads sha256_hex plaintext admin_token slug tier r).0 ≡ ok (entry, key)
    → let row : OrgRow = record {
      org_id = slug;
      slug = slug;
      tier = tier;
      api_key_hash = some (sha256_hex plaintext);
    } in
      entry
      ≡ org_entry loads
          (provision slug admin_token (record r.db { orgs = r.db.orgs ++ row ∷ [] }))
          row
unfolding register load_org
registered_entry loads sha256_hex plaintext admin_token slug tier r h = ground arith

-- An organisation that is removed and registered again under its slug, with whatever key and admin
-- token, starts with the identities and the configuration that the removed one has in the database, if
-- it has a configuration row: its users, service principals, client apps, mode and admin token.
pub register-deregister :
    (loads : Loads) (sha256_hex : String → String) (plaintext admin_token slug tier : String)
    (r : Registry) (cfg : ConfigRow) {entry : OrgEntry} {key : String}
    → (fetch r.db slug).cfg_row ≡ some cfg
    → (register loads sha256_hex plaintext admin_token slug tier (deregister slug r).1).0
      ≡ ok (entry, key)
    → entry.store
      ≡ reload_pg loads (some (fetch r.db slug)) (record (new_store slug) { pool = true })
unfolding org_entry
register-deregister loads sha256_hex plaintext admin_token slug tier r cfg has_cfg h =
    let gone = (deregister slug r).1 in
    let row : OrgRow = record {
      org_id = slug;
      slug = slug;
      tier = tier;
      api_key_hash = some (sha256_hex plaintext);
    } in
    let db : Database = record gone.db { orgs = gone.db.orgs ++ row ∷ [] } in
    let same : fetch db slug ≡ fetch r.db slug =
      ap (λ (t : Dict Snapshot). or_else (lookup slug t) no_rows) (deregister-tables slug r) in
    ap (λ (e : OrgEntry). e.store)
      (registered_entry loads sha256_hex plaintext admin_token slug tier gone h)
    ∙ ap (λ found. reload_pg loads (some found) (record (new_store slug) { pool = true }))
        (fetch-provision slug admin_token db cfg (ap (λ (s : Snapshot). s.cfg_row) same ∙ has_cfg)
          ∙ same)
