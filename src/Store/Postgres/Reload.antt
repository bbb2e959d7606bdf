-- ===== src/Store/Postgres/Reload.antt =====
-- What a reload from the database changes.
use mock_idp.Common.{
  String, true, Option, none, some, ◌≡◌, refl, ap, ◌∙◌, sym, List, [], ◌∷◌, ◌++◌, Option-cases, inl,
  inr, if◌then◌else◌,
}
use mock_idp.Dict.{Dict, lookup, update, update-append, lookup_last, lookup-copied}
use mock_idp.Result.{Result, ok, err}
use mock_idp.Models.{UserRecord, ServicePrincipalRecord, ClientAppRecord, valid_version}
use mock_idp.Store.Yaml.{Tables}
use mock_idp.Store.Yaml.Lookups.{sp_names, add_sp-update}
use mock_idp.Store.Postgres.{
  PgStore, Loads, ConfigRow, UserRow, SpRow, AppRow, Snapshot, ◌>>=◌, parse_jsonb, user_record,
  sp_record, app_record, add_user, add_sp_row, add_sp_raw, add_app, load_rows, build_tables,
  take_config, take_modes, tables_after, try_apply, then_tables, origins_or_any, fetch_and_apply,
  reload_pg,
}

-- the entries that rows stand for, in their order; `none` if a row cannot be read
abbrev pub entries {ℓ κ} :
    {R : Type ℓ} {V : Type κ} → (R → Option (Dict V)) → List R → Option (Dict V)
entries entry [] = some []
entries entry (row ∷ rows) =
    entry row >>= λ first. entries entry rows >>= λ rest. some (first ++ rest)

abbrev pub user_entry : Loads → UserRow → Option (Dict UserRecord)
user_entry loads row = user_record loads row >>= λ user. some ((row.username, user) ∷ [])

-- a service principal under its name, and under its client id if that differs
abbrev pub sp_entry : Loads → SpRow → Option (Dict ServicePrincipalRecord)
sp_entry loads row = sp_record loads row >>= λ sp. some (sp_names row.name sp)

abbrev pub raw_entry : Loads → SpRow → Option (Dict ServicePrincipalRecord)
raw_entry loads row = sp_record loads row >>= λ sp. some ((row.name, sp) ∷ [])

abbrev pub app_entry : Loads → AppRow → Option (Dict ClientAppRecord)
app_entry loads row = app_record loads row >>= λ app. some ((row.audience, app) ∷ [])

module _ {ℓ κ} {R : Type ℓ} {V : Type κ} (add : R → Dict V → Option (Dict V))
    (entry : R → Option (Dict V))
    (step : (row : R) (table : Dict V)
      → add row table ≡ (entry row >>= λ first. some (update table first))) where
  load_rows-entries :
      (table : Dict V) (rows : List R)
      → load_rows add table rows ≡ (entries entry rows >>= λ listed. some (update table listed))
  unfolding load_rows update
  load_rows-entries table [] = refl
  load_rows-entries table (row ∷ rows) = elim (Option-cases (entry row)) [
    | inl e ↦ rw (step row table, e) refl
    | inr (d, e) ↦
        rw (step row table, e)
          (load_rows-entries (update table d) rows ∙ elim (Option-cases (entries entry rows)) [
            | inl none_left ↦ rw none_left refl
            | inr (rest, all) ↦ rw all (ap some (sym (update-append table d rest)))
          ])
  ]

  load_rows-none :
      (table : Dict V) (before : List R) (row : R) (after : List R)
      → entry row ≡ none
      → load_rows add table (before ++ row ∷ after) ≡ none
  unfolding load_rows
  load_rows-none table [] row after h = rw (step row table, h) refl
  load_rows-none table (x ∷ before) row after h = elim (Option-cases (entry x)) [
    | inl e ↦ rw (step x table, e) refl
    | inr (d, e) ↦ rw (step x table, e) (load_rows-none (update table d) before row after h)
  ]

user-step :
    (loads : Loads) (row : UserRow) (table : Dict UserRecord)
    → add_user loads row table ≡ (user_entry loads row >>= λ d. some (update table d))
unfolding update
user-step loads row table = elim (Option-cases (user_record loads row)) [
  | inl e ↦ rw e refl
  | inr (u, e) ↦ rw e refl
]

sp-step :
    (loads : Loads) (row : SpRow) (table : Dict ServicePrincipalRecord)
    → add_sp_row loads row table ≡ (sp_entry loads row >>= λ d. some (update table d))
sp-step loads row table = elim (Option-cases (sp_record loads row)) [
  | inl e ↦ rw e refl
  | inr (sp, e) ↦ rw e (ap some (add_sp-update row.name sp table))
]

raw-step :
    (loads : Loads) (row : SpRow) (table : Dict ServicePrincipalRecord)
    → add_sp_raw loads row table ≡ (raw_entry loads row >>= λ d. some (update table d))
unfolding update
raw-step loads row table = elim (Option-cases (sp_record loads row)) [
  | inl e ↦ rw e refl
  | inr (u, e) ↦ rw e refl
]

app-step :
    (loads : Loads) (row : AppRow) (table : Dict ClientAppRecord)
    → add_app loads row table ≡ (app_entry loads row >>= λ d. some (update table d))
unfolding update
app-step loads row table = elim (Option-cases (app_record loads row)) [
  | inl e ↦ rw e refl
  | inr (u, e) ↦ rw e refl
]

-- the JSON text of the configuration row, if there is one, can be read
abbrev pub ConfigReads : Loads → Option ConfigRow → Type 0
ConfigReads loads none = Unit
ConfigReads loads (some row) =
    (m : Dict String) × (parse_jsonb loads.modes row.issuer_modes ≡ some m)

-- every row can be read, and these are the entries
pub record Listed (loads : Loads) (snapshot : Snapshot) (users : Dict UserRecord)
    (sps raw : Dict ServicePrincipalRecord) (apps : Dict ClientAppRecord) : Type 0 where
  pub config : ConfigReads loads snapshot.cfg_row
  pub user_rows : entries (user_entry loads) snapshot.user_rows ≡ some users
  pub sp_rows : entries (sp_entry loads) snapshot.sp_rows ≡ some sps
  pub raw_rows : entries (raw_entry loads) snapshot.sp_rows ≡ some raw
  pub app_rows : entries (app_entry loads) snapshot.app_rows ≡ some apps

take_config-ok :
    (loads : Loads) (row : Option ConfigRow) (store : PgStore)
    → ConfigReads loads row
    → (take_config loads row store).0 ≡ ok tt
unfolding take_config
take_config-ok loads none store h = refl
take_config-ok loads (some row) store (m, h) = rw h refl

module _ (loads : Loads) (snapshot : Snapshot) {users : Dict UserRecord}
    {sps raw : Dict ServicePrincipalRecord} {apps : Dict ClientAppRecord}
    (h : Listed loads snapshot users sps raw apps) where
  built :
      build_tables loads snapshot
      ≡ some (record {
        users = update [] users;
        sps = update [] sps;
        sps_raw = update [] raw;
        apps = update [] apps;
      })
  unfolding build_tables
  built =
      rw
        (load_rows-entries (add_user loads) (user_entry loads) (user-step loads) []
          snapshot.user_rows)
        (rw h.user_rows (
          rw
            (load_rows-entries (add_sp_row loads) (sp_entry loads) (sp-step loads) []
              snapshot.sp_rows)
            (rw h.sp_rows (
              rw
                (load_rows-entries (add_sp_raw loads) (raw_entry loads) (raw-step loads) []
                  snapshot.sp_rows)
                (rw h.raw_rows (
                  rw
                    (load_rows-entries (add_app loads) (app_entry loads) (app-step loads) []
                      snapshot.app_rows)
                    (rw h.app_rows refl)))))))

-- the store with new tables
abbrev with_tables : Tables → PgStore → PgStore
with_tables t store = record store {
  users = update [] t.users;
  service_principals = update [] t.sps;
  service_principals_raw = update [] t.sps_raw;
  client_apps = update [] t.apps;
}

then_tables-ok :
    (t : Tables) (p : Result (Unit {0}) × PgStore)
    → p.0 ≡ ok tt
    → (then_tables (some t) p).1 ≡ with_tables t p.1
then_tables-ok t (ok _, store) h = refl
then_tables-ok t (err e, store) h = cc

pub pooled :
    (loads : Loads) (fetched : Option Snapshot) (store : PgStore)
    → store.pool ≡ true
    → reload_pg loads fetched store ≡ try_apply loads fetched store
unfolding reload_pg
pooled loads fetched store pool = ap (λ b. if b then try_apply loads fetched store else store) pool

-- After a reload whose rows can all be read, a name gives the entry of the last row for it: a user row
-- stands for its user name, a row of a service principal for its name and its client id, in the raw
-- table for its name alone, and a row of a client app for its audience.
pub lookup-reload_pg :
    (loads : Loads) (snapshot : Snapshot) (store : PgStore) {users : Dict UserRecord}
    {sps raw : Dict ServicePrincipalRecord} {apps : Dict ClientAppRecord} (k : String)
    → store.pool ≡ true
    → Listed loads snapshot users sps raw apps
    → let r = reload_pg loads (some snapshot) store in
      (lookup k r.users ≡ lookup_last k users)
      × (lookup k r.service_principals ≡ lookup_last k sps)
      × (lookup k r.service_principals_raw ≡ lookup_last k raw)
      × (lookup k r.client_apps ≡ lookup_last k apps)
unfolding fetch_and_apply
lookup-reload_pg loads snapshot store {users} {sps} {raw} {apps} k pool h =
    let t : Tables = record {
      users = update [] users;
      sps = update [] sps;
      sps_raw = update [] raw;
      apps = update [] apps;
    } in
    let taken = take_config loads snapshot.cfg_row store in
    let done : reload_pg loads (some snapshot) store ≡ with_tables t taken.1 =
      pooled loads (some snapshot) store pool
      ∙ ap (λ o. (then_tables o taken).1) (built loads snapshot h)
      ∙ then_tables-ok t taken (take_config-ok loads snapshot.cfg_row store h.config) in
    (
      ap (λ r. lookup k r.users) done ∙ lookup-copied k users,
      ap (λ r. lookup k r.service_principals) done ∙ lookup-copied k sps,
      ap (λ r. lookup k r.service_principals_raw) done ∙ lookup-copied k raw,
      ap (λ r. lookup k r.client_apps) done ∙ lookup-copied k apps,
    )

user_entry-none :
    (loads : Loads) (row : UserRow)
    → valid_version row.token_version ≡ none
    → user_entry loads row ≡ none
unfolding user_record
user_entry-none loads row h = elim (Option-cases (parse_jsonb loads.claims row.extra_claims)) [
  | inl e ↦ rw e refl
  | inr (d, e) ↦ rw e (rw h refl)
]

-- A reload whose queries fail keeps the store. But if there is a configuration row, and a user row has
-- a token version that is neither v1 nor v2, then the mode, the admin token, the origins and the modes
-- of the issuers are taken from the configuration row all the same, while every table of identities is
-- kept.
pub reload_pg-bad_user :
    (loads : Loads) (snapshot : Snapshot) (store : PgStore) (cfg : ConfigRow) {modes : Dict String}
    (before : List UserRow) (row : UserRow) (after : List UserRow)
    → store.pool ≡ true
    → snapshot.cfg_row ≡ some cfg
    → parse_jsonb loads.modes cfg.issuer_modes ≡ some modes
    → snapshot.user_rows ≡ before ++ row ∷ after
    → valid_version row.token_version ≡ none
    → (reload_pg loads none store ≡ store)
      × (reload_pg loads (some snapshot) store ≡ record store {
        mode = cfg.auth_mode;
        admin_token = cfg.admin_token;
        cors_origins = origins_or_any cfg.cors_allow_origins;
        issuer_modes = update [] modes;
      })
unfolding fetch_and_apply build_tables take_config
reload_pg-bad_user loads snapshot store cfg before row after pool has_cfg reads rows bad =
    let no_users : load_rows (add_user loads) [] snapshot.user_rows ≡ none = rw rows (
      load_rows-none (add_user loads) (user_entry loads) (user-step loads) [] before row after
        (user_entry-none loads row bad)) in
    let no_tables : build_tables loads snapshot ≡ none =
      ap (λ o. o >>= λ users. tables_after loads snapshot users) no_users in
    let taken : PgStore = record store {
      mode = cfg.auth_mode;
      admin_token = cfg.admin_token;
      cors_origins = origins_or_any cfg.cors_allow_origins;
    } in
    (
      pooled loads none store pool,
      pooled loads (some snapshot) store pool
          ∙ ap (λ o. (then_tables o (take_config loads snapshot.cfg_row store)).1) no_tables
          ∙ ap (λ o. (then_tables none (take_config loads o store)).1) has_cfg
          ∙ ap (λ o. (then_tables none (take_modes o taken)).1) reads,
    )
