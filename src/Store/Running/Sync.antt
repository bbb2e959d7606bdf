-- ===== src/Store/Running/Sync.antt =====
-- src/mock_idp/config.py: the module variables after a start with the PostgreSQL backend.
use mock_idp.Common.{
  String, Bool, true, Option, none, some, ◌≡◌, refl, ap, sym, ◌∙◌, subst, if◌then◌else◌,
}
use mock_idp.Text.{truthy, or_empty}
use mock_idp.Result.{Result, ok, err}
use mock_idp.Dict.{Dict}
use mock_idp.Store.Yaml.{Tables}
use mock_idp.Store.Postgres.{
  PgStore, Loads, ConfigRow, Snapshot, new_store, take_config, take_modes, then_tables,
  build_tables, origins_or_any, parse_jsonb, fetch_and_apply, startup,
}
use mock_idp.Store.Postgres.Events.{EventTable}
use mock_idp.Store.Postgres.Reload.{pooled}
use mock_idp.Store.Running.{boot, lifespan_start, reload_config, config}
use mock_idp.Store.Running.Backends.{pg_store}

-- the mode is taken before anything can fail
fetch_and_apply-mode :
    (loads : Loads) (snapshot : Snapshot) (store : PgStore) (cfg : ConfigRow)
    → snapshot.cfg_row ≡ some cfg
    → let r = (fetch_and_apply loads snapshot store).1 in
      (r.mode ≡ cfg.auth_mode) × (r.admin_token ≡ cfg.admin_token)
unfolding fetch_and_apply take_config
fetch_and_apply-mode loads snapshot store cfg has_cfg =
    subst
      (λ o.
        let r = (then_tables (build_tables loads snapshot) (take_config loads o store)).1 in
        (r.mode ≡ cfg.auth_mode) × (r.admin_token ≡ cfg.admin_token))
      (sym has_cfg)
      (applied (parse_jsonb loads.modes cfg.issuer_modes) (build_tables loads snapshot))
  where
    taken : PgStore
    taken = record store {
      mode = cfg.auth_mode;
      admin_token = cfg.admin_token;
      cors_origins = origins_or_any cfg.cors_allow_origins;
    }

    applied :
        (m : Option (Dict String)) (t : Option Tables)
        → let r = (then_tables t (take_modes m taken)).1 in
          (r.mode ≡ cfg.auth_mode) × (r.admin_token ≡ cfg.admin_token)
    applied none t = (refl, refl)
    applied (some m) none = (refl, refl)
    applied (some m) (some t) = (refl, refl)

then_tables-pool :
    (t : Option Tables) (p : Result (Unit {0}) × PgStore) → (then_tables t p).1.pool ≡ p.1.pool
then_tables-pool none (ok _, s) = refl
then_tables-pool (some t) (ok _, s) = refl
then_tables-pool t (err e, s) = refl

take_modes-pool : (m : Option (Dict String)) (s : PgStore) → (take_modes m s).1.pool ≡ s.pool
take_modes-pool none s = refl
take_modes-pool (some m) s = refl

take_config-pool :
    (loads : Loads) (o : Option ConfigRow) (s : PgStore) → (take_config loads o s).1.pool ≡ s.pool
unfolding take_config
take_config-pool loads none s = refl
take_config-pool loads (some row) s = take_modes-pool (parse_jsonb loads.modes row.issuer_modes) _

startup-pool :
    (loads : Loads) (snapshot : Snapshot) (s : PgStore)
    → (startup loads (some snapshot) s).pool ≡ true
unfolding fetch_and_apply
startup-pool loads snapshot s =
    let open_store : PgStore = record s { pool = true } in
    ap (λ (r : PgStore). r.pool) (pooled loads (some snapshot) open_store refl)
    ∙ then_tables-pool (build_tables loads snapshot) (take_config loads snapshot.cfg_row open_store)
    ∙ take_config-pool loads snapshot.cfg_row open_store

abbrev pub token_or : Option String → String → String
token_or env_token token = if truthy env_token then or_empty env_token else token

-- With the PostgreSQL backend, whatever configuration row the database has, the program runs after its
-- start in the mode lax and with the admin token `change-me`, unless the environment gives one, until a
-- reload takes mode and token from the row.
pub pg_store-stale :
    (loads : Loads) (connected : Bool) (env_token : Option String) (iss_base org_id : String)
    (snapshot : Snapshot) (cfg : ConfigRow) (events : EventTable)
    → snapshot.cfg_row ≡ some cfg
    → let S = pg_store loads connected in
      let r = lifespan_start S (some snapshot) (boot S env_token (new_store org_id, events)) in
      let r' = reload_config S env_token (some snapshot) r in
      ((config S iss_base r).mode ≡ "lax")
      × ((config S iss_base r).admin_token ≡ token_or env_token "change-me")
      × ((config S iss_base r').mode ≡ cfg.auth_mode)
      × ((config S iss_base r').admin_token ≡ token_or env_token cfg.admin_token)
unfolding boot lifespan_start reload_config config
pg_store-stale loads connected env_token iss_base org_id snapshot cfg events has_cfg =
    let store = startup loads (some snapshot) (new_store org_id) in
    let (mode, token) = fetch_and_apply-mode loads snapshot store cfg has_cfg in
    let again =
      pooled loads (some snapshot) store (startup-pool loads snapshot (new_store org_id)) in
    (
      refl,
      refl,
      ap (λ (r : PgStore). r.mode) again ∙ mode,
      ap (λ (r : PgStore). token_or env_token r.admin_token) again ∙ ap (token_or env_token) token,
    )
