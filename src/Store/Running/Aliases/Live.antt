-- ===== src/Store/Running/Aliases/Live.antt =====
-- What the variables of the configuration show after any number of reloads.
use mock_idp.Common.{String, Option, none, some, List, [], ◌∷◌, ◌≡◌, refl, ◌∙◌, if◌then◌else◌}
use mock_idp.Text.{truthy, or_empty}
use mock_idp.Dict.{lookup, lookup_last, lookup-update, no_second}
use mock_idp.Models.{AppConfig}
use mock_idp.Config.{Config}
use mock_idp.Store.Yaml.{apply}
use mock_idp.Store.Yaml.Lookups.{all_users, all_sps, all_raw, all_apps, lookup-apply}
use mock_idp.Store.Running.Aliases.{
  Program, first_scalars, new_refs, apply_in_place, bind_scalars, import_module, reload_module,
  reload_all, read_config,
}

-- the last configuration of a start and its reloads that could be validated
abbrev pub last_valid : AppConfig → List (Option AppConfig) → AppConfig
last_valid cfg [] = cfg
last_valid cfg (none ∷ cfgs) = last_valid cfg cfgs
last_valid cfg (some newer ∷ cfgs) = last_valid newer cfgs

-- The variables show a configuration: a name gives the entry that is listed last for it, and the scalars
-- are its own but for a token of the environment.
pub record Shows (env_token : Option String) (cfg : AppConfig) (c : Config) : Type 0 where
  pub users : (k : String) → lookup k c.users ≡ lookup_last k (all_users cfg.tenants)
  pub sps : (k : String) → lookup k c.service_principals ≡ lookup_last k (all_sps cfg.tenants)
  pub sps_raw :
      (k : String) → lookup k c.service_principals_raw ≡ lookup_last k (all_raw cfg.tenants)
  pub apps : (k : String) → lookup k c.client_apps ≡ lookup_last k (all_apps cfg.tenants)
  pub modes : (k : String) → lookup k c.issuer_modes ≡ lookup_last k cfg.issuer_modes
  pub mode : c.mode ≡ cfg.auth_mode
  pub admin_token :
      c.admin_token ≡ (if truthy env_token then or_empty env_token else cfg.admin_token)
  pub cors_origins : c.cors_origins ≡ cfg.cors_allow_origins
  pub webhooks : c.webhooks ≡ cfg.webhooks

-- Store and module refer to the same five dicts, which have the contents of the configuration.
record Wired (cfg : AppConfig) (p : Program) : Type 0 where
  own : p.fields ≡ new_refs 0
  shared : p.variables ≡ new_refs 0
  users : p.objects.users 1 ≡ (apply cfg).users
  sps : p.objects.sps 2 ≡ (apply cfg).service_principals
  sps_raw : p.objects.sps 3 ≡ (apply cfg).service_principals_raw
  apps : p.objects.apps 4 ≡ (apply cfg).client_apps
  modes : p.objects.modes 0 ≡ (apply cfg).issuer_modes
  attributes : p.attributes ≡ record {
    mode = cfg.auth_mode;
    admin_token = cfg.admin_token;
    cors_origins = cfg.cors_allow_origins;
    webhooks = cfg.webhooks;
  }

apply_in_place-Wired :
    (cfg : AppConfig) (p : Program)
    → p.fields ≡ new_refs 0
    → p.variables ≡ new_refs 0
    → Wired cfg (apply_in_place cfg p)
unfolding apply_in_place apply
apply_in_place-Wired cfg p own shared = record {
  own = own;
  shared = shared;
  users = rw own refl;
  sps = rw own refl;
  sps_raw = rw own refl;
  apps = rw own refl;
  modes = rw own refl;
  attributes = refl;
}

bind_scalars-Wired :
    (env_token : Option String) (cfg : AppConfig) (p : Program)
    → Wired cfg p
    → Wired cfg (bind_scalars env_token p)
bind_scalars-Wired env_token cfg p w = record {
  own = w.own;
  shared = w.shared;
  users = w.users;
  sps = w.sps;
  sps_raw = w.sps_raw;
  apps = w.apps;
  modes = w.modes;
  attributes = w.attributes;
}

lookup-apply_modes :
    (cfg : AppConfig) (k : String)
    → lookup k (apply cfg).issuer_modes ≡ lookup_last k cfg.issuer_modes
unfolding apply lookup
lookup-apply_modes cfg k =
    lookup-update k [] cfg.issuer_modes ∙ no_second (lookup_last k cfg.issuer_modes)

-- right after the scalars were bound
bind_scalars-Shows :
    (env_token : Option String) (iss_base : String) (cfg : AppConfig) (p : Program)
    → Wired cfg p
    → Shows env_token cfg (read_config iss_base (bind_scalars env_token p))
unfolding read_config
bind_scalars-Shows env_token iss_base cfg p w =
    let laws = lookup-apply cfg in
    record {
      users = λ k. rw w.shared (rw w.users ((laws k).0));
      sps = λ k. rw w.shared (rw w.sps ((laws k).1));
      sps_raw = λ k. rw w.shared (rw w.sps_raw ((laws k).2));
      apps = λ k. rw w.shared (rw w.apps ((laws k).3));
      modes = λ k. rw w.shared (rw w.modes (lookup-apply_modes cfg k));
      mode = rw w.attributes refl;
      admin_token = rw w.attributes refl;
      cors_origins = rw w.attributes refl;
      webhooks = rw w.attributes refl;
    }

reload_all-bound :
    (env_token : Option String) (iss_base : String) (cfg : AppConfig)
    (cfgs : List (Option AppConfig)) (p : Program)
    → Wired cfg p
    → Shows env_token
        (last_valid cfg cfgs)
        (read_config iss_base (reload_all env_token cfgs (bind_scalars env_token p)))
unfolding reload_all reload_module
reload_all-bound env_token iss_base cfg [] p w = bind_scalars-Shows env_token iss_base cfg p w
reload_all-bound env_token iss_base cfg (none ∷ cfgs) p w =
    reload_all-bound env_token iss_base cfg cfgs (bind_scalars env_token p)
      (bind_scalars-Wired env_token cfg p w)
reload_all-bound env_token iss_base cfg (some newer ∷ cfgs) p w =
    reload_all-bound env_token iss_base newer cfgs (apply_in_place newer (bind_scalars env_token p))
      (apply_in_place-Wired newer (bind_scalars env_token p) w.own w.shared)

-- With the YAML backend, after an import with a valid configuration and any number of reloads, valid or
-- not, the variables of the configuration show the last valid one: the dicts, which were bound once,
-- give for every name the entry that is listed last for it, and nothing of an earlier configuration,
-- and the scalars are its own, but for an admin token of the environment.
pub reload_all-Shows :
    (env_token : Option String) (iss_base : String) (first : AppConfig)
    (cfgs : List (Option AppConfig))
    → Shows env_token
        (last_valid first cfgs)
        (read_config iss_base (reload_all env_token cfgs (import_module env_token first)))
unfolding import_module
reload_all-Shows env_token iss_base first cfgs =
    let blank : Program = record {
      objects = record { modes = λ p. []; users = λ p. []; sps = λ p. []; apps = λ p. [] };
      fields = new_refs 0;
      attributes = first_scalars;
      variables = new_refs 0;
      bound = first_scalars;
    } in
    reload_all-bound env_token iss_base first cfgs (apply_in_place first blank)
      (apply_in_place-Wired first blank refl refl)
