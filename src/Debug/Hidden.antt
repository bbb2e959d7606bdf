-- ===== src/Debug/Hidden.antt =====
-- What the debug routes hide.
use mock_idp.Common.{suc, String, ◌≡◌, refl, ap, ◌∙◌, [], ◌∷◌, length}
use mock_idp.Dict.{Dict}
use mock_idp.Value.{dict, fields}
use mock_idp.Models.{UserRecord, ServicePrincipalRecord}
use mock_idp.Config.{Config}
use mock_idp.Keys.{KeyStore, all_signing_kids}
use mock_idp.Tokens.Redact.{redact}
use mock_idp.Debug.{
  dump_table, redacted_user, redacted_sp, shown_identities, dump_app, debug_identities,
  shown_config, debug_config,
}

-- other passwords for the users of a table
abbrev pub with_passwords : (String → UserRecord → String) → Dict UserRecord → Dict UserRecord
with_passwords f [] = []
with_passwords f ((name, u) ∷ users) =
    (name, record u { password = f name u }) ∷ with_passwords f users

-- other secrets for the service principals of a table
abbrev pub with_secrets :
    (String → ServicePrincipalRecord → String)
    → Dict ServicePrincipalRecord
    → Dict ServicePrincipalRecord
with_secrets f [] = []
with_secrets f ((name, sp) ∷ sps) = (name, record sp { secret = f name sp }) ∷ with_secrets f sps

dump-with_passwords :
    (f : String → UserRecord → String) (users : Dict UserRecord)
    → dump_table redacted_user (with_passwords f users) ≡ dump_table redacted_user users
unfolding dump_table redact
dump-with_passwords f [] = refl
dump-with_passwords f ((name, u) ∷ users) =
    ap (λ d. (name, redacted_user u) ∷ d) (dump-with_passwords f users)

dump-with_secrets :
    (f : String → ServicePrincipalRecord → String) (sps : Dict ServicePrincipalRecord)
    → dump_table redacted_sp (with_secrets f sps) ≡ dump_table redacted_sp sps
unfolding dump_table redact
dump-with_secrets f [] = refl
dump-with_secrets f ((name, sp) ∷ sps) =
    ap (λ d. (name, redacted_sp sp) ∷ d) (dump-with_secrets f sps)

length-with_passwords :
    (f : String → UserRecord → String) (users : Dict UserRecord)
    → length (with_passwords f users) ≡ length users
length-with_passwords f [] = refl
length-with_passwords f (_ ∷ users) = ap suc (length-with_passwords f users)

length-with_secrets :
    (f : String → ServicePrincipalRecord → String) (sps : Dict ServicePrincipalRecord)
    → length (with_secrets f sps) ≡ length sps
length-with_secrets f [] = refl
length-with_secrets f (_ ∷ sps) = ap suc (length-with_secrets f sps)

-- The debug routes give no information on passwords, secrets and the admin token: with any other ones
-- their answers are the same.
pub debug_identities-hides :
    (cfg : Config) (ks : KeyStore) (passwords : String → UserRecord → String)
    (secrets : String → ServicePrincipalRecord → String) (token : String)
    → let other = record cfg {
      users = with_passwords passwords cfg.users;
      service_principals_raw = with_secrets secrets cfg.service_principals_raw;
      admin_token = token;
    } in
      (debug_identities other ≡ debug_identities cfg)
      × (debug_config other ks ≡ debug_config cfg ks)
unfolding debug_identities debug_config
debug_identities-hides cfg ks passwords secrets token =
    let apps = dump_table (λ app. dict (fields (dump_app app))) cfg.client_apps in
    (
      ap
            (λ d.
              shown_identities d
                (dump_table redacted_sp (with_secrets secrets cfg.service_principals_raw)) apps)
            (dump-with_passwords passwords cfg.users)
          ∙ ap (λ d. shown_identities (dump_table redacted_user cfg.users) d apps)
              (dump-with_secrets secrets cfg.service_principals_raw),
      ap
            (λ n.
              shown_config cfg n (length (with_secrets secrets cfg.service_principals_raw))
                (length cfg.client_apps) (all_signing_kids ks))
            (length-with_passwords passwords cfg.users)
          ∙ ap
              (λ n.
                shown_config cfg (length cfg.users) n (length cfg.client_apps)
                  (all_signing_kids ks))
              (length-with_secrets secrets cfg.service_principals_raw),
    )
