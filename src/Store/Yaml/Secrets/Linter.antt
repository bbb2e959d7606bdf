-- ===== src/Store/Yaml/Secrets/Linter.antt =====
-- src/mock_idp/store/yaml_store.py: the linter, and from the raw content of the file to a validated
-- configuration. The validation by pydantic is an argument, and a warning is its kind and its place.
use mock_idp.Common.{
  String, ◌≡◌, refl, Bool, true, false, not, ◌||◌, Option, none, some, List, [], ◌∷◌, ◌++◌,
  if◌then◌else◌,
}
use mock_idp.Value.{Value, null, str, dict, Fields, end, field}
use mock_idp.Result.{Result, ok, err, uncaught, ◌>>=◌}
use mock_idp.Models.{AppConfig}
use mock_idp.Store.Yaml.Secrets.{Surroundings, get_value, falsy, resolve_secrets}

-- Each with the tenant and the name of the entry.
pub data Warning : Type 0 where
  looks_like_sp : String → String → Warning
  password_is_no_text : String → String → Warning
  secret_is_no_text : String → String → Warning

abbrev has_key : String → Fields → Bool
has_key k fs = elim (get_value k fs) [ none ↦ false | some _ ↦ true ]

-- `_is_secret_ref`
abbrev is_secret_ref : Value → Bool
is_secret_ref (dict fs) = has_key "from_env" fs || has_key "from_file" fs
is_secret_ref _ = false

-- a value that YAML has read as something else than a text
abbrev no_text : Option Value → Bool
no_text none = false
no_text (some null) = false
no_text (some (str s)) = false
no_text (some v) = not (is_secret_ref v)

abbrev warn_if : Bool → Warning → List Warning
warn_if true warning = warning ∷ []
warn_if false warning = []

abbrev lint_misplaced : String → String → Value → List Warning
lint_misplaced tid uname (dict fs) =
    if has_key "secret" fs
    then warn_if (not (has_key "password" fs)) (looks_like_sp tid uname)
    else []
lint_misplaced tid uname _ = []

abbrev lint_password : String → String → Value → List Warning
lint_password tid uname (dict fs) =
    warn_if (no_text (get_value "password" fs)) (password_is_no_text tid uname)
lint_password tid uname _ = []

abbrev lint_secret : String → String → Value → List Warning
lint_secret tid spname (dict fs) =
    warn_if (no_text (get_value "secret" fs)) (secret_is_no_text tid spname)
lint_secret tid spname _ = []

abbrev lint_entries : (String → Value → List Warning) → Fields → List Warning
lint_entries lint end = []
lint_entries lint (field k v fs) = lint k v ++ lint_entries lint fs

abbrev items_of : Value → Result Fields
items_of (dict fs) = ok fs
items_of _ = err (uncaught "AttributeError")

-- `(d.get(name) or {}).items()`
abbrev table_items : Option Value → Result Fields
table_items none = ok end
table_items (some v) = if falsy v then ok end else items_of v

abbrev lint_tenant : String → Value → Result (List Warning)
lint_tenant tid (dict fs) = table_items (get_value "users" fs) >>= λ users.
    table_items (get_value "service_principals" fs) >>= λ sps. ok (
      lint_entries (lint_misplaced tid) users
      ++ (lint_entries (lint_password tid) users ++ lint_entries (lint_secret tid) sps))
lint_tenant tid _ = ok []

abbrev lint_tenants : Fields → Result (List Warning)
lint_tenants end = ok []
lint_tenants (field tid tenant fs) =
    lint_tenant tid tenant >>= λ found. lint_tenants fs >>= λ rest. ok (found ++ rest)

-- `_lint_raw`
unfoldable pub lint_raw : Fields → Result (List Warning)
lint_raw raw = table_items (get_value "tenants" raw) >>= lint_tenants

-- `_validate`, with the warnings
unfoldable pub validate_raw :
    Surroundings → (Value → Result AppConfig) → Value → Result (List Warning × AppConfig)
unfolding lint_raw resolve_secrets
validate_raw env model_validate (dict raw) = lint_raw raw >>= λ warnings.
    resolve_secrets env raw >>= λ resolved.
    model_validate (dict resolved) >>= λ cfg. ok (warnings, cfg)
validate_raw env model_validate v = model_validate v >>= λ cfg. ok ([], cfg)

-- a service principal among the users
lint_raw_tests :
    lint_raw (
      field "tenants"
        (dict (
          field "t1"
            (dict
              (field "users" (dict (field "svc" (dict (field "secret" (str "x") end)) end)) end))
            end))
        end)
    ≡ ok (looks_like_sp "t1" "svc" ∷ [])
unfolding lint_raw
lint_raw_tests = refl
