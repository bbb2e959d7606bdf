-- ===== src/Store/Yaml/Secrets.antt =====
-- src/mock_idp/store/yaml_store.py: the references to secrets in the raw content of the file. The texts
-- of errors are left out.
pub mod Resolved
pub mod Linter
use mock_idp.Common.{
  zero, suc, String, Bool, true, false, not, ◌&&◌, ◌||◌, Option, none, some, List, [], ◌∷◌, ◌++◌,
  if◌then◌else◌, ◌==◌,
}
use mock_idp.Int.{ℤ, pos, negsuc}
use mock_idp.Text.{strip, is_empty}
use mock_idp.Dict.{Dict, lookup}
use mock_idp.Value.{Value, null, bool, int, str, list, dict, Items, nil, cons, Fields, end, field}
use mock_idp.Result.{Result, ok, err, uncaught, ◌>>=◌}
use mock_idp.Models.{AppConfig}
use mock_idp.Store.Yaml.{YamlStore, reload}

-- The process environment, the text of a file or `none` for an OSError, and `str(v)` of a value that is
-- no text.
pub record Surroundings : Type 0 where
  pub environ : Dict String
  pub read_text : String → Option String
  pub str_of : Value → String

-- `d.get(k)`
abbrev pub get_value : String → Fields → Option Value
get_value k end = none
get_value k (field j v fs) = if j == k then some v else get_value k fs

-- `d[k] = v`
abbrev pub set_value : String → Value → Fields → Fields
set_value k v end = field k v end
set_value k v (field j w fs) = if j == k then field j v fs else field j w (set_value k v fs)

abbrev value_error : {T : Type 0} → Result T
value_error = err (uncaught "ValueError")

abbrev type_error : {T : Type 0} → Result T
type_error = err (uncaught "TypeError")

abbrev found_or_error : Option String → Result String
found_or_error none = value_error
found_or_error (some s) = ok s

-- a dict with `from_env` or else `from_file`; one with neither is no reference
abbrev pub resolve_ref : Surroundings → Fields → Option Value → Option Value → Result String
resolve_ref env ref (some (str var)) from_file = found_or_error (lookup var env.environ)
resolve_ref env ref (some _) from_file = type_error
resolve_ref env ref none (some (str path)) =
    found_or_error (env.read_text path) >>= λ text. ok (strip text)
resolve_ref env ref none (some _) = type_error
resolve_ref env ref none none = ok (env.str_of (dict ref))

-- `_resolve_secret`
unfoldable pub resolve_secret : Surroundings → Value → Result String
unfolding lookup strip
resolve_secret env (str s) = ok s
resolve_secret env (dict ref) =
    resolve_ref env ref (get_value "from_env" ref) (get_value "from_file" ref)
resolve_secret env v = ok (env.str_of v)

-- what is false in a test
abbrev pub falsy : Value → Bool
falsy null = true
falsy (bool b) = not b
falsy (int (pos n)) = elim n [ zero ↦ true | suc _ ↦ false ]
falsy (int (negsuc _)) = false
falsy (str s) = is_empty s
falsy (list nil) = true
falsy (list (cons _ _)) = false
falsy (dict end) = true
falsy (dict (field _ _ _)) = false

-- a loop over `.items()` that replaces each value
abbrev pub each : (Value → Result Value) → Fields → Result Fields
each f end = ok end
each f (field k v fs) = f v >>= λ v'. each f fs >>= λ fs'. ok (field k v' fs')

abbrev pub table_loop : (Value → Result Value) → String → Fields → Value → Result Fields
table_loop f name fs (dict table) = each f table >>= λ table'. ok (set_value name (dict table') fs)
table_loop f name fs _ = err (uncaught "AttributeError")

-- the loop over `(d.get(name) or {}).items()`
abbrev pub over_table : (Value → Result Value) → String → Fields → Option Value → Result Fields
over_table f name fs none = ok fs
over_table f name fs (some v) = if falsy v then ok fs else table_loop f name fs v

abbrev pub resolve_key : Surroundings → String → Fields → Option Value → Result Fields
resolve_key env key fs none = ok fs
resolve_key env key fs (some v) = resolve_secret env v >>= λ s. ok (set_value key (str s) fs)

-- `if isinstance(entry, dict) and key in entry: entry[key] = _resolve_secret(entry[key])`
abbrev pub resolve_entry : Surroundings → String → Value → Result Value
resolve_entry env key (dict fs) = resolve_key env key fs (get_value key fs) >>= λ fs'. ok (dict fs')
resolve_entry env key v = ok v

abbrev pub resolve_tenant : Surroundings → Value → Result Value
resolve_tenant env (dict fs) =
    over_table (resolve_entry env "password") "users" fs (get_value "users" fs) >>= λ fs'.
    over_table (resolve_entry env "secret") "service_principals" fs'
      (get_value "service_principals" fs')
    >>= λ fs''. ok (dict fs'')
resolve_tenant env v = ok v

-- `_resolve_secrets`
unfoldable pub resolve_secrets : Surroundings → Fields → Result Fields
unfolding resolve_secret
resolve_secrets env raw =
    resolve_key env "admin_token" raw (get_value "admin_token" raw) >>= λ raw'.
    over_table (resolve_tenant env) "tenants" raw' (get_value "tenants" raw')
