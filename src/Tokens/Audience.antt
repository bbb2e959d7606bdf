-- ===== src/Tokens/Audience.antt =====
-- src/mock_idp/tokens.py: `check_audience`.
pub mod Decision
use mock_idp.Common.{
  String, Bool, true, false, Option, none, some, List, [], ◌∷◌, ◌==◌, if◌then◌else◌, elem, not,
}
use mock_idp.Dict.{Dict, lookup, contains}
use mock_idp.Models.{ClientAppRecord}
use mock_idp.Config.{Config}
use mock_idp.Result.{Result, ok, err, http}
use mock_idp.Tokens.Roles.{Identity, user, service, grants_key, allowed_audiences}

-- `mode if mode in ("lax", "strict") else _cfg.MODE`
abbrev pub effective : String → Option String → String
effective default none = default
effective default (some m) = if elem m ("lax" ∷ "strict" ∷ []) then m else default

-- a service principal that may override any claim is never refused
abbrev pub overrides : Identity → Bool
overrides (user u) = false
overrides (service sp) = sp.override_any_claim

-- the grants model where the audience has an app, else the flat list
abbrev pub has_access : String → Identity → String → Option ClientAppRecord → Bool
has_access key identity aud none = elem aud (allowed_audiences identity)
has_access key identity aud (some app) = contains (grants_key key identity) app.grants

unfoldable pub check_audience :
    Config → String → Identity → String → Option String → Result (Unit {0})
unfolding lookup
check_audience cfg key identity aud mode =
    if not (effective cfg.mode mode == "strict")
    then ok tt
    else if overrides identity
    then ok tt
    else if has_access key identity aud (lookup aud cfg.client_apps)
    then ok tt
    else err (http 400 "invalid_target")
