-- ===== src/Debug.antt =====
-- src/mock_idp/routers/debug.py: the routes that decode a token and show the configuration. The reading
-- of base64 and of JSON text is an argument.
pub mod Hidden
use mock_idp.Common.{
  ℕ, zero, suc, ◌+◌, ◌-◌, ◌%◌, String, Bool, true, false, Option, none, some, List, [], ◌∷◌, length,
}
use mock_idp.Int.{pos}
use mock_idp.Text.{◌<>◌, split}
use mock_idp.Dict.{Dict}
use mock_idp.Value.{
  Value, null, bool, int, str, list, dict, Items, nil, cons, fields, Claims, texts,
}
use mock_idp.Result.{Result, ok, err, http}
use mock_idp.Models.{UserRecord, ServicePrincipalRecord, ClientAppRecord}
use mock_idp.Config.{Config}
use mock_idp.Keys.{KeyStore, all_jwks_keys, all_signing_kids}
use mock_idp.Tokens.Signing.{Codec, verify_token}
use mock_idp.Tokens.Redact.{redact}

abbrev pub text_length : String → ℕ
text_length String.[] = 0
text_length (String.◌∷◌ c s) = suc (text_length s)

-- `"=" * n`
unfoldable pub equals_signs : ℕ → String
equals_signs zero = ""
equals_signs (suc n) = "=" <> equals_signs n

-- `seg += "=" * (-len(seg) % 4)`
unfoldable pub pad : String → String
unfolding equals_signs
pad seg = seg <> equals_signs ((4 - text_length seg % 4) % 4)

-- what is shown of a token: the header, the payload, and whether a published key verifies it
pub record Decoded : Type 0 where
  pub header : Value
  pub payload : Value
  pub signature_validated : Bool

abbrev pub is_verified : Option Claims → Bool
is_verified none = false
is_verified (some _) = true

abbrev pub decoded : Option Value → Option Value → Bool → Result Decoded
decoded (some header) (some payload) valid =
    ok (record { header = header; payload = payload; signature_validated = valid })
decoded _ _ valid = err (http 400 "decode failed")

abbrev pub decode_parts : (String → Option Value) → Bool → List String → Result Decoded
decode_parts b64_json valid (a ∷ b ∷ c ∷ []) = decoded (b64_json (pad a)) (b64_json (pad b)) valid
decode_parts b64_json valid _ = err (http 400 "not a JWT (expected three segments)")

-- `debug_decode`; `b64_json` is `json.loads(base64.urlsafe_b64decode(seg))`, `none` for an exception
unfoldable pub debug_decode : (String → Option Value) → Codec → String → KeyStore → Result Decoded
unfolding pad split verify_token all_jwks_keys
debug_decode b64_json codec token ks =
    decode_parts b64_json (is_verified (verify_token codec token (all_jwks_keys ks)))
      (split b'.' token)

abbrev text_or_null : Option String → Value
text_or_null none = null
text_or_null (some s) = str s

-- `model_dump()`, which leaves the private attributes out
abbrev pub dump_user : UserRecord → Claims
dump_user u =
    ("password", str u.password)
    ∷ ("upn", text_or_null u.upn)
    ∷ ("preferred_username", text_or_null u.preferred_username)
    ∷ ("oid", str u.oid)
    ∷ ("tid", str u.tid)
    ∷ ("token_version", str u.token_version)
    ∷ ("token_lifetime_seconds", int u.token_lifetime_seconds)
    ∷ ("signing_alg", str u.signing_alg)
    ∷ ("realm_roles", texts u.realm_roles)
    ∷ ("roles", texts u.roles)
    ∷ ("groups", texts u.groups)
    ∷ ("allowed_audiences", texts u.allowed_audiences)
    ∷ ("extra_claims", dict (fields u.extra_claims))
    ∷ []

abbrev pub dump_sp : ServicePrincipalRecord → Claims
dump_sp sp =
    ("client_id", text_or_null sp.client_id)
    ∷ ("secret", str sp.secret)
    ∷ ("label", text_or_null sp.label)
    ∷ ("token_version", str sp.token_version)
    ∷ ("token_lifetime_seconds", int sp.token_lifetime_seconds)
    ∷ ("signing_alg", str sp.signing_alg)
    ∷ ("realm_roles", texts sp.realm_roles)
    ∷ ("roles", texts sp.roles)
    ∷ ("groups", texts sp.groups)
    ∷ ("tid", str sp.tid)
    ∷ ("allowed_audiences", texts sp.allowed_audiences)
    ∷ ("extra_claims", dict (fields sp.extra_claims))
    ∷ ("override_any_claim", bool sp.override_any_claim)
    ∷ ("override_iss_too", bool sp.override_iss_too)
    ∷ []

abbrev dump_grants : Dict (List String) → Claims
dump_grants [] = []
dump_grants ((k, roles) ∷ grants) = (k, texts roles) ∷ dump_grants grants

abbrev pub dump_app : ClientAppRecord → Claims
dump_app app =
    ("app_id", text_or_null app.app_id)
    ∷ ("label", text_or_null app.label)
    ∷ ("roles", texts app.roles)
    ∷ ("grants", dict (fields (dump_grants app.grants)))
    ∷ []

-- a dict comprehension over a table
unfoldable pub dump_table {ℓ} : {V : Type ℓ} → (V → Value) → Dict V → Claims
dump_table dump [] = []
dump_table dump ((k, v) ∷ table) = (k, dump v) ∷ dump_table dump table

abbrev pub redacted_user : UserRecord → Value
redacted_user u = redact (dict (fields (dump_user u)))

abbrev pub redacted_sp : ServicePrincipalRecord → Value
redacted_sp sp = redact (dict (fields (dump_sp sp)))

abbrev pub shown_identities : Claims → Claims → Claims → Claims
shown_identities users sps apps =
    ("users", dict (fields users))
    ∷ ("service_principals", dict (fields sps))
    ∷ ("client_apps", dict (fields apps))
    ∷ []

-- `debug_identities`
unfoldable pub debug_identities : Config → Claims
unfolding dump_table redact
debug_identities cfg =
    shown_identities (dump_table redacted_user cfg.users)
      (dump_table redacted_sp cfg.service_principals_raw)
      (dump_table (λ app. dict (fields (dump_app app))) cfg.client_apps)

abbrev kid_values : Dict String → Claims
kid_values [] = []
kid_values ((issuer, kid) ∷ kids) = (issuer, str kid) ∷ kid_values kids

abbrev pub shown_config : Config → ℕ → ℕ → ℕ → Dict String → Claims
shown_config cfg users sps apps kids =
    ("auth_mode", str cfg.mode)
    ∷ ("cors_allow_origins", texts cfg.cors_origins)
    ∷ ("iss_base", str cfg.iss_base)
    ∷ ("user_count", int (pos users))
    ∷ ("service_principal_count", int (pos sps))
    ∷ ("client_app_count", int (pos apps))
    ∷ ("signing_kids", dict (fields (kid_values kids)))
    ∷ ("alt_kid_present", bool true)
    ∷ []

-- `debug_config`
unfoldable pub debug_config : Config → KeyStore → Claims
unfolding all_signing_kids
debug_config cfg ks =
    shown_config cfg (length cfg.users) (length cfg.service_principals_raw) (length cfg.client_apps)
      (all_signing_kids ks)
