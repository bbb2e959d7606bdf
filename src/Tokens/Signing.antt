-- ===== src/Tokens/Signing.antt =====
-- src/mock_idp/tokens.py: signing, verification and the two kinds of bad token. The JWT library, JSON,
-- base64 and HMAC are the fields of `Codec`.
pub mod Verification
use mock_idp.Common.{String, Bool, true, false, Option, none, some, List, [], ◌∷◌, if◌then◌else◌}
use mock_idp.Text.{is_empty, ◌<>◌}
use mock_idp.Value.{Value, str, dict, Claims, fields}
use mock_idp.Keys.{Key, KeyType, rsa, ec, key_kid}

-- What the code calls to make and read tokens.
pub record Codec : Type 0 where
  -- `joserfc.jwt.encode(header, claims, key)`
  pub encode : Claims → Claims → Key → String
  -- `joserfc.jwt.decode(token, KeySet(keys)).claims`; `none` stands for any exception
  pub decode : String → List Key → Option Claims
  -- `key.as_pem(private=False)`
  pub as_pem : Key → String
  -- `key.as_dict(private=False)`
  pub as_dict : Key → Value
  -- `base64.urlsafe_b64encode(json.dumps(d).encode()).rstrip(b"=").decode()`
  pub json_b64url : Claims → String
  -- the HMAC-SHA256 of a text under a key, in the same base64 form
  pub hmac_b64url : String → String → String

abbrev pub alg_of : KeyType → String
alg_of ec = "ES256"
alg_of rsa = "RS256"

abbrev pub jwt_header : Key → Claims
jwt_header k = ("alg", str (alg_of k.kty)) ∷ ("typ", str "JWT") ∷ ("kid", str (key_kid k)) ∷ []

unfoldable pub sign : Codec → Claims → Key → String
sign codec claims key = codec.encode (jwt_header key) claims key

unfoldable pub verify_token : Codec → String → List Key → Option Claims
verify_token codec token keys = if is_empty token then none else codec.decode token keys

unfoldable pub make_unsigned_token : Codec → Claims → String
make_unsigned_token codec claims =
    codec.json_b64url (("alg", str "none") ∷ ("typ", str "JWT") ∷ [])
    <> "."
    <> codec.json_b64url claims
    <> "."

unfoldable pub make_wrong_alg_token : Codec → Claims → String → String
make_wrong_alg_token codec claims public_key_pem =
    let header = codec.json_b64url (("alg", str "HS256") ∷ ("typ", str "JWT") ∷ []) in
    let payload = codec.json_b64url claims in
    let signing_input = header <> "." <> payload in
    header <> "." <> payload <> "." <> codec.hmac_b64url public_key_pem signing_input
