-- ===== src/Orgs/Keys.antt =====
-- src/mock_idp/org_registry.py: `_OrgKeyResolver`, with the keys in memory and in the table `org_jwks`.
-- A key that is exported and imported again is the same key.
pub mod Restart
pub mod Tasks
use mock_idp.Common.{ℕ, ◌+◌, String, Bool, Option, none, some, List, [], ◌∷◌}
use mock_idp.Text.{◌<>◌}
use mock_idp.Dict.{Dict, lookup, insert}
use mock_idp.Keys.{
  Key, key_kid, IssuerKeys, init, jwks_keys, rotate_keys, signing_key_for_alg, alt_key_for_alg,
}

-- what a row of `org_jwks` holds: all but the label
pub record KeyData : Type 0 where
  pub seq : ℕ
  pub signing_rsa : Key
  pub alt_rsa : Key
  pub decoys : List Key
  pub signing_ec : Key
  pub alt_ec : Key

-- the cache, the rows of the organisation, and the number of keys made so far
pub record OrgKeys : Type 0 where
  pub cache : Dict IssuerKeys
  pub rows : Dict KeyData
  pub made : ℕ

unfoldable pub serialize_issuer_keys : IssuerKeys → KeyData
serialize_issuer_keys ik = record {
  seq = ik.seq;
  signing_rsa = ik.signing;
  alt_rsa = ik.alt;
  decoys = ik.decoys;
  signing_ec = ik.ec_signing;
  alt_ec = ik.ec_alt;
}

unfoldable pub deserialize_issuer_keys : String → KeyData → IssuerKeys
deserialize_issuer_keys issuer_label row = record {
  issuer = issuer_label;
  seq = row.seq;
  signing = row.signing_rsa;
  alt = row.alt_rsa;
  decoys = row.decoys;
  ec_signing = row.signing_ec;
  ec_alt = row.alt_ec;
}

-- `_persist`
unfoldable pub persist : String → IssuerKeys → OrgKeys → OrgKeys
persist issuer ik state = record state {
  rows = insert issuer (serialize_issuer_keys ik) state.rows;
}

-- what `_load_or_create` does after a miss of the cache, by the row it finds
abbrev pub load_row : String → String → OrgKeys → Option KeyData → IssuerKeys × OrgKeys
load_row org_id issuer state (some row) =
    let ik = deserialize_issuer_keys issuer row in
    (ik, record state { cache = insert issuer ik state.cache })
load_row org_id issuer state none =
    let ik = init (org_id <> "/" <> issuer) state.made in
    let stored = persist issuer ik state in
    (ik, record stored { cache = insert issuer ik stored.cache; made = stored.made + 6 })

abbrev pub load_cached : String → String → OrgKeys → Option IssuerKeys → IssuerKeys × OrgKeys
load_cached org_id issuer state (some ik) = (ik, state)
load_cached org_id issuer state none = load_row org_id issuer state (lookup issuer state.rows)

unfoldable pub load_or_create : String → String → OrgKeys → IssuerKeys × OrgKeys
load_or_create org_id issuer state = load_cached org_id issuer state (lookup issuer state.cache)

-- `rotate`: the object in the cache is changed in place, and then written
unfoldable pub rotate_org : String → String → OrgKeys → String × OrgKeys
rotate_org org_id issuer state =
    let (ik, loaded) = load_or_create org_id issuer state in
    let turned = rotate_keys ik loaded.made in
    (
      key_kid turned.signing,
      persist issuer turned
          (record loaded { cache = insert issuer turned loaded.cache; made = loaded.made + 1 }),
    )

unfoldable pub async_signing_key_for_alg : String → String → String → OrgKeys → Key × OrgKeys
async_signing_key_for_alg org_id issuer alg state =
    let (ik, loaded) = load_or_create org_id issuer state in (signing_key_for_alg ik alg, loaded)

unfoldable pub async_alt_key_for_alg : String → String → String → OrgKeys → Key × OrgKeys
async_alt_key_for_alg org_id issuer alg state =
    let (ik, loaded) = load_or_create org_id issuer state in (alt_key_for_alg ik alg, loaded)

unfoldable pub async_jwks_keys : String → String → OrgKeys → List Key × OrgKeys
async_jwks_keys org_id issuer state =
    let (ik, loaded) = load_or_create org_id issuer state in (jwks_keys ik, loaded)

-- a start of the program: the cache is empty
abbrev pub restart : OrgKeys → OrgKeys
restart state = record state { cache = [] }
