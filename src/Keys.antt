-- ===== src/Keys.antt =====
-- src/mock_idp/keys.py: the keys of an issuer, and the store of all issuers. The cryptographic library
-- makes the keys; a key is known here by its type, its `kid` and the number of the call of
-- `generate_key` that made it, so that two calls never give the same key.
pub mod Kids
pub mod Stores
pub mod Reach
use mock_idp.Common.{
  ℕ, suc, ◌+◌, String, Bool, true, false, Option, none, some, List, [], ◌∷◌, ◌++◌, ◌==◌,
  if◌then◌else◌, map,
}
use mock_idp.Text.{show, ◌<>◌}
use mock_idp.Dict.{Dict, lookup, insert}

pub data KeyType : Type 0 where
  rsa ec : KeyType

pub record Key : Type 0 where
  pub kty : KeyType
  pub kid : String
  pub serial : ℕ

-- `key_kid`
abbrev pub key_kid : Key → String
key_kid k = k.kid

pub record IssuerKeys : Type 0 where
  pub issuer : String
  pub seq : ℕ
  pub signing : Key
  pub alt : Key
  pub decoys : List Key
  pub ec_signing : Key
  pub ec_alt : Key

-- the module's `_stores`, and the number of keys made so far
pub record KeyStore : Type 0 where
  pub stores : Dict IssuerKeys
  pub made : ℕ

abbrev pub prefix : String → String
prefix issuer = "mock-" <> issuer

unfoldable pub new_rsa_key : String → ℕ → Key
new_rsa_key kid serial = record { kty = rsa; kid = kid; serial = serial }

unfoldable pub new_ec_key : String → ℕ → Key
new_ec_key kid serial = record { kty = ec; kid = kid; serial = serial }

-- `_IssuerKeys.__init__`, with `made` keys made before; it makes six.
unfoldable pub init : String → ℕ → IssuerKeys
unfolding new_rsa_key new_ec_key
init issuer made = record {
  issuer = issuer;
  seq = 1;
  signing = new_rsa_key (prefix issuer <> "-1") made;
  alt = new_rsa_key (prefix issuer <> "-alt") (made + 1);
  decoys =
      new_rsa_key (prefix issuer <> "-d1") (made + 2)
      ∷ new_rsa_key (prefix issuer <> "-d2") (made + 3)
      ∷ [];
  ec_signing = new_ec_key (prefix issuer <> "-ec-1") (made + 4);
  ec_alt = new_ec_key (prefix issuer <> "-ec-alt") (made + 5);
}

-- `_IssuerKeys.jwks_keys`
unfoldable pub jwks_keys : IssuerKeys → List Key
jwks_keys ik = ik.signing ∷ ik.ec_signing ∷ ik.decoys

-- `_IssuerKeys.rotate`, with `made` keys made before
unfoldable pub rotate_keys : IssuerKeys → ℕ → IssuerKeys
unfolding new_rsa_key
rotate_keys ik made = record ik {
  seq = ik.seq + 1;
  signing = new_rsa_key (prefix ik.issuer <> "-" <> show (ik.seq + 1)) made;
}

-- `_IssuerKeys.signing_key_for_alg`
unfoldable pub signing_key_for_alg : IssuerKeys → String → Key
signing_key_for_alg ik alg = if alg == "ES256" then ik.ec_signing else ik.signing

-- `_IssuerKeys.alt_key_for_alg`
unfoldable pub alt_key_for_alg : IssuerKeys → String → Key
alt_key_for_alg ik alg = if alg == "ES256" then ik.ec_alt else ik.alt

-- `_get`: the keys of an issuer, made at the first use
unfoldable pub get : String → KeyStore → IssuerKeys × KeyStore
unfolding init lookup insert
get issuer ks = elim (lookup issuer ks.stores) [
  | some ik ↦ (ik, ks)
  | none ↦ (
    init issuer ks.made,
    record { stores = insert issuer (init issuer ks.made) ks.stores; made = ks.made + 6 },
  )
]

-- `rotate(issuer)`
unfoldable pub rotate_issuer : String → KeyStore → Key × KeyStore
unfolding get rotate_keys insert
rotate_issuer issuer ks =
    let (ik, ks') = get issuer ks in
    let ik' = rotate_keys ik ks'.made in
    (ik'.signing, record { stores = insert issuer ik' ks'.stores; made = ks'.made + 1 })

-- the loop of `rotate()` over a snapshot of all stores
unfoldable pub rotate_each : Dict IssuerKeys → ℕ → Dict IssuerKeys × Dict String × ℕ
unfolding rotate_keys
rotate_each [] made = ([], [], made)
rotate_each ((name, ik) ∷ rest) made =
    let ik' = rotate_keys ik made in
    let (stores, kids, made') = rotate_each rest (made + 1) in
    ((name, ik') ∷ stores, (name, key_kid ik'.signing) ∷ kids, made')

-- `rotate()`
unfoldable pub rotate_all : KeyStore → Dict String × KeyStore
unfolding rotate_each
rotate_all ks =
    let (stores, kids, made) = rotate_each ks.stores ks.made in
    (kids, record { stores = stores; made = made })

abbrev signing_kid : String × IssuerKeys → String × String
signing_kid (name, ik) = (name, key_kid ik.signing)

unfoldable pub all_signing_kids : KeyStore → Dict String
all_signing_kids ks = map signing_kid ks.stores

-- the loop of `all_jwks_keys`
unfoldable pub jwks_of_stores : Dict IssuerKeys → List Key
unfolding jwks_keys
jwks_of_stores [] = []
jwks_of_stores ((_, ik) ∷ rest) = jwks_keys ik ++ jwks_of_stores rest

unfoldable pub all_jwks_keys : KeyStore → List Key
unfolding jwks_of_stores
all_jwks_keys ks = jwks_of_stores ks.stores
