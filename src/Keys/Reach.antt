-- ===== src/Keys/Reach.antt =====
-- The key stores that requests and rotations can reach from the empty store.
use mock_idp.Common.{
  ℕ, ◌+◌, String, false, some, ◌≡◌, ◌≢◌, refl, [], ◌∷◌, elem, Option-cases, inl, inr,
  eq_false_of_ne, map,
}
use mock_idp.Dict.{Dict, lookup, lookup-insert}
use mock_idp.Keys.{
  IssuerKeys, KeyStore, jwks_keys, rotate_keys, alt_key_for_alg, get, rotate_issuer, rotate_each,
  rotate_all, signing_kid, all_signing_kids,
}
use mock_idp.Keys.Kids.{kids, alt_key-unpublished}
use mock_idp.Keys.Stores.{
  AllFit, get-AllFit, get_hit, get_miss, rotate_issuer-AllFit, rotate_each-AllFit,
  lookup-insert_self,
}

abbrev pub no_keys : KeyStore
no_keys = record { stores = []; made = 0 }

-- a request that uses an issuer's keys, a rotation of one issuer, a rotation of all
pub data Step : KeyStore → KeyStore → Type 0 where
  use_keys : (issuer : String) (ks : KeyStore) → Step ks (get issuer ks).1
  turn : (issuer : String) (ks : KeyStore) → Step ks (rotate_issuer issuer ks).1
  turn_all : (ks : KeyStore) → Step ks (rotate_all ks).1

pub data Reach : KeyStore → Type 0 where
  start : Reach no_keys
  next : {ks ks' : KeyStore} → Reach ks → Step ks ks' → Reach ks'

Step-AllFit : {ks ks' : KeyStore} → Step ks ks' → AllFit ks.stores → AllFit ks'.stores
unfolding rotate_all
Step-AllFit (use_keys issuer ks) h = (get-AllFit issuer ks h).1
Step-AllFit (turn issuer ks) h = rotate_issuer-AllFit issuer ks h
Step-AllFit (turn_all ks) h = rotate_each-AllFit ks.stores ks.made h

pub Reach-AllFit : {ks : KeyStore} → Reach ks → AllFit ks.stores
Reach-AllFit start = tt
Reach-AllFit (next r st) = Step-AllFit st (Reach-AllFit r)

-- In every store that requests and rotations can reach, the key that signs the "wrong signature"
-- tokens of an issuer has an id which the issuer's JWKS does not publish, for every algorithm.
pub alt_key-never_published :
    {ks : KeyStore} (issuer alg : String)
    → Reach ks
    → let ik = (get issuer ks).0 in elem (alt_key_for_alg ik alg).kid (kids (jwks_keys ik)) ≡ false
alt_key-never_published {ks} issuer alg r =
    alt_key-unpublished (get issuer ks).0 alg (get-AllFit issuer ks (Reach-AllFit r)).0.1

get-other :
    (issuer other : String) (ks : KeyStore)
    → issuer ≢ other
    → lookup other (get issuer ks).1.stores ≡ lookup other ks.stores
get-other issuer other ks ne = elim (Option-cases (lookup issuer ks.stores)) [
  | inl miss ↦
      rw (get_miss issuer ks miss)
        (rw (lookup-insert issuer other _ ks.stores, eq_false_of_ne issuer other ne))
  | inr (ik, hit) ↦ rw (get_hit issuer ks hit)
]

-- Rotating one issuer stores and returns its rotated keys, and leaves every other issuer's keys as
-- they are.
rotate_issuer_lem :
    (issuer other : String) (ks : KeyStore)
    → issuer ≢ other
    → let (ik, ks') = get issuer ks in
      (lookup issuer (rotate_issuer issuer ks).1.stores ≡ some (rotate_keys ik ks'.made))
      × ((rotate_issuer issuer ks).0 ≡ (rotate_keys ik ks'.made).signing)
      × (lookup other (rotate_issuer issuer ks).1.stores ≡ lookup other ks.stores)
unfolding rotate_issuer
rotate_issuer_lem issuer other ks ne = (
  lookup-insert_self issuer _ (get issuer ks).1.stores,
  refl,
  rw (lookup-insert issuer other _ (get issuer ks).1.stores, eq_false_of_ne issuer other ne)
      (get-other issuer other ks ne),
)

rotate_each-kids :
    (d : Dict IssuerKeys) (made : ℕ)
    → (rotate_each d made).1 ≡ map signing_kid (rotate_each d made).0
unfolding rotate_each
rotate_each-kids [] made = refl
rotate_each-kids ((name, ik) ∷ d) made = rw (rotate_each-kids d (made + 1))

-- The ids that a rotation of all issuers reports are those of the signing keys after it.
rotate_all-kids : (ks : KeyStore) → (rotate_all ks).0 ≡ all_signing_kids (rotate_all ks).1
unfolding rotate_all all_signing_kids
rotate_all-kids ks = rotate_each-kids ks.stores ks.made
