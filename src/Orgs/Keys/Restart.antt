-- ===== src/Orgs/Keys/Restart.antt =====
-- What a restart of the program does to the keys of an organisation.
use mock_idp.Common.{
  ℕ, ◌+◌, String, none, some, ◌≡◌, refl, sym, ap, ◌∙◌, [], ◌==◌, eq_iff, eq_refl, Bool-cases,
  Option-cases, inl, inr,
}
use mock_idp.Text.{◌<>◌}
use mock_idp.Dict.{Dict, lookup, insert, lookup-insert}
use mock_idp.Keys.{IssuerKeys, init, rotate_keys, jwks_keys, new_rsa_key}
use mock_idp.Keys.Kids.{numbered}
use mock_idp.Orgs.Keys.{
  KeyData, OrgKeys, serialize_issuer_keys, deserialize_issuer_keys, persist, load_or_create,
  rotate_org, restart,
}

-- no keys in memory and none in the table
abbrev pub empty_keys : OrgKeys
empty_keys = record { cache = []; rows = []; made = 0 }

-- a request that uses an issuer's keys, a rotation, a restart
pub data OrgStep (org_id : String) : OrgKeys → OrgKeys → Type 0 where
  used :
      (issuer : String) (state : OrgKeys)
      → OrgStep org_id state (load_or_create org_id issuer state).1
  rotated :
      (issuer : String) (state : OrgKeys) → OrgStep org_id state (rotate_org org_id issuer state).1
  restarted : (state : OrgKeys) → OrgStep org_id state (restart state)

pub data OrgReach (org_id : String) : OrgKeys → Type 0 where
  fresh : OrgReach org_id empty_keys
  after :
      {state state' : OrgKeys}
      → OrgReach org_id state
      → OrgStep org_id state state'
      → OrgReach org_id state'

-- The keys in memory are those of the table.
abbrev Stored : OrgKeys → Type 0
Stored state =
    (issuer : String) (ik : IssuerKeys)
    → lookup issuer state.cache ≡ some ik
    → lookup issuer state.rows ≡ some (serialize_issuer_keys ik)

-- writing the same keys to the cache and to the table
some_eq : {a b : IssuerKeys} → some a ≡ some b → a ≡ b
some_eq h = cc

both-Stored :
    (issuer : String) (ik : IssuerKeys) (cache : Dict IssuerKeys) (rows : Dict KeyData)
    (made made' : ℕ)
    → Stored (record { cache = cache; rows = rows; made = made })
    → Stored (record {
      cache = insert issuer ik cache;
      rows = insert issuer (serialize_issuer_keys ik) rows;
      made = made';
    })
both-Stored issuer ik cache rows made made' h name found e = elim (Bool-cases (issuer == name)) [
  | inl same ↦
      let eq : some ik ≡ some found = rw (lookup-insert issuer name ik cache, same) at e in
      rw (lookup-insert issuer name (serialize_issuer_keys ik) rows, same)
        (ap some (ap serialize_issuer_keys (some_eq eq)))
  | inr other ↦
      let old : lookup name cache ≡ some found =
        rw (lookup-insert issuer name ik cache, other) at e in
      rw (lookup-insert issuer name (serialize_issuer_keys ik) rows, other) (h name found old)
]

-- taking the keys of the table into the cache
cached-Stored :
    (issuer : String) (ik : IssuerKeys) (state : OrgKeys)
    → Stored state
    → lookup issuer state.rows ≡ some (serialize_issuer_keys ik)
    → Stored (record state { cache = insert issuer ik state.cache })
cached-Stored issuer ik state h row name found e = elim (Bool-cases (issuer == name)) [
  | inl same ↦
      let eq : some ik ≡ some found = rw (lookup-insert issuer name ik state.cache, same) at e in
      ap (λ n. lookup n state.rows) (sym ((eq_iff issuer name).0 same))
      ∙ row
      ∙ ap some (ap serialize_issuer_keys (some_eq eq))
  | inr other ↦
      let old : lookup name state.cache ≡ some found =
        rw (lookup-insert issuer name ik state.cache, other) at e in
      h name found old
]

serialize-deserialize :
    (issuer : String) (row : KeyData)
    → serialize_issuer_keys (deserialize_issuer_keys issuer row) ≡ row
unfolding serialize_issuer_keys deserialize_issuer_keys
serialize-deserialize issuer row = refl

load_or_create-Stored :
    (org_id issuer : String) (state : OrgKeys)
    → Stored state
    → let r = load_or_create org_id issuer state in
      Stored r.1 × (lookup issuer r.1.rows ≡ some (serialize_issuer_keys r.0))
unfolding load_or_create persist
load_or_create-Stored org_id issuer state h = elim (Option-cases (lookup issuer state.cache)) [
  | inr (ik, hit) ↦ rw hit (h, h issuer ik hit)
  | inl miss ↦ elim (Option-cases (lookup issuer state.rows)) [
    | inr (row, hit) ↦
        rw (miss, hit)
          (let ik = deserialize_issuer_keys issuer row in
            let same = hit ∙ ap some (sym (serialize-deserialize issuer row)) in
            (cached-Stored issuer ik state h same, same))
    | inl absent ↦
        rw (miss, absent)
          (let ik = init (org_id <> "/" <> issuer) state.made in
            (
              both-Stored issuer ik state.cache state.rows state.made (state.made + 6) h,
              rw (lookup-insert issuer issuer (serialize_issuer_keys ik) state.rows, eq_refl issuer)
                  refl,
            ))
  ]
]

rotate_org-Stored :
    (org_id issuer : String) (state : OrgKeys)
    → Stored state
    → Stored (rotate_org org_id issuer state).1
unfolding rotate_org persist
rotate_org-Stored org_id issuer state h =
    let (ik, loaded) = load_or_create org_id issuer state in
    both-Stored issuer (rotate_keys ik loaded.made) loaded.cache loaded.rows loaded.made
      (loaded.made + 1) (load_or_create-Stored org_id issuer state h).0

OrgReach-Stored : {org_id : String} {state : OrgKeys} → OrgReach org_id state → Stored state
unfolding lookup
OrgReach-Stored fresh = λ issuer ik e. absurd (cc)
OrgReach-Stored {org_id} (after r (used issuer state)) =
    (load_or_create-Stored org_id issuer state (OrgReach-Stored r)).0
OrgReach-Stored {org_id} (after r (rotated issuer state)) =
    rotate_org-Stored org_id issuer state (OrgReach-Stored r)
OrgReach-Stored (after r (restarted state)) = λ issuer ik e. absurd (cc)

load_restarted :
    (org_id issuer : String) (state : OrgKeys) (ik : IssuerKeys)
    → lookup issuer state.rows ≡ some (serialize_issuer_keys ik)
    → (load_or_create org_id issuer (restart state)).0
      ≡ deserialize_issuer_keys issuer (serialize_issuer_keys ik)
unfolding load_or_create lookup
load_restarted org_id issuer state ik row = rw row refl

-- However the keys of an organisation were used, rotated and restarted before, a restart after they
-- were asked for changes neither their number nor any key of the issuer, published or not.
pub restart-keeps :
    {org_id : String} {state : OrgKeys} (issuer : String)
    → OrgReach org_id state
    → let (ik, loaded) = load_or_create org_id issuer state in
      let (ik', again) = load_or_create org_id issuer (restart loaded) in
      (serialize_issuer_keys ik' ≡ serialize_issuer_keys ik) × (jwks_keys ik' ≡ jwks_keys ik)
unfolding serialize_issuer_keys deserialize_issuer_keys jwks_keys
restart-keeps {org_id} {state} issuer r =
    let (ik, loaded) = load_or_create org_id issuer state in
    let same =
      load_restarted org_id issuer loaded ik
        (load_or_create-Stored org_id issuer state (OrgReach-Stored r)).1 in
    (ap serialize_issuer_keys same, ap jwks_keys same)

-- The first rotation of a new issuer's keys names the signing key after the organisation and the issuer,
-- but after a restart it names it after the issuer alone.
pub rotate_org-label :
    (org_id issuer : String) (state : OrgKeys)
    → lookup issuer state.cache ≡ none
    → lookup issuer state.rows ≡ none
    → let loaded = (load_or_create org_id issuer state).1 in
      ((rotate_org org_id issuer loaded).0 ≡ numbered (org_id <> "/" <> issuer) 2)
      × ((rotate_org org_id issuer (restart loaded)).0 ≡ numbered issuer 2)
unfolding rotate_org load_or_create persist lookup rotate_keys init new_rsa_key
    serialize_issuer_keys deserialize_issuer_keys
rotate_org-label org_id issuer state miss absent =
    let ik = init (org_id <> "/" <> issuer) state.made in
    rw (miss, absent)
      (
        rw (lookup-insert issuer issuer ik state.cache, eq_refl issuer) refl,
        rw (lookup-insert issuer issuer (serialize_issuer_keys ik) state.rows, eq_refl issuer) refl,
      )
