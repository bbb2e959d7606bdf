-- ===== src/Keys/Stores.antt =====
-- The store of all issuers' keys: lazy creation, rotation, and every state that requests can reach.
use mock_idp.Common.{
  ℕ, ◌+◌, String, none, some, ◌≡◌, refl, sym, subst, [], ◌∷◌, ◌==◌, eq_iff, eq_refl, arith,
  Bool-cases, Option-cases, inl, inr,
}
use mock_idp.Dict.{Dict, lookup, insert, lookup-insert}
use mock_idp.Keys.{IssuerKeys, KeyStore, init, rotate_keys, get, rotate_issuer, rotate_each}
use mock_idp.Keys.Kids.{IsNamed, init-IsNamed, rotate_keys-IsNamed}

-- The keys that stand under an issuer are its own and follow the naming scheme.
abbrev pub Fits : String → IssuerKeys → Type 0
Fits name ik = (ik.issuer ≡ name) × IsNamed ik

abbrev pub AllFit : Dict IssuerKeys → Type 0
AllFit [] = Unit
AllFit ((name, ik) ∷ rest) = Fits name ik × AllFit rest

init-Fits : (issuer : String) (made : ℕ) → Fits issuer (init issuer made)
unfolding init
init-Fits issuer made = (refl, init-IsNamed issuer made)

rotate_keys-Fits :
    (name : String) (ik : IssuerKeys) (made : ℕ) → Fits name ik → Fits name (rotate_keys ik made)
unfolding rotate_keys
rotate_keys-Fits name ik made (label, named) = (label, rotate_keys-IsNamed made named)

insert-AllFit :
    (name : String) (ik : IssuerKeys) (d : Dict IssuerKeys)
    → AllFit d
    → Fits name ik
    → AllFit (insert name ik d)
unfolding insert
insert-AllFit name ik [] h f = (f, tt)
insert-AllFit name ik ((j, jk) ∷ d) (hj, h) f = elim (Bool-cases (j == name)) [
  | inl same ↦ rw same (subst (λ k. Fits k ik) (sym ((eq_iff j name).0 same)) f, h)
  | inr other ↦ rw other (hj, insert-AllFit name ik d h f)
]

pub lookup-Fits :
    (name : String) (d : Dict IssuerKeys) {ik : IssuerKeys}
    → AllFit d
    → lookup name d ≡ some ik
    → Fits name ik
unfolding lookup
lookup-Fits name [] h e = absurd (cc)
lookup-Fits name ((j, jk) ∷ d) {ik} (hj, h) e = elim (Bool-cases (j == name)) [
  | inl same ↦
      let eq : jk ≡ ik = ground arith in
      subst (λ t. Fits name t) eq (subst (λ k. Fits k jk) ((eq_iff j name).0 same) hj)
  | inr other ↦ lookup-Fits name d h (ground arith)
]

pub get_hit :
    (issuer : String) (ks : KeyStore) {ik : IssuerKeys}
    → lookup issuer ks.stores ≡ some ik
    → get issuer ks ≡ (ik, ks)
unfolding get
get_hit issuer ks e = rw (e, get)

pub get_miss :
    (issuer : String) (ks : KeyStore)
    → lookup issuer ks.stores ≡ none
    → get issuer ks ≡ (
      init issuer ks.made,
      record { stores = insert issuer (init issuer ks.made) ks.stores; made = ks.made + 6 },
    )
unfolding get
get_miss issuer ks e = rw (e, get)

pub lookup-insert_self :
    (k : String) (ik : IssuerKeys) (d : Dict IssuerKeys) → lookup k (insert k ik d) ≡ some ik
lookup-insert_self k ik d = rw (lookup-insert k k ik d, eq_refl k)

-- After `get` the store holds the keys that it returned.
pub lookup-get :
    (issuer : String) (ks : KeyStore)
    → lookup issuer (get issuer ks).1.stores ≡ some (get issuer ks).0
lookup-get issuer ks = elim (Option-cases (lookup issuer ks.stores)) [
  | inl miss ↦ rw (get_miss issuer ks miss) (lookup-insert_self issuer _ ks.stores)
  | inr (ik, hit) ↦ rw (get_hit issuer ks hit) hit
]

-- Once an issuer's keys have been asked for, asking again returns the same keys and changes nothing.
pub get_idempotent :
    (issuer : String) (ks : KeyStore) → get issuer (get issuer ks).1 ≡ get issuer ks
get_idempotent issuer ks = get_hit issuer (get issuer ks).1 (lookup-get issuer ks)

pub get-AllFit :
    (issuer : String) (ks : KeyStore)
    → AllFit ks.stores
    → Fits issuer (get issuer ks).0 × AllFit (get issuer ks).1.stores
get-AllFit issuer ks h = elim (Option-cases (lookup issuer ks.stores)) [
  | inl miss ↦
      rw (get_miss issuer ks miss)
        (init-Fits issuer ks.made, insert-AllFit issuer _ ks.stores h (init-Fits issuer ks.made))
  | inr (ik, hit) ↦ rw (get_hit issuer ks hit) (lookup-Fits issuer ks.stores h hit, h)
]

pub rotate_issuer-AllFit :
    (issuer : String) (ks : KeyStore) → AllFit ks.stores → AllFit (rotate_issuer issuer ks).1.stores
unfolding rotate_issuer
rotate_issuer-AllFit issuer ks h =
    let (fits, rest) = get-AllFit issuer ks h in
    insert-AllFit issuer _ (get issuer ks).1.stores rest
      (rotate_keys-Fits issuer (get issuer ks).0 (get issuer ks).1.made fits)

pub rotate_each-AllFit : (d : Dict IssuerKeys) (made : ℕ) → AllFit d → AllFit (rotate_each d made).0
unfolding rotate_each
rotate_each-AllFit [] made h = tt
rotate_each-AllFit ((name, ik) ∷ d) made (f, h) =
    (rotate_keys-Fits name ik made f, rotate_each-AllFit d (made + 1) h)
