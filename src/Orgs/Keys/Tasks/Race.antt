-- ===== src/Orgs/Keys/Tasks/Race.antt =====
-- Two calls of `_load_or_create` that both find no keys.
use mock_idp.Common.{
  ℕ, ◌+◌, ◌<◌, ◌≤◌, ◌==◌, Bool-cases, inl, inr, String, Bool, true, false, Option, none, some, List,
  [], ◌∷◌, ◌≡◌, ◌≢◌, refl, arith, ap, sym,
}
use mock_idp.Text.{◌<>◌}
use mock_idp.Keys.{IssuerKeys, Key, init, new_rsa_key, new_ec_key, signing_key_for_alg}
use mock_idp.Orgs.Keys.{OrgKeys, persist}
use mock_idp.Orgs.Keys.Tasks.Fair.{Ended, turns, remaining-Ended, run-remaining}
use mock_idp.Orgs.Keys.Tasks.{
  Phase, fetched, created, written, done, Calls, resume, resume_first, resume_second, run,
}

-- a call that found no row, with the number of keys that were made before its own
pub data Racing (label : String) : Phase → Option ℕ → Type 0 where
  unmade : Racing label (fetched none) none
  at_created : (n : ℕ) → Racing label (created (init label n)) (some n)
  at_written : (n : ℕ) → Racing label (written (init label n)) (some n)
  at_done : (n : ℕ) → Racing label (done (init label n)) (some n)

-- the keys of a call were made before
abbrev Before : ℕ → Option ℕ → Type 0
Before made none = Unit
Before made (some n) = n < made

-- not the same keys
abbrev Apart : Option ℕ → Option ℕ → Type 0
Apart (some n) (some m) = n ≢ m
Apart _ _ = Unit

Apart-sym : (a b : Option ℕ) → Apart a b → Apart b a
Apart-sym none none h = tt
Apart-sym none (some m) h = tt
Apart-sym (some n) none h = tt
Apart-sym (some n) (some m) h = λ e. h (sym e)

Before-Apart : (made : ℕ) (other : Option ℕ) → Before made other → Apart (some made) other
Before-Apart made none h = tt
Before-Apart made (some n) h = omega arith

Before-more : (made : ℕ) (other : Option ℕ) → Before made other → Before (made + 6) other
Before-more made none h = tt
Before-more made (some n) h = omega arith

-- two calls at their phases, in a state with `made` keys, that do not have the same keys
data Rivals (label : String) (mine other : Phase) (made : ℕ) : Type 0 where
  rivals :
      {n m : Option ℕ}
      → Racing label mine n
      → Racing label other m
      → Before made n
      → Before made m
      → Apart n m
      → Rivals label mine other made

Rivals-swap :
    {label : String} {mine other : Phase} {made : ℕ}
    → Rivals label mine other made
    → Rivals label other mine made
Rivals-swap (rivals {n} {m} race race' before before' apart) =
    rivals race' race before' before (Apart-sym n m apart)

-- Two calls that have ended with signing keys of one id that are not the same key.
pub data Clash (alg : String) (mine other : Phase) : Type 0 where
  clash :
      (ik ik' : IssuerKeys)
      → mine ≡ done ik
      → other ≡ done ik'
      → (signing_key_for_alg ik alg).kid ≡ (signing_key_for_alg ik' alg).kid
      → signing_key_for_alg ik alg ≢ signing_key_for_alg ik' alg
      → Clash alg mine other

-- two makings give signing keys of the same id that are not the same
init-Clash :
    (label alg : String) (n m : ℕ)
    → n ≢ m
    → ((signing_key_for_alg (init label n) alg).kid ≡ (signing_key_for_alg (init label m) alg).kid)
      × (signing_key_for_alg (init label n) alg ≢ signing_key_for_alg (init label m) alg)
unfolding init new_rsa_key new_ec_key signing_key_for_alg
init-Clash label alg n m apart = elim (Bool-cases (alg == "ES256")) [
  | inl is_ec ↦
      rw is_ec
        (refl, λ e. let same : n + 4 ≡ m + 4 = ap (λ (k : Key). k.serial) e in apart (omega arith))
  | inr other ↦ rw other (refl, λ e. apart (ap (λ (k : Key). k.serial) e))
]

Racing-Ended :
    {label : String} {phase : Phase} {n : Option ℕ}
    → Racing label phase n
    → Ended phase
    → (k : ℕ) × (phase ≡ done (init label k)) × (n ≡ some k)
Racing-Ended unmade e = elim e [ ]
Racing-Ended (at_created n) e = elim e [ ]
Racing-Ended (at_written n) e = elim e [ ]
Racing-Ended (at_done n) e = (n, refl, refl)

Rivals-Clash :
    {label : String} {mine other : Phase} {made : ℕ} (alg : String)
    → Rivals label mine other made
    → Ended mine
    → Ended other
    → Clash alg mine other
Rivals-Clash {label} alg (rivals race race' before before' apart) mine_ended other_ended =
    let (k, at, number) = Racing-Ended race mine_ended in
    let (k', at', number') = Racing-Ended race' other_ended in
    let differ : k ≢ k' = rw (number, number') at apart in
    let (same_id, not_same) = init-Clash label alg k k' differ in
    clash (init label k) (init label k') at at' same_id not_same

module _ (org_id issuer : String) where
  abbrev label : String
  label = org_id <> "/" <> issuer

  resume-Rivals :
      {mine other : Phase} (state : OrgKeys)
      → Rivals label mine other state.made
      → let (next, state') = resume org_id issuer mine state in Rivals label next other state'.made
  unfolding resume persist
  resume-Rivals state (rivals {m} unmade race before before' apart) =
      rivals (at_created state.made) race (omega arith) (Before-more state.made m before')
        (Before-Apart state.made m before')
  resume-Rivals state (rivals (at_created n) race before before' apart) =
      rivals (at_written n) race before before' apart
  resume-Rivals state (rivals (at_written n) race before before' apart) =
      rivals (at_done n) race before before' apart
  resume-Rivals state (rivals (at_done n) race before before' apart) =
      rivals (at_done n) race before before' apart

  run-Rivals :
      (schedule : List Bool) (calls : Calls)
      → Rivals label calls.first calls.second calls.shared.made
      → let last = run org_id issuer schedule calls in
        Rivals label last.first last.second last.shared.made
  unfolding run resume_first resume_second
  run-Rivals [] calls r = r
  run-Rivals (true ∷ schedule) calls r =
      run-Rivals schedule (resume_first org_id issuer calls) (resume-Rivals calls.shared r)
  run-Rivals (false ∷ schedule) calls r =
      run-Rivals schedule (resume_second org_id issuer calls)
        (Rivals-swap (resume-Rivals calls.shared (Rivals-swap r)))

  -- Two calls for the same issuer that both have found neither cached keys nor a row end under every
  -- schedule that resumes each of them three times or more, whatever the state is, and have then, for
  -- every algorithm, different signing keys with the same id.
  pub run-Clash :
      (schedule : List Bool) (state : OrgKeys) (alg : String)
      → 3 ≤ turns true schedule
      → 3 ≤ turns false schedule
      → let last =
          run org_id issuer schedule
            (record { first = fetched none; second = fetched none; shared = state }) in
        Clash alg last.first last.second
  run-Clash schedule state alg first second =
      let calls : Calls = record { first = fetched none; second = fetched none; shared = state } in
      let (l, r) = run-remaining org_id issuer schedule calls in
      Rivals-Clash alg (run-Rivals schedule calls (rivals unmade unmade tt tt tt))
        (remaining-Ended _ (omega arith)) (remaining-Ended _ (omega arith))
