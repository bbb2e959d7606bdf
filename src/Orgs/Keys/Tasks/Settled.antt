-- ===== src/Orgs/Keys/Tasks/Settled.antt =====
-- Calls of `_load_or_create` for an issuer whose keys are in the table.
use mock_idp.Common.{
  ℕ, ◌≤◌, String, Bool, true, false, some, List, [], ◌∷◌, ◌≡◌, refl, sym, ap, ◌∙◌, arith, eq_refl,
  Option-cases, inl, inr,
}
use mock_idp.Dict.{lookup, lookup-insert}
use mock_idp.Keys.{IssuerKeys}
use mock_idp.Orgs.Keys.{KeyData, OrgKeys, serialize_issuer_keys, deserialize_issuer_keys}
use mock_idp.Orgs.Keys.Tasks.{
  Phase, asked, missing, fetched, done, Calls, put_cache, resume, resume_first, resume_second, run,
}
use mock_idp.Orgs.Keys.Tasks.Fair.{Ended, turns, remaining-Ended, run-remaining}

-- the cache has keys for the issuer
abbrev pub IsCached : String → OrgKeys → Type 0
IsCached issuer state = (ik : IssuerKeys) × (lookup issuer state.cache ≡ some ik)

-- a call that has no other keys than those of the row, and that has left keys in the cache if it ended
data Follows (issuer : String) (row : KeyData) (state : OrgKeys) : Phase → Type 0 where
  at_asked : Follows issuer row state asked
  at_missing : Follows issuer row state missing
  at_fetched : Follows issuer row state (fetched (some row))
  at_done :
      (ik : IssuerKeys)
      → serialize_issuer_keys ik ≡ row
      → IsCached issuer state
      → Follows issuer row state (done ik)

-- a call when the other one was resumed
Follows-later :
    {issuer : String} {row : KeyData} {state state' : OrgKeys} {phase : Phase}
    → (IsCached issuer state → IsCached issuer state')
    → Follows issuer row state phase
    → Follows issuer row state' phase
Follows-later keeps at_asked = at_asked
Follows-later keeps at_missing = at_missing
Follows-later keeps at_fetched = at_fetched
Follows-later keeps (at_done ik same cached) = at_done ik same (keeps cached)

-- The keys of the issuer stand in the table, and those in the cache, if any, are the same. `made` keys
-- were made so far.
pub record Settled (issuer : String) (row : KeyData) (made : ℕ) (state : OrgKeys) : Type 0 where
  pub stored : lookup issuer state.rows ≡ some row
  pub cached :
      (ik : IssuerKeys) → lookup issuer state.cache ≡ some ik → serialize_issuer_keys ik ≡ row
  pub none_made : state.made ≡ made

-- a call that has ended with the keys of the row
pub data Took (row : KeyData) : Phase → Type 0 where
  took : (ik : IssuerKeys) → serialize_issuer_keys ik ≡ row → Took row (done ik)

Follows-Took :
    {issuer : String} {row : KeyData} {state : OrgKeys} {phase : Phase}
    → Follows issuer row state phase
    → Ended phase
    → Took row phase × IsCached issuer state
Follows-Took at_asked e = elim e [ ]
Follows-Took at_missing e = elim e [ ]
Follows-Took at_fetched e = elim e [ ]
Follows-Took (at_done ik same cached) e = (took ik same, cached)

module _ (org_id issuer : String) (row : KeyData) (made : ℕ) where
  restored : serialize_issuer_keys (deserialize_issuer_keys issuer row) ≡ row
  unfolding serialize_issuer_keys deserialize_issuer_keys
  restored = refl

  some_eq : {a b : IssuerKeys} → some a ≡ some b → a ≡ b
  some_eq h = cc

  put_cache-Settled :
      (state : OrgKeys)
      → Settled issuer row made state
      → Settled issuer row made (put_cache issuer (deserialize_issuer_keys issuer row) state)
  put_cache-Settled state s =
      let mine = deserialize_issuer_keys issuer row in
      record {
        stored = s.stored;
        cached = λ ik found.
            let same : some mine ≡ some ik =
              rw (lookup-insert issuer issuer mine state.cache, eq_refl issuer) at found in
            ap serialize_issuer_keys (sym (some_eq same)) ∙ restored;
        none_made = s.none_made;
      }

  put_cache-IsCached :
      (ik : IssuerKeys) (state : OrgKeys) → IsCached issuer (put_cache issuer ik state)
  put_cache-IsCached ik state =
      (ik, rw (lookup-insert issuer issuer ik state.cache, eq_refl issuer) refl)

  resume-Settled :
      {phase : Phase} (state : OrgKeys)
      → Follows issuer row state phase
      → Settled issuer row made state
      → let (next, state') = resume org_id issuer phase state in
        Follows issuer row state' next
        × Settled issuer row made state'
        × (IsCached issuer state → IsCached issuer state')
  unfolding resume
  resume-Settled state at_asked s = elim (Option-cases (lookup issuer state.cache)) [
    | inl miss ↦ rw miss (at_missing, s, λ c. c)
    | inr (ik, hit) ↦ rw hit (at_done ik (s.cached ik hit) (ik, hit), s, λ c. c)
  ]
  resume-Settled state at_missing s = rw s.stored (at_fetched, s, λ c. c)
  resume-Settled state at_fetched s =
      let mine = deserialize_issuer_keys issuer row in
      let cached = put_cache-IsCached mine state in
      (at_done mine restored cached, put_cache-Settled state s, λ c. cached)
  resume-Settled state (at_done ik same cached) s = (at_done ik same cached, s, λ c. c)

  run-Follows :
      (schedule : List Bool) (calls : Calls)
      → Follows issuer row calls.shared calls.first
      → Follows issuer row calls.shared calls.second
      → Settled issuer row made calls.shared
      → let last = run org_id issuer schedule calls in
        Follows issuer row last.shared last.first
        × Follows issuer row last.shared last.second
        × Settled issuer row made last.shared
  unfolding run resume_first resume_second
  run-Follows [] calls f g s = (f, g, s)
  run-Follows (true ∷ schedule) calls f g s =
      let (f', s', keeps) = resume-Settled calls.shared f s in
      run-Follows schedule (resume_first org_id issuer calls) f' (Follows-later keeps g) s'
  run-Follows (false ∷ schedule) calls f g s =
      let (g', s', keeps) = resume-Settled calls.shared g s in
      run-Follows schedule (resume_second org_id issuer calls) (Follows-later keeps f) g' s'

  -- Two calls for an issuer whose keys stand in the table, and in the cache none or the same, end under
  -- every schedule that resumes each of them five times or more, both with the keys of the table; after
  -- that the cache has keys for the issuer, which are those of the table, the table has them still, and
  -- no keys were made.
  pub run-Took :
      (schedule : List Bool) (state : OrgKeys)
      → Settled issuer row made state
      → 5 ≤ turns true schedule
      → 5 ≤ turns false schedule
      → let last =
          run org_id issuer schedule (record { first = asked; second = asked; shared = state }) in
        Took row last.first
        × Took row last.second
        × IsCached issuer last.shared
        × Settled issuer row made last.shared
  run-Took schedule state s first second =
      let calls : Calls = record { first = asked; second = asked; shared = state } in
      let (l, r) = run-remaining org_id issuer schedule calls in
      let (f, g, s') = run-Follows schedule calls at_asked at_asked s in
      let (took_first, cached) = Follows-Took f (remaining-Ended _ (omega arith)) in
      (took_first, (Follows-Took g (remaining-Ended _ (omega arith))).0, cached, s')
