-- ===== src/Orgs/Keys/Tasks.antt =====
-- src/mock_idp/org_registry.py: `_load_or_create` as the event loop runs it, from one `await` to the
-- next, for several requests at the same time.
pub mod Alone
pub mod Fair
pub mod Race
pub mod Settled
use mock_idp.Common.{
  ℕ, zero, suc, ◌+◌, String, Bool, true, false, Option, none, some, List, [], ◌∷◌,
}
use mock_idp.Text.{◌<>◌}
use mock_idp.Dict.{lookup, insert}
use mock_idp.Keys.{IssuerKeys, init}
use mock_idp.Orgs.Keys.{KeyData, OrgKeys, deserialize_issuer_keys, persist}

-- where a call stands: at its start, before the query, with the answer of the query, before the keys
-- that it made are written, before the written keys are cached, and at its end
pub data Phase : Type 0 where
  asked missing : Phase
  fetched : Option KeyData → Phase
  created written done : IssuerKeys → Phase

-- The first look at the cache: no other call runs between the look and the result.
abbrev pub after_look : Option IssuerKeys → Phase
after_look none = missing
after_look (some ik) = done ik

abbrev pub put_cache : String → IssuerKeys → OrgKeys → OrgKeys
put_cache issuer ik state = record state { cache = insert issuer ik state.cache }

-- two calls and the state that they share
pub record Calls : Type 0 where
  pub first : Phase
  pub second : Phase
  pub shared : OrgKeys

module _ (org_id issuer : String) where
  -- what a call does when it is resumed
  unfoldable pub resume : Phase → OrgKeys → Phase × OrgKeys
  resume asked state = (after_look (lookup issuer state.cache), state)
  resume missing state = (fetched (lookup issuer state.rows), state)
  resume (fetched (some row)) state =
      let ik = deserialize_issuer_keys issuer row in (done ik, put_cache issuer ik state)
  resume (fetched none) state =
      (created (init (org_id <> "/" <> issuer) state.made), record state { made = state.made + 6 })
  resume (created ik) state = (written ik, persist issuer ik state)
  resume (written ik) state = (done ik, put_cache issuer ik state)
  resume (done ik) state = (done ik, state)

  unfoldable pub resume_first : Calls → Calls
  resume_first calls =
      let (phase, state) = resume calls.first calls.shared in
      record calls { first = phase; shared = state }

  unfoldable pub resume_second : Calls → Calls
  resume_second calls =
      let (phase, state) = resume calls.second calls.shared in
      record calls { second = phase; shared = state }

  -- a schedule says which of the calls is resumed, `true` for the first
  unfoldable pub run : List Bool → Calls → Calls
  run [] calls = calls
  run (true ∷ schedule) calls = run schedule (resume_first calls)
  run (false ∷ schedule) calls = run schedule (resume_second calls)

  -- one call that nothing interrupts, resumed `n` times
  unfoldable pub run_alone : ℕ → Phase → OrgKeys → Phase × OrgKeys
  run_alone zero phase state = (phase, state)
  run_alone (suc n) phase state = let (next, state') = resume phase state in run_alone n next state'
