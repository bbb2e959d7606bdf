-- ===== src/Orgs/Keys/Tasks/Fair.antt =====
-- How often a call of `_load_or_create` is resumed before it ends.
use mock_idp.Common.{
  ℕ, suc, ◌-◌, ◌≤◌, String, Bool, true, false, none, some, List, [], ◌∷◌, arith, Option-cases, inl,
  inr,
}
use mock_idp.Dict.{lookup}
use mock_idp.Keys.{IssuerKeys}
use mock_idp.Orgs.Keys.{OrgKeys}
use mock_idp.Orgs.Keys.Tasks.{
  Phase, asked, missing, fetched, created, written, done, Calls, resume, resume_first,
  resume_second, run,
}

-- the most resumptions that a call may still need
abbrev pub remaining : Phase → ℕ
remaining asked = 5
remaining missing = 4
remaining (fetched row) = 3
remaining (created ik) = 2
remaining (written ik) = 1
remaining (done ik) = 0

-- how often a schedule resumes the first call, and the second
abbrev pub turns : Bool → List Bool → ℕ
turns who [] = 0
turns true (true ∷ schedule) = suc (turns true schedule)
turns true (false ∷ schedule) = turns true schedule
turns false (true ∷ schedule) = turns false schedule
turns false (false ∷ schedule) = suc (turns false schedule)

-- a call that has ended
pub data Ended : Phase → Type 0 where
  ended : (ik : IssuerKeys) → Ended (done ik)

pub remaining-Ended : (phase : Phase) → remaining phase ≤ 0 → Ended phase
remaining-Ended asked h = absurd (omega arith)
remaining-Ended missing h = absurd (omega arith)
remaining-Ended (fetched row) h = absurd (omega arith)
remaining-Ended (created ik) h = absurd (omega arith)
remaining-Ended (written ik) h = absurd (omega arith)
remaining-Ended (done ik) h = ended ik

module _ (org_id issuer : String) where
  resume-remaining :
      (phase : Phase) (state : OrgKeys)
      → remaining (resume org_id issuer phase state).0 ≤ remaining phase - 1
  unfolding resume
  resume-remaining asked state = elim (Option-cases (lookup issuer state.cache)) [
    | inl miss ↦ rw miss (omega arith)
    | inr (ik, hit) ↦ rw hit (omega arith)
  ]
  resume-remaining missing state = omega arith
  resume-remaining (fetched none) state = omega arith
  resume-remaining (fetched (some row)) state = omega arith
  resume-remaining (created ik) state = omega arith
  resume-remaining (written ik) state = omega arith
  resume-remaining (done ik) state = omega arith

  pub run-remaining :
      (schedule : List Bool) (calls : Calls)
      → (remaining (run org_id issuer schedule calls).first
          ≤ remaining calls.first - turns true schedule)
        × (remaining (run org_id issuer schedule calls).second
            ≤ remaining calls.second - turns false schedule)
  unfolding run resume_first resume_second
  run-remaining [] calls = (omega arith, omega arith)
  run-remaining (true ∷ schedule) calls =
      let less = resume-remaining calls.first calls.shared in
      let (l, r) = run-remaining schedule (resume_first org_id issuer calls) in (omega arith, r)
  run-remaining (false ∷ schedule) calls =
      let less = resume-remaining calls.second calls.shared in
      let (l, r) = run-remaining schedule (resume_second org_id issuer calls) in (l, omega arith)
