-- ===== src/Orgs/Keys/Tasks/Alone.antt =====
-- A call of `_load_or_create` that nothing interrupts.
use mock_idp.Common.{String, ◌≡◌, refl, Option-cases, inl, inr}
use mock_idp.Dict.{lookup}
use mock_idp.Orgs.Keys.{OrgKeys, load_or_create, persist}
use mock_idp.Orgs.Keys.Tasks.{asked, done, resume, run_alone}

-- A call that nothing interrupts ends when it is resumed five times, with the keys and the state of
-- `load_or_create`.
run_alone-load_or_create :
    (org_id issuer : String) (state : OrgKeys)
    → let (ik, loaded) = load_or_create org_id issuer state in
      run_alone org_id issuer 5 asked state ≡ (done ik, loaded)
unfolding run_alone resume load_or_create persist
run_alone-load_or_create org_id issuer state = elim (Option-cases (lookup issuer state.cache)) [
  | inr (ik, hit) ↦ rw hit refl
  | inl miss ↦ elim (Option-cases (lookup issuer state.rows)) [
    | inr (row, hit) ↦ rw (miss, hit) refl
    | inl absent ↦ rw (miss, absent) refl
  ]
]
