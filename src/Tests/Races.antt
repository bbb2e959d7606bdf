-- ===== src/Tests/Races.antt =====
-- Calls of an organisation's key resolver at the same time.
use mock_idp.Common.{Bool, true, false, none, some, List, [], ◌∷◌, ◌≡◌, refl, arith}
use mock_idp.Dict.{lookup, insert}
use mock_idp.Keys.{init}
use mock_idp.Orgs.Keys.{OrgKeys, KeyData, persist, serialize_issuer_keys}
use mock_idp.Orgs.Keys.Restart.{empty_keys}
use mock_idp.Orgs.Keys.Tasks.{Calls, asked, fetched, resume, resume_first, resume_second, run}
use mock_idp.Orgs.Keys.Tasks.Settled.{Took, Settled, IsCached, run-Took}
use mock_idp.Orgs.Keys.Tasks.Race.{Clash, run-Clash}

-- The calls take turns.
abbrev turn_by_turn : List Bool
turn_by_turn = true ∷ false ∷ true ∷ false ∷ true ∷ false ∷ []

abbrev both_missed : Calls
both_missed = record { first = fetched none; second = fetched none; shared = empty_keys }

run-Clash_example :
    let last = run "acme" "corp" turn_by_turn both_missed in Clash "RS256" last.first last.second
run-Clash_example =
    run-Clash "acme" "corp" turn_by_turn empty_keys "RS256" (omega arith) (omega arith)

-- Two new calls that take turns both miss the cache and the table.
abbrev both_asked : Calls
both_asked = record { first = asked; second = asked; shared = empty_keys }

both_asked-miss : run "acme" "corp" (true ∷ false ∷ true ∷ false ∷ []) both_asked ≡ both_missed
unfolding run resume_first resume_second resume lookup
both_asked-miss = refl

-- If the call that writes first caches last, the cache and the table hold the keys of different calls.
abbrev crossed : Calls
crossed = run "acme" "corp" (true ∷ false ∷ true ∷ false ∷ false ∷ true ∷ []) both_missed

crossed-differ :
    (lookup "corp" crossed.shared.cache ≡ some (init "acme/corp" 0))
    × (lookup "corp" crossed.shared.rows ≡ some (serialize_issuer_keys (init "acme/corp" 6)))
unfolding run resume_first resume_second resume lookup insert persist
crossed-differ = (refl, refl)

-- the keys of an issuer, as the table has them
abbrev corp_row : KeyData
corp_row = serialize_issuer_keys (init "acme/corp" 0)

-- the program was started again after the keys were made
abbrev restarted : OrgKeys
restarted = record { cache = []; rows = ("corp", corp_row) ∷ []; made = 6 }

restarted-Settled : Settled "corp" corp_row 6 restarted
unfolding lookup
restarted-Settled = record { stored = refl; cached = λ ik found. cc; none_made = refl }

-- five turns each
abbrev ten_turns : List Bool
ten_turns = true ∷ false ∷ true ∷ false ∷ true ∷ false ∷ true ∷ false ∷ true ∷ false ∷ []

run-Took_example :
    let last =
      run "acme" "corp" ten_turns (record { first = asked; second = asked; shared = restarted }) in
    Took corp_row last.first
    × Took corp_row last.second
    × IsCached "corp" last.shared
    × Settled "corp" corp_row 6 last.shared
run-Took_example =
    run-Took "acme" "corp" corp_row 6 ten_turns restarted restarted-Settled (omega arith)
      (omega arith)
