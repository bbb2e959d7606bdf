-- ===== src/Handler/Hooks.antt =====
-- src/mock_idp/tokens.py: `apply_test_hooks`; src/mock_idp/chaos.py: `apply_pre`.
use mock_idp.Common.{ℕ, String, Option, none, some, [], ◌∷◌, ◌++◌, if◌then◌else◌, ltb}
use mock_idp.Int.{ℤ, pos_part}
use mock_idp.Text.{parse_int, truthy, or_empty}
use mock_idp.Dict.{Dict, lookup}
use mock_idp.Chaos.{Fault, FaultMode, error_500, delay_ms, get_fault}
use mock_idp.Result.{http}
use mock_idp.World.{Action, ◌>>◌, pure, raise, modify}
use mock_idp.Handler.Context.{Env}

-- `asyncio.sleep` for a number of milliseconds; it does not wait for a negative number
abbrev pub sleep : ℤ → Action (Unit {0})
sleep ms = modify (λ w. record w { slept = w.slept ++ pos_part ms ∷ [] })

-- X-Test-Delay-Ms
abbrev pub delay : Option String → Action (Unit {0})
delay header =
    if truthy header
    then (elim (parse_int (or_empty header)) [ none ↦ pure tt | some ms ↦ sleep ms ])
    else pure tt

unfoldable pub apply_test_hooks : Dict String → Action (Unit {0})
apply_test_hooks headers = do
  delay (lookup "x-test-delay-ms" headers)
  if truthy (lookup "x-test-fail" headers) then raise (http 500 "server_error") else pure tt

-- what an active fault does before the request is processed
abbrev pub pre : ℕ → FaultMode → Fault → Action (Unit {0})
pre draw error_500 fault =
    if ltb draw fault.probability then raise (http 500 "chaos_error_500") else pure tt
pre draw delay_ms fault = sleep fault.value
pre draw _ fault = pure tt

abbrev pub pre_fault : ℕ → Option Fault → Action (Unit {0})
pre_fault draw none = pure tt
pre_fault draw (some fault) = pre draw fault.mode fault

unfoldable pub apply_pre : Env → String → Action (Unit {0})
apply_pre env issuer w = pre_fault env.draw (get_fault issuer w.faults) w
