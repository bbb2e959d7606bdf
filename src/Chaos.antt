-- ===== src/Chaos.antt =====
-- src/mock_idp/chaos.py: the faults that are injected per issuer. The configuration of a fault is the
-- dump of `ChaosConfig` in src/mock_idp/routers/admin.py, so that all its fields are present.
pub mod Isolation
use mock_idp.Common.{
  ℕ, String, Bool, true, false, Option, none, some, List, [], ◌∷◌, if◌then◌else◌, ◌==◌,
}
use mock_idp.Int.{ℤ}
use mock_idp.Dict.{Dict, lookup, insert, erase, contains}

pub data FaultMode : Type 0 where
  error_500 delay_ms invalid_token invalid_signature expired_token : FaultMode

-- `probability` is the float in units of 2⁻⁵³, rounded up. `random.random()` is a multiple of that
-- unit, so a draw is below the float exactly if its number of units is below this number.
pub record Fault : Type 0 where
  pub mode : FaultMode
  pub probability : ℕ
  pub value : ℤ
  pub skew_seconds : ℤ

abbrev pub Faults : Type 0
Faults = Dict Fault

unfoldable pub set_fault : String → Fault → Faults → Faults
unfolding insert
set_fault issuer config faults = insert issuer config faults

-- whether a fault was present, and the faults without it
unfoldable pub clear_fault : String → Faults → Bool × Faults
unfolding lookup erase
clear_fault issuer faults = (contains issuer faults, erase issuer faults)

unfoldable pub get_fault : String → Faults → Option Fault
unfolding lookup
get_fault issuer faults = lookup issuer faults
