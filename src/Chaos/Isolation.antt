-- ===== src/Chaos/Isolation.antt =====
-- Setting, clearing and reading faults.
use mock_idp.Common.{String, none, some, ◌≡◌, refl, if◌then◌else◌, ◌==◌}
use mock_idp.Dict.{contains, lookup-insert, lookup-erase}
use mock_idp.Chaos.{Fault, Faults, set_fault, clear_fault, get_fault}

-- A fault that is set replaces the issuer's fault and no other; a fault that is cleared is gone and
-- every other stays; and clearing reports whether there was one.
pub faults_lem :
    (issuer other : String) (config : Fault) (faults : Faults)
    → (get_fault other (set_fault issuer config faults)
        ≡ (if issuer == other then some config else get_fault other faults))
      × (get_fault other (clear_fault issuer faults).1
          ≡ (if issuer == other then none else get_fault other faults))
      × ((clear_fault issuer faults).0 ≡ contains issuer faults)
unfolding set_fault clear_fault get_fault
faults_lem issuer other config faults =
    (lookup-insert issuer other config faults, lookup-erase issuer other faults, refl)
