-- ===== src/Admin/Guarded.antt =====
-- What the admin routes do with and without the admin token.
use mock_idp.Common.{
  String, true, false, Option, none, some, ◌≡◌, ◌≢◌, refl, arith, ◌==◌, eq_iff, eq_refl, Bool-cases,
  inl, inr,
}
use mock_idp.Dict.{lookup, contains_of_lookup}
use mock_idp.Chaos.{Fault, set_fault, get_fault}
use mock_idp.Chaos.Isolation.{faults_lem}
use mock_idp.Result.{ok, err, http}
use mock_idp.World.{World, bind}
use mock_idp.Handler.Context.{Env}
use mock_idp.Handler.Grants.{is_text}
use mock_idp.Handler.Token.Outcome.{is_text-eq}
use mock_idp.Admin.{
  require_admin, admin_rotate, admin_list_chaos, admin_set_chaos, admin_clear_chaos,
}

pub wrong_token :
    (env : Env) (token : Option String)
    → token ≢ some env.cfg.admin_token
    → is_text token env.cfg.admin_token ≡ false
wrong_token env token ne = elim (Bool-cases (is_text token env.cfg.admin_token)) [
  | inl same ↦ absurd (ne (is_text-eq token env.cfg.admin_token same))
  | inr other ↦ other
]

-- Without the admin token the routes for rotation and for faults refuse with 403 and change nothing.
pub admin-forbidden :
    (env : Env) (token issuer : Option String) (name : String) (cfg : Fault) (w : World)
    → token ≢ some env.cfg.admin_token
    → (admin_rotate env issuer token w ≡ (err (http 403 "invalid admin token"), w))
      × (admin_list_chaos env token w ≡ (err (http 403 "invalid admin token"), w))
      × (admin_set_chaos env name cfg token w ≡ (err (http 403 "invalid admin token"), w))
      × (admin_clear_chaos env name token w ≡ (err (http 403 "invalid admin token"), w))
unfolding admin_rotate admin_list_chaos admin_set_chaos admin_clear_chaos require_admin bind
admin-forbidden env token issuer name cfg w ne =
    let no = wrong_token env token ne in (rw no refl, rw no refl, rw no refl, rw no refl)

-- With the admin token a fault that is set is the one that requests of its issuer meet afterwards, and
-- clearing it then succeeds and leaves the issuer without a fault.
admin_set_chaos-clear :
    (env : Env) (name : String) (cfg : Fault) (w : World)
    → let token = some env.cfg.admin_token in
      let v = (admin_set_chaos env name cfg token w).1 in
      let u = (admin_clear_chaos env name token v).1 in
      (get_fault name v.faults ≡ some cfg)
      × ((admin_clear_chaos env name token v).0 ≡ ok tt)
      × (get_fault name u.faults ≡ none)
unfolding admin_set_chaos admin_clear_chaos require_admin bind get_fault
admin_set_chaos-clear env name cfg w =
    let same : (env.cfg.admin_token == env.cfg.admin_token) ≡ true =
      ground (arith, eq_iff env.cfg.admin_token env.cfg.admin_token) in
    let faults = set_fault name cfg w.faults in
    let (set, _, _) = faults_lem name name cfg w.faults in
    let (_, gone, was_there) = faults_lem name name cfg faults in
    let now_set : lookup name faults ≡ some cfg = rw (set, eq_refl name) refl in
    rw same (
      now_set,
      rw (was_there, contains_of_lookup name faults now_set) refl,
      rw (gone, eq_refl name) refl,
    )
