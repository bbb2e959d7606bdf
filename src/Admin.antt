-- ===== src/Admin.antt =====
-- src/mock_idp/routers/admin.py: the routes that change the keys and the faults, and the list of the
-- faults. A response is modelled by the data it shows.
pub mod Guarded
pub mod Organisations
use mock_idp.Common.{
  ℕ, String, Bool, true, false, not, Option, none, some, List, [], ◌∷◌, if◌then◌else◌,
}
use mock_idp.Dict.{Dict}
use mock_idp.Keys.{Key, key_kid, rotate_issuer, rotate_all}
use mock_idp.Chaos.{Fault, Faults, set_fault, clear_fault}
use mock_idp.Result.{Result, ok, err, http, raise_if}
use mock_idp.World.{World, Action, ◌>>=◌, ◌>>◌, pure, raise, lift, modify}
use mock_idp.Handler.Context.{Env}
use mock_idp.Handler.Grants.{is_text}
use mock_idp.Handler.Issue.{with_keys}

-- `if x_admin_token != _cfg.ADMIN_TOKEN: raise`
unfoldable pub require_admin : Env → Option String → Action (Unit {0})
require_admin env x_admin_token =
    lift
      (raise_if (not (is_text x_admin_token env.cfg.admin_token)) (http 403 "invalid admin token"))

-- The ids of the new signing keys: of one issuer, or of all by their names.
pub data Rotated : Type 0 where
  new_signing_kid : String → Rotated
  issuers : Dict String → Rotated

abbrev rotate_chosen : Option String → Action Rotated
rotate_chosen none = with_keys rotate_all >>= λ kids. pure (issuers kids)
rotate_chosen (some issuer) =
    with_keys (rotate_issuer issuer) >>= λ key. pure (new_signing_kid (key_kid key))

unfoldable pub admin_rotate : Env → Option String → Option String → Action Rotated
admin_rotate env issuer x_admin_token = do require_admin env x_admin_token; rotate_chosen issuer

unfoldable pub admin_list_chaos : Env → Option String → Action Faults
admin_list_chaos env x_admin_token = do require_admin env x_admin_token; λ w. (ok w.faults, w)

unfoldable pub admin_set_chaos : Env → String → Fault → Option String → Action Fault
admin_set_chaos env issuer cfg x_admin_token = do
  require_admin env x_admin_token
  modify (λ w. record w { faults = set_fault issuer cfg w.faults })
  pure cfg

-- clear the fault and say whether there was one
abbrev cleared : String → Action Bool
cleared issuer w =
    let (was_set, faults) = clear_fault issuer w.faults in
    (ok was_set, record w { faults = faults })

unfoldable pub admin_clear_chaos : Env → String → Option String → Action (Unit {0})
admin_clear_chaos env issuer x_admin_token = do
  require_admin env x_admin_token
  was_set ← cleared issuer
  lift (raise_if (not was_set) (http 404 "no_fault_set"))
