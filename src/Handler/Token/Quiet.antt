-- ===== src/Handler/Token/Quiet.antt =====
-- The calls before a grant write no event, call no webhook and change no fault.
use mock_idp.Common.{ℕ, String, Bool, true, false, Option, none, some, refl, if◌then◌else◌, arith}
use mock_idp.Text.{truthy}
use mock_idp.Dict.{Dict, lookup}
use mock_idp.Keys.{KeyStore}
use mock_idp.Chaos.{Fault, FaultMode, error_500, delay_ms, get_fault}
use mock_idp.Result.{Result, http, Error}
use mock_idp.World.{Action, pure, raise, lift}
use mock_idp.World.Calls.{
  Same-refl, Quiet, QuietOnError, NoHttpError, Quiet-QuietOnError, bind-Same,
}
use mock_idp.Handler.Context.{Env}
use mock_idp.Handler.Hooks.{delay, pre, pre_fault, apply_test_hooks, apply_pre}
use mock_idp.Handler.Issue.{with_keys}

pub lift-Quiet : {A : Type 0} (r : Result A) → Quiet (lift r)
lift-Quiet r w = Same-refl w

pub pure-Quiet : {A : Type 0} (a : A) → Quiet (pure a)
pure-Quiet a w = Same-refl w

pub pure-NoHttpError : {A : Type 0} (a : A) → NoHttpError (pure a)
pure-NoHttpError a w s d e = cc

pub if-QuietOnError :
    {A : Type 0} (b : Bool) (m n : Action A)
    → QuietOnError m
    → QuietOnError n
    → QuietOnError (if b then m else n)
if-QuietOnError true m n p q = p
if-QuietOnError false m n p q = q

pub raise-QuietOnError : {A : Type 0} (e : Error) → QuietOnError (raise {A = A} e)
raise-QuietOnError e = Quiet-QuietOnError (raise e) Same-refl

pub with_keys-Quiet : {A : Type 0} (f : KeyStore → A × KeyStore) → Quiet (with_keys f)
with_keys-Quiet f w = record { audit = refl; posts = refl; faults = refl }

pub delay-Quiet : (header : Option String) → Quiet (delay header)
delay-Quiet header w = ground arith

pub raise_or_pass-Quiet :
    (b : Bool) → Quiet (if b then raise (http 500 "server_error") else pure tt)
raise_or_pass-Quiet true w = Same-refl w
raise_or_pass-Quiet false w = Same-refl w

pub pre-Quiet : (draw : ℕ) (mode : FaultMode) (fault : Fault) → Quiet (pre draw mode fault)
pre-Quiet draw error_500 fault w = ground arith
pre-Quiet draw delay_ms fault w = record { audit = refl; posts = refl; faults = refl }
pre-Quiet draw _ fault w = Same-refl w

pub pre_fault-Quiet : (draw : ℕ) (fault : Option Fault) → Quiet (pre_fault draw fault)
pre_fault-Quiet draw none w = Same-refl w
pre_fault-Quiet draw (some fault) w = pre-Quiet draw fault.mode fault w

pub apply_test_hooks-Quiet : (headers : Dict String) → Quiet (apply_test_hooks headers)
unfolding apply_test_hooks
apply_test_hooks-Quiet headers w =
    bind-Same w _ _ (delay-Quiet (lookup "x-test-delay-ms" headers) w)
      λ _ v. raise_or_pass-Quiet (truthy (lookup "x-test-fail" headers)) v

pub apply_pre-Quiet : (env : Env) (issuer : String) → Quiet (apply_pre env issuer)
unfolding apply_pre
apply_pre-Quiet env issuer w = pre_fault-Quiet env.draw (get_fault issuer w.faults) w
