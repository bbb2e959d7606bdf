-- ===== src/Handler/Token/Hooked.antt =====
-- A request that passes the hooks and the fault reaches its grant with the keys that were there before.
use mock_idp.Common.{
  ℕ, String, Bool, true, false, Option, none, some, ◌≡◌, refl, ap, sym, ◌∙◌, if◌then◌else◌, arith,
}
use mock_idp.Text.{truthy}
use mock_idp.Dict.{Dict, lookup}
use mock_idp.Value.{Claims}
use mock_idp.Chaos.{Fault, FaultMode, error_500, get_fault}
use mock_idp.Keys.{KeyStore}
use mock_idp.Result.{Result, ok, http}
use mock_idp.World.{World, Action, ◌>>◌, pure, raise}
use mock_idp.World.Calls.{bind_ok}
use mock_idp.Handler.Context.{Env}
use mock_idp.Handler.Hooks.{delay, pre, pre_fault, apply_test_hooks, apply_pre}

delay-keys : (header : Option String) (w : World) → (delay header w).1.keys ≡ w.keys
delay-keys header w = ground arith

pre-keys :
    (draw : ℕ) (mode : FaultMode) (fault : Fault) (w : World)
    → (pre draw mode fault w).1.keys ≡ w.keys
pre-keys draw error_500 fault w = ground arith
pre-keys draw _ fault w = refl

pre_fault-keys :
    (draw : ℕ) (fault : Option Fault) (w : World) → (pre_fault draw fault w).1.keys ≡ w.keys
pre_fault-keys draw none w = refl
pre_fault-keys draw (some f) w = pre-keys draw f.mode f w

fail-keys :
    (b : Bool) (w : World)
    → ((if b then raise {A = Unit {0}} (http 500 "server_error") else pure tt) w).1.keys ≡ w.keys
fail-keys true w = refl
fail-keys false w = refl

-- a call that succeeds leaves the keys that its result has
result-keys :
    {A : Type 0} (r : Result A × World) {a : A} {k : KeyStore} {v : World}
    → r.1.keys ≡ k
    → r ≡ (ok a, v)
    → v.keys ≡ k
result-keys {A} r same e = sym (ap (λ (t : Result A × World). t.1.keys) e) ∙ same

pub hooks-keys :
    (env : Env) (issuer : String) (headers : Dict String) (f : Action Claims) (w : World)
    {c : Claims} {w' : World}
    → (apply_test_hooks headers >> (apply_pre env issuer >> f)) w ≡ (ok c, w')
    → (v : World) × (v.keys ≡ w.keys) × (f v ≡ (ok c, w'))
unfolding apply_test_hooks apply_pre
hooks-keys env issuer headers f w h =
    let (_, w1, hooked, h1) = bind_ok (apply_test_hooks headers w) _ h in
    let (_, w2, faulted, h2) = bind_ok (apply_pre env issuer w1) _ h1 in
    let (_, w3, delayed, failed) = bind_ok (delay (lookup "x-test-delay-ms" headers) w) _ hooked in
    (
      w2,
      result-keys (apply_pre env issuer w1)
            (pre_fault-keys env.draw (get_fault issuer w1.faults) w1) faulted
          ∙ result-keys _ (fail-keys (truthy (lookup "x-test-fail" headers)) w3) failed
          ∙ result-keys _ (delay-keys (lookup "x-test-delay-ms" headers) w) delayed,
      h2,
    )
