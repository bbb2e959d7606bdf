-- ===== src/World/Calls.antt =====
-- How the properties of two calls pass to one after the other.
use mock_idp.Common.{ℕ, String, ◌≡◌, refl, ◌∙◌, ap, subst}
use mock_idp.Result
use mock_idp.Result.{Result, ok, err, http, uncaught, Error}
use mock_idp.World.{World, Action, bind, ◌>>=◌}

-- neither the audit log nor the webhooks nor the faults have changed
pub record Same (w w' : World) : Type 0 where
  pub audit : w'.audit ≡ w.audit
  pub posts : w'.posts ≡ w.posts
  pub faults : w'.faults ≡ w.faults

pub Same-refl : (w : World) → Same w w
Same-refl w = record { audit = refl; posts = refl; faults = refl }

pub Same-trans : {u v w : World} → Same u v → Same v w → Same u w
Same-trans s t = record {
  audit = t.audit ∙ s.audit;
  posts = t.posts ∙ s.posts;
  faults = t.faults ∙ s.faults;
}

module _ {A : Type 0} where
  -- however the call ends
  abbrev pub Quiet : Action A → Type 0
  Quiet m = (w : World) → Same w (m w).1

  -- if the call ends in an HTTP error
  abbrev pub QuietOnError : Action A → Type 0
  QuietOnError m =
      (w w' : World) (status : ℕ) (detail : String)
      → m w ≡ (err (http status detail), w')
      → Same w w'

  -- the call does not end in an HTTP error
  abbrev pub NoHttpError : Action A → Type 0
  NoHttpError m =
      (w : World) (status : ℕ) (detail : String) → (m w).0 ≡ err (http status detail) → ⊥

  pub Quiet-QuietOnError : (m : Action A) → Quiet m → QuietOnError m
  Quiet-QuietOnError m q w w' status detail e = subst (λ r. Same w r.1) e (q w)

  pub NoHttpError-QuietOnError : (m : Action A) → NoHttpError m → QuietOnError m
  NoHttpError-QuietOnError m n w w' status detail e =
      absurd (n w status detail (ap (λ (r : Result A × World). r.0) e))

module _ {A B : Type 0} where
  pub bind_ok :
      (r : Result A × World) (f : A → Action B) {b : B} {w' : World}
      → bind r f ≡ (ok b, w')
      → (a : A) × (v : World) × (r ≡ (ok a, v)) × (f a v ≡ (ok b, w'))
  unfolding bind
  bind_ok (ok a, v) f e = (a, v, refl, e)
  bind_ok (err x, v) f e = absurd (cc (ap (λ (t : Result B × World). t.0) e))

  pub lift_ok :
      (r : Result A) (w : World) (f : A → Action B) {b : B} {w' : World}
      → bind (r, w) f ≡ (ok b, w')
      → (a : A) × (r ≡ ok a) × (f a w ≡ (ok b, w'))
  unfolding bind
  lift_ok (ok a) w f e = (a, refl, e)
  lift_ok (err x) w f e = absurd (cc (ap (λ (t : Result B × World). t.0) e))

  -- Two ways to go on are the same if they agree in the state that was reached.
  pub bind_ext :
      (r : Result A × World) (f g : A → Action B)
      → ((a : A) → f a r.1 ≡ g a r.1)
      → bind r f ≡ bind r g
  unfolding bind
  bind_ext (ok a, v) f g h = h a
  bind_ext (err x, v) f g h = refl

  pub bind_pure :
      (r : Result A) (w : World) (f : A → B)
      → bind (r, w) (λ a v. (ok (f a), v)) ≡ (Result.◌>>=◌ r (λ a. ok (f a)), w)
  unfolding bind
  bind_pure (ok a) w f = refl
  bind_pure (err x) w f = refl

  pub bind-Same :
      (w : World) (r : Result A × World) (f : A → Action B)
      → Same w r.1
      → ((a : A) (v : World) → Same v (f a v).1)
      → Same w (bind r f).1
  unfolding bind
  bind-Same w (ok a, v) f s k = Same-trans s (k a v)
  bind-Same w (err x, v) f s k = s

  pub bind-Quiet :
      (m : Action A) (f : A → Action B) → Quiet m → ((a : A) → Quiet (f a)) → Quiet (m >>= f)
  bind-Quiet m f q k w = bind-Same w (m w) f (q w) k

  pub bind-Same_error :
      (w w' : World) (status : ℕ) (detail : String) (r : Result A × World) (f : A → Action B)
      → Same w r.1
      → ((a : A) → QuietOnError (f a))
      → bind r f ≡ (err (http status detail), w')
      → Same w w'
  unfolding bind
  bind-Same_error w w' status detail (ok a, v) f s k e = Same-trans s (k a v w' status detail e)
  bind-Same_error w w' status detail (err x, v) f s k e =
      subst (λ (t : World). Same w t) (ap (λ (t : Result B × World). t.1) e) s

  -- A quiet call before one that is quiet on errors.
  pub bind-QuietOnError :
      (m : Action A) (f : A → Action B)
      → Quiet m
      → ((a : A) → QuietOnError (f a))
      → QuietOnError (m >>= f)
  bind-QuietOnError m f q k w w' status detail e =
      bind-Same_error w w' status detail (m w) f (q w) k e

  pub bind_no_error :
      (status : ℕ) (detail : String) (r : Result A × World) (f : A → Action B)
      → (r.0 ≡ err (http status detail) → ⊥)
      → ((a : A) → NoHttpError (f a))
      → (bind r f).0 ≡ err (http status detail)
      → ⊥
  unfolding bind
  bind_no_error status detail (ok a, v) f n k e = k a v status detail e
  bind_no_error status detail (err x, v) f n k e = n (cc)

  pub bind-NoHttpError :
      (m : Action A) (f : A → Action B)
      → NoHttpError m
      → ((a : A) → NoHttpError (f a))
      → NoHttpError (m >>= f)
  bind-NoHttpError m f n k w status detail e =
      bind_no_error status detail (m w) f (n w status detail) k e

pub bind_pure_map :
    {A B C : Type 0} (r : Result A) (w : World) (f : A → B) (g : B → C)
    → bind (Result.◌>>=◌ r (λ a. ok (f a)), w) (λ b v. (ok (g b), v))
      ≡ (Result.◌>>=◌ r (λ a. ok (g (f a))), w)
unfolding bind
bind_pure_map (ok a) w f g = refl
bind_pure_map (err x) w f g = refl
