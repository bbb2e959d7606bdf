-- ===== src/Hosted/Sandbox/Limit.antt =====
-- The sandbox answers at most ten requests of an address in a minute.
use mock_idp.Common.{
  ℕ, ◌+◌, ◌≤◌, String, Bool, ◌≡◌, ◌≢◌, refl, sym, ap, ◌∙◌, List, [], ◌∷◌, ◌++◌, arith, leb, or_else,
  keep, length, Bool-cases, inl, inr, eq_refl, eq_false_of_ne,
}
use mock_idp.Dict.{Dict, lookup, lookup-insert}
use mock_idp.Result.{Result, ok, err}
use mock_idp.Hosted.Sandbox.{is_recent, recent_hits, sandbox_rate_check}

-- the times of the accepted requests after one more
abbrev pub accepted : Result (Unit {0}) → ℕ → List ℕ → List ℕ
accepted (ok _) now acc = acc ++ now ∷ []
accepted (err _) now acc = acc

-- What can happen to the sandbox, as the address `ip` sees it: its last request, the times of its
-- accepted requests, and the state. The clock does not go back between its requests.
pub data Trace (ip : String) : ℕ → List ℕ → Dict (List ℕ) → Type 0 where
  start : Trace ip 0 [] []
  ask :
      {last : ℕ} {acc : List ℕ} {state : Dict (List ℕ)} (now : ℕ)
      → Trace ip last acc state
      → last ≤ now
      → Trace ip now
          (accepted (sandbox_rate_check ip now state).0 now acc)
          (sandbox_rate_check ip now state).1
  other :
      {last : ℕ} {acc : List ℕ} {state : Dict (List ℕ)} (address : String) (now : ℕ)
      → Trace ip last acc state
      → address ≢ ip
      → Trace ip last acc (sandbox_rate_check address now state).1

keep-append : (p : ℕ → Bool) (xs ys : List ℕ) → keep p (xs ++ ys) ≡ keep p xs ++ keep p ys
keep-append p [] ys = refl
keep-append p (x ∷ xs) ys = ground (arith, keep-append p xs ys)

keep_later :
    (now later : ℕ) (xs : List ℕ)
    → now ≤ later
    → keep (is_recent later) (keep (is_recent now) xs) ≡ keep (is_recent later) xs
keep_later now later [] h = refl
keep_later now later (x ∷ xs) h = ground (arith, keep_later now later xs h)

length_later :
    (now later : ℕ) (xs : List ℕ)
    → now ≤ later
    → length (keep (is_recent later) xs) ≤ length (keep (is_recent now) xs)
length_later now later [] h = ground arith
length_later now later (x ∷ xs) h = ground (arith, length_later now later xs h)

length_more :
    (now : ℕ) (xs : List ℕ)
    → length (keep (is_recent now) (xs ++ now ∷ [])) ≤ length (keep (is_recent now) xs) + 1
length_more now [] = ground arith
length_more now (x ∷ xs) = ground (arith, length_more now xs)

-- The state holds every accepted request that still counts, and they are ten at most.
record Holds (ip : String) (last : ℕ) (acc : List ℕ) (state : Dict (List ℕ)) : Type 0 where
  kept : (now : ℕ) → last ≤ now → recent_hits now ip state ≡ keep (is_recent now) acc
  few : length (keep (is_recent last) acc) ≤ 10

ask-Holds :
    (ip : String) (last now : ℕ) (acc : List ℕ) (state : Dict (List ℕ))
    → Holds ip last acc state
    → last ≤ now
    → Holds ip now
        (accepted (sandbox_rate_check ip now state).0 now acc)
        (sandbox_rate_check ip now state).1
unfolding sandbox_rate_check
ask-Holds ip last now acc state h le =
    elim (Bool-cases (leb 10 (length (recent_hits now ip state)))) [
      | inl full ↦ rw full (record {
        kept = λ later le2. h.kept later (omega (arith, le, le2));
        few = omega (arith, length_later last now acc le, h.few);
      })
      | inr free ↦ rw free (record {
        kept = λ later le2.
            rw (lookup-insert ip ip (recent_hits now ip state ++ now ∷ []) state, eq_refl ip)
              (keep-append (is_recent later) (recent_hits now ip state) (now ∷ [])
                ∙ ap (λ t. t ++ keep (is_recent later) (now ∷ []))
                    (keep_later now later (or_else (lookup ip state) []) le2
                      ∙ h.kept later (omega (arith, le, le2)))
                ∙ sym (keep-append (is_recent later) acc (now ∷ [])));
        few = ground (arith, length_more now acc, ap length (h.kept now le));
      })
    ]

other-Holds :
    (ip address : String) (last now : ℕ) (acc : List ℕ) (state : Dict (List ℕ))
    → Holds ip last acc state
    → address ≢ ip
    → Holds ip last acc (sandbox_rate_check address now state).1
unfolding sandbox_rate_check
other-Holds ip address last now acc state h ne =
    elim (Bool-cases (leb 10 (length (recent_hits now address state)))) [
      | inl full ↦ rw full h
      | inr free ↦ rw free (record {
        kept = λ later le.
            rw
              (
                lookup-insert address ip (recent_hits now address state ++ now ∷ []) state,
                eq_false_of_ne address ip ne,
              )
              (h.kept later le);
        few = h.few;
      })
    ]

Trace-Holds :
    {ip : String} {last : ℕ} {acc : List ℕ} {state : Dict (List ℕ)}
    → Trace ip last acc state
    → Holds ip last acc state
unfolding lookup
Trace-Holds start = record { kept = λ now le. refl; few = ground arith }
Trace-Holds {ip} (ask {last} {acc} {state} now t le) =
    ask-Holds ip last now acc state (Trace-Holds t) le
Trace-Holds {ip} (other {last} {acc} {state} address now t ne) =
    other-Holds ip address last now acc state (Trace-Holds t) ne

-- Whatever requests the sandbox has had, of those of one address that it accepted at most ten are less
-- than 60 s old at the address's last request, and the state holds exactly these for the address, as
-- long as the clock does not go back between the address's requests.
pub sandbox_rate_check-limit :
    {ip : String} {last : ℕ} {acc : List ℕ} {state : Dict (List ℕ)}
    → Trace ip last acc state
    → (length (keep (is_recent last) acc) ≤ 10)
      × (recent_hits last ip state ≡ keep (is_recent last) acc)
sandbox_rate_check-limit {last} t = ((Trace-Holds t).few, (Trace-Holds t).kept last (omega arith))
