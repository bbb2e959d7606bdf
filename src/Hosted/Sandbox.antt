-- ===== src/Hosted/Sandbox.antt =====
-- src/mock_idp/routers/hosted.py: `_sandbox_rate_check`. A time is a number of units of 2⁻²² s, the
-- distance of two floats of today's size, so that the differences of the source are exact.
pub mod Limit
use mock_idp.Common.{
  ℕ, ◌+◌, ◌*◌, String, Bool, true, false, Option, none, some, List, [], ◌∷◌, ◌++◌, if◌then◌else◌,
  ltb, leb, or_else, keep, length,
}
use mock_idp.Dict.{Dict, lookup, insert}
use mock_idp.Result.{Result, ok, err, http}

-- `_SANDBOX_RATE_WINDOW`, 60 s
abbrev pub sandbox_rate_window : ℕ
sandbox_rate_window = 60 * 4194304

-- `_SANDBOX_RATE_LIMIT`
abbrev pub sandbox_rate_limit : ℕ
sandbox_rate_limit = 10

-- `now - t < _SANDBOX_RATE_WINDOW`
abbrev pub is_recent : ℕ → ℕ → Bool
is_recent now t = ltb now (t + sandbox_rate_window)

-- the requests of an address that still count
abbrev pub recent_hits : ℕ → String → Dict (List ℕ) → List ℕ
recent_hits now ip all_hits = keep (is_recent now) (or_else (lookup ip all_hits) [])

unfoldable pub sandbox_rate_check : String → ℕ → Dict (List ℕ) → Result (Unit {0}) × Dict (List ℕ)
sandbox_rate_check ip now all_hits =
    let recent = recent_hits now ip all_hits in
    if leb sandbox_rate_limit (length recent)
    then (err (http 429 "rate_limit_exceeded"), all_hits)
    else (ok tt, insert ip (recent ++ now ∷ []) all_hits)
