-- ===== src/Providers/Common.antt =====
-- The claims that all providers share: `_common`, which stands in each of the provider modules.
use mock_idp.Common.{ℕ, String, Option, none, some, List, [], ◌∷◌, if◌then◌else◌}
use mock_idp.Int.{ℤ, pos, ◌+ℤ◌}
use mock_idp.Text.{or_empty, truthy, join, ◌<>◌}
use mock_idp.Dict.{insert}
use mock_idp.Value.{Value, int, str, null, Claims}
use mock_idp.Config.{Config}

-- The values of `int(time.time())` at the places of one request that read the clock.
pub record Clock : Type 0 where
  -- before the claims are built: the expiry of a presented token
  pub checked : ℕ
  -- `now` of `_common`
  pub built : ℕ
  -- `now` of Cognito's `user_claims`
  pub authenticated : ℕ
  -- the fault mode `expired_token`
  pub corrupted : ℕ
  -- `expires_in` of the response
  pub replied : ℕ

unfoldable pub common : Config → Clock → String → String → ℤ → Claims
unfolding ◌+ℤ◌
common cfg clock issuer aud expires_in =
    ("iss", str (cfg.iss_base <> "/" <> issuer))
    ∷ ("aud", str aud)
    ∷ ("iat", int (pos clock.built))
    ∷ ("nbf", int (pos clock.built))
    ∷ ("exp", int (pos clock.built +ℤ expires_in))
    ∷ []

-- an optional text as a value
abbrev pub str_or_null : Option String → Value
str_or_null none = null
str_or_null (some s) = str s

-- `if client_id: c[k] = client_id`
abbrev pub insert_client : String → Option String → Claims → Claims
insert_client k client_id c = if truthy client_id then insert k (str (or_empty client_id)) c else c

-- `a or b or d`
abbrev pub first_of_texts : Option String → Option String → String → String
first_of_texts a b d = if truthy a then or_empty a else if truthy b then or_empty b else d

-- `" ".join(roles) if roles else d`
abbrev pub spaced : List String → String → String
spaced [] d = d
spaced (r ∷ rs) d = join " " (r ∷ rs)
