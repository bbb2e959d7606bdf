-- ===== src/Tokens/Resolve.antt =====
-- src/mock_idp/tokens.py: token shape, audience and lifetime from the form and the headers.
pub mod Requests
use mock_idp.Common.{
  ℕ, zero, String, Bool, true, false, Option, none, some, List, [], ◌∷◌, ◌==◌, ◌||◌, if◌then◌else◌,
  elem, ◌≡◌, refl,
}
use mock_idp.Int.{ℤ, pos, negate}
use mock_idp.Text.{is_empty, or_empty, truthy, strip_suffix, parse_int}
use mock_idp.Dict.{Dict, lookup}
use mock_idp.Models.{ClientAppRecord}
use mock_idp.Config.{Config}

-- `s.endswith(suffix)`
abbrev pub ends_with : String → String → Bool
ends_with s suffix = elim (strip_suffix suffix s) [ none ↦ false | some _ ↦ true ]

-- a header that is one of the two shapes
abbrev shape_header : Option String → Option String
shape_header none = none
shape_header (some s) = if elem s ("v1" ∷ "v2" ∷ []) then some s else none

-- the shape by the suffix of `client_id`, else the identity's
abbrev shape_by_client : String → String → String
shape_by_client default cid =
    if ends_with cid "-v1"
    then "v1"
    else if ends_with cid "-v2"
    then "v2"
    else if is_empty default
    then "v2"
    else default

unfoldable pub resolve_shape : String → Dict String → Option String → String
unfolding lookup strip_suffix
resolve_shape default form header_shape = elim (shape_header header_shape) [
  | some s ↦ s
  | none ↦ shape_by_client default (or_empty (lookup "client_id" form))
]

-- the audience that a scope names
abbrev scope_aud : String → String
scope_aud scope =
    if is_empty scope
    then "api://default"
    else elim (strip_suffix "/.default" scope) [ none ↦ scope | some base ↦ base ]

unfoldable pub resolve_aud : Dict String → String
unfolding lookup strip_suffix
resolve_aud form =
    let resource = lookup "resource" form in
    if truthy resource then or_empty resource else scope_aud (or_empty (lookup "scope" form))

-- `app.app_id` if that is set, else `aud`
abbrev app_aud : String → Option ClientAppRecord → String
app_aud aud none = aud
app_aud aud (some app) = if truthy app.app_id then or_empty app.app_id else aud

unfoldable pub resolve_user_aud : Config → String → String
unfolding lookup
resolve_user_aud cfg aud = app_aud aud (lookup aud cfg.client_apps)

-- `default or 3600`
abbrev or_hour : ℤ → ℤ
or_hour (pos zero) = pos 3600
or_hour z = z

abbrev override_expiry : ℤ → Option String → ℤ
override_expiry default none = or_hour default
override_expiry default (some s) = elim (parse_int s) [ none ↦ or_hour default | some n ↦ n ]

unfoldable pub resolve_expiry : ℤ → Dict String → ℤ
unfolding lookup parse_int
resolve_expiry default headers =
    if truthy (lookup "x-test-expired" headers)
    then negate 60
    else override_expiry default (lookup "x-test-expires-in" headers)
