-- ===== src/Hosted/Other/Access.antt =====
-- Who may use the routes of an organisation.
use mock_idp.Common.{
  String, true, false, Option, none, some, ◌≡◌, ◌≢◌, ◌↔◌, refl, subst, arith, ◌==◌, eq_iff,
  Bool-cases, inl, inr,
}
use mock_idp.Text.{strip_prefix}
use mock_idp.Dict.{lookup}
use mock_idp.Value.{Claims}
use mock_idp.Result.{ok, err, http}
use mock_idp.World.{World, bind}
use mock_idp.World.Calls.{bind_ok, lift_ok}
use mock_idp.Handler.Context.{Request}
use mock_idp.Handler.Token.Outcome.{is_text-eq, if_ok}
use mock_idp.Hosted.Context.{
  OrgContext, HostedEnv, verify_api_key, get_org, check_org, has_hash, bearer_key, resolve_org,
}
use mock_idp.Hosted.Token.{hosted_token}
use mock_idp.Hosted.Other.{hosted_userinfo}

-- why an organisation lets a request with a header in
pub data LetsIn (sha256_hex : String → String) (org : OrgContext) : Option String → Type 0 where
  open_to_all :
      {authorization : Option String} → org.tier ≡ "sandbox" → LetsIn sha256_hex org authorization
  by_key :
      {authorization : String} (key : String)
      → strip_prefix "Bearer " authorization ≡ some key
      → org.api_key_hash ≡ some (sha256_hex key)
      → LetsIn sha256_hex org (some authorization)

has_hash-LetsIn :
    (sha256_hex : String → String) (org : OrgContext) (authorization : Option String)
    (key : Option String)
    → bearer_key authorization ≡ key
    → has_hash sha256_hex org.api_key_hash key ≡ true
    → LetsIn sha256_hex org authorization
has_hash-LetsIn sha256_hex org none key e h = absurd (cc)
has_hash-LetsIn sha256_hex org (some a) none e h = cc
has_hash-LetsIn sha256_hex org (some a) (some key) e h =
    by_key key e (is_text-eq org.api_key_hash (sha256_hex key) h)

verify_api_key-LetsIn :
    (sha256_hex : String → String) (org : OrgContext) (authorization : Option String)
    → verify_api_key sha256_hex org authorization ≡ true
    → LetsIn sha256_hex org authorization
unfolding verify_api_key
verify_api_key-LetsIn sha256_hex org authorization h = elim (Bool-cases (org.tier == "sandbox")) [
  | inl public ↦ open_to_all ((eq_iff org.tier "sandbox").0 public)
  | inr closed ↦ has_hash-LetsIn sha256_hex org authorization _ refl (rw closed at h)
]

LetsIn-verify_api_key :
    (sha256_hex : String → String) (org : OrgContext) (authorization : Option String)
    → LetsIn sha256_hex org authorization
    → verify_api_key sha256_hex org authorization ≡ true
unfolding verify_api_key
LetsIn-verify_api_key sha256_hex org authorization (open_to_all public) = rw public refl
LetsIn-verify_api_key sha256_hex org _ (by_key key shown same) =
    elim (Bool-cases (org.tier == "sandbox")) [
      | inl public ↦ rw public refl
      | inr closed ↦
          rw closed (rw shown (rw same (ground (arith, eq_iff (sha256_hex key) (sha256_hex key)))))
    ]

-- the organisation of a slug, and it lets the request in
abbrev pub Admits : HostedEnv → String → Option String → OrgContext → Type 0
Admits henv slug authorization org =
    (lookup slug henv.orgs ≡ some org) × LetsIn henv.sha256_hex org authorization

check_org-Admits :
    (henv : HostedEnv) (slug : String) (authorization : Option String) (o : Option OrgContext)
    (org : OrgContext)
    → lookup slug henv.orgs ≡ o
    → check_org henv authorization o ≡ ok org
    → Admits henv slug authorization org
check_org-Admits henv slug authorization none org e h = cc
check_org-Admits henv slug authorization (some found) org e h =
    let (good, same) = if_ok (verify_api_key henv.sha256_hex found authorization) found _ h in
    subst (Admits henv slug authorization) same
      (e, verify_api_key-LetsIn henv.sha256_hex found authorization good)

Admits-get_org :
    (henv : HostedEnv) (slug : String) (authorization : Option String) (org : OrgContext)
    → Admits henv slug authorization org
    → get_org henv slug authorization ≡ ok org
unfolding get_org
Admits-get_org henv slug authorization org (found, lets) =
    rw found (rw (LetsIn-verify_api_key henv.sha256_hex org authorization lets) refl)

-- A slug and a header lead to an organisation exactly if it is registered under the slug and is a
-- sandbox, or the header is "Bearer " with a key whose hash is the organisation's.
pub get_org-ok_iff :
    (henv : HostedEnv) (slug : String) (authorization : Option String) (org : OrgContext)
    → (get_org henv slug authorization ≡ ok org) ↔ Admits henv slug authorization org
unfolding get_org
get_org-ok_iff henv slug authorization org = (
  check_org-Admits henv slug authorization _ org refl,
  Admits-get_org henv slug authorization org,
)

-- The hosted token route gives a token only for an organisation that lets the request in.
hosted_token-Admits :
    (henv : HostedEnv) (slug issuer : String) (authorization : Option String) (request : Request)
    (w w' : World) {reply : Claims}
    → hosted_token henv slug issuer authorization request w ≡ (ok reply, w')
    → (org : OrgContext) × Admits henv slug authorization org
unfolding hosted_token resolve_org
hosted_token-Admits henv slug issuer authorization request w w' h =
    let (found, v, resolved, _) = bind_ok (resolve_org henv slug authorization w) _ h in
    let (org, got, _) = lift_ok (get_org henv slug authorization) w _ resolved in
    (org, (get_org-ok_iff henv slug authorization org).0 got)

-- The user info route of a registered organisation that is no sandbox refuses every request, whatever
-- token it presents, and changes nothing.
pub hosted_userinfo-refused :
    (henv : HostedEnv) (slug issuer : String) (request : Request) (w : World) (org : OrgContext)
    → lookup slug henv.orgs ≡ some org
    → org.tier ≢ "sandbox"
    → hosted_userinfo henv slug issuer request w ≡ (err (http 401 "invalid_api_key"), w)
unfolding hosted_userinfo get_org verify_api_key bind
hosted_userinfo-refused henv slug issuer request w org found closed =
    let other : (org.tier == "sandbox") ≡ false = ground (arith, eq_iff org.tier "sandbox") in
    rw found (rw other refl)
