-- ===== src/Tests/Served.antt =====
-- A run of the flat and the admin routes.
use mock_idp.Common.{some, ◌≡◌, refl, List, [], ◌∷◌}
use mock_idp.Text.{strip, show}
use mock_idp.Dict.{lookup, insert}
use mock_idp.Keys.{
  Key, get, init, new_rsa_key, new_ec_key, alt_key_for_alg, rotate_issuer, rotate_keys,
}
use mock_idp.Result.{ok}
use mock_idp.World.{World, bind}
use mock_idp.Tokens.Signing.{sign}
use mock_idp.Tokens.Signing.Verification.{Reads}
use mock_idp.Handler.Context.{Env, Request, lower_keys, lower_from, flat_context, global_keys}
use mock_idp.Handler.Hooks.{apply_test_hooks}
use mock_idp.Handler.Introspect.{handle_introspect, inactive}
use mock_idp.Handler.Discovery.{handle_jwks}
use mock_idp.Admin.{admin_rotate, require_admin}
use mock_idp.Service.{Call, jwks, rotate, serve, serve_all, serve_all-alt_inactive}
use mock_idp.Tests.Setup.{
  robot, demo_claims, demo_codec, demo_env, demo_context, demo_world, write_all,
}

-- a caller asks about the token with the wrong signature
abbrev asking : Request
asking = record {
  form = ("client_id", "robot") ∷ ("client_secret", "steel") ∷ ("token", "mock-corp-alt") ∷ [];
  headers = [];
}

abbrev plain : Request
plain = record { form = []; headers = [] }

-- the keys are asked for and then rotated
abbrev calls : List (Env × Call)
calls = (demo_env, jwks "corp" plain) ∷ (demo_env, rotate (some "corp") (some "")) ∷ []

abbrev served : World
served = serve_all write_all calls demo_world

abbrev alt_key : Key
alt_key = alt_key_for_alg (get "corp" served.keys).0 "RS256"

alt-Reads : Reads demo_codec demo_claims alt_key
unfolding sign strip get init lookup insert alt_key_for_alg new_rsa_key new_ec_key serve_all serve
    handle_jwks apply_test_hooks lower_keys lower_from flat_context global_keys admin_rotate
    require_admin bind rotate_issuer rotate_keys show
alt-Reads = record {
  compact = refl;
  nonempty = refl;
  known = λ ks h. rw h refl;
  unknown = λ ks h. rw h refl;
}

alt_shown : lookup "token" asking.form ≡ some (sign demo_codec demo_claims alt_key)
unfolding sign get init lookup insert alt_key_for_alg new_rsa_key new_ec_key serve_all serve
    handle_jwks apply_test_hooks lower_keys lower_from flat_context global_keys admin_rotate
    require_admin bind rotate_issuer rotate_keys show
alt_shown = refl

serve_all-alt_inactive_example :
    (handle_introspect demo_env demo_context "corp" asking served).0 ≡ ok inactive
unfolding lookup
serve_all-alt_inactive_example =
    serve_all-alt_inactive write_all calls demo_world refl demo_env "corp" demo_claims "RS256"
      asking (robot, refl, refl) alt-Reads alt_shown
