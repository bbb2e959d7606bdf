-- ===== src/Tokens/Signing/Verification.antt =====
-- What the program relies on in the JWT library, and what follows for the tokens of an issuer.
use mock_idp.Common.{
  ℕ, String, false, Option, none, some, ◌≡◌, refl, sym, ◌∙◌, List, [], ◌∷◌, ◌==◌, eq_iff, eq_refl,
  if◌then◌else◌, elem, arith, Bool-cases, inl, inr, eq_false_of_ne,
}
use mock_idp.Text.{is_empty, strip}
use mock_idp.Value.{Claims}
use mock_idp.Keys.{Key, IssuerKeys, jwks_keys, rotate_keys, signing_key_for_alg, alt_key_for_alg}
use mock_idp.Keys.Kids.{IsNamed, kids, numbered-ne-named, alt_key-unpublished, rotated_out}
use mock_idp.Tokens.Signing.{Codec, sign, verify_token}

-- the key that a key set gives for an id
abbrev pub find_key : String → List Key → Option Key
find_key kid [] = none
find_key kid (k ∷ ks) = if k.kid == kid then some k else find_key kid ks

-- The library's contract for a token of one key with given claims: it is written without blanks,
-- and it is read back by a key set that has this very key under its id, and by none that has no key
-- under its id.
pub record Reads (codec : Codec) (claims : Claims) (k : Key) : Type 0 where
  pub compact : strip (sign codec claims k) ≡ sign codec claims k
  pub nonempty : is_empty (sign codec claims k) ≡ false
  pub known :
      (ks : List Key)
      → find_key k.kid ks ≡ some k
      → codec.decode (sign codec claims k) ks ≡ some claims
  pub unknown :
      (ks : List Key) → find_key k.kid ks ≡ none → codec.decode (sign codec claims k) ks ≡ none

find_key_absent :
    (kid : String) (ks : List Key) → elem kid (kids ks) ≡ false → find_key kid ks ≡ none
find_key_absent kid [] h = refl
find_key_absent kid (k ∷ ks) h =
    ground (arith, find_key_absent kid ks, eq_iff kid k.kid, eq_iff k.kid kid)

-- The published keys hold each signing key under its id.
find_key_signing :
    (ik : IssuerKeys) (alg : String)
    → IsNamed ik
    → let k = signing_key_for_alg ik alg in find_key k.kid (jwks_keys ik) ≡ some k
unfolding signing_key_for_alg jwks_keys
find_key_signing ik alg h = elim (Bool-cases (alg == "ES256")) [
  | inl is_ec ↦ rw is_ec (
      let apart : (ik.signing.kid == ik.ec_signing.kid) ≡ false = eq_false_of_ne _ _ (λ e.
        numbered-ne-named ik.issuer ik.seq "ec-1" (omega arith)
          (sym h.signing_kid ∙ e ∙ h.ec_signing_kid)) in
      ground (arith, eq_refl ik.ec_signing.kid))
  | inr other ↦ rw other (ground (arith, eq_refl ik.signing.kid))
]

module _ (codec : Codec) (claims : Claims) (ik : IssuerKeys) (alg : String)
    (named : IsNamed ik) where
  -- A token that is signed with an issuer's signing key is verified by the issuer's JWKS, for both
  -- algorithms, and gives the claims back.
  pub verify_token-signed :
      Reads codec claims (signing_key_for_alg ik alg)
      → verify_token codec (sign codec claims (signing_key_for_alg ik alg)) (jwks_keys ik)
        ≡ some claims
  unfolding verify_token
  verify_token-signed reads =
      rw reads.nonempty (reads.known (jwks_keys ik) (find_key_signing ik alg named))

  -- A token that is signed with the alternative key is refused by the issuer's JWKS.
  pub verify_token-alt :
      Reads codec claims (alt_key_for_alg ik alg)
      → verify_token codec (sign codec claims (alt_key_for_alg ik alg)) (jwks_keys ik) ≡ none
  unfolding verify_token
  verify_token-alt reads = rw reads.nonempty (
      reads.unknown (jwks_keys ik) (
        find_key_absent (alt_key_for_alg ik alg).kid (jwks_keys ik)
          (alt_key-unpublished ik alg named)))

-- After a rotation the tokens that were signed with the old RSA key are refused.
pub verify_token-rotated :
    (codec : Codec) (claims : Claims) (ik : IssuerKeys) (made : ℕ)
    → IsNamed ik
    → Reads codec claims ik.signing
    → verify_token codec (sign codec claims ik.signing) (jwks_keys (rotate_keys ik made)) ≡ none
unfolding verify_token
verify_token-rotated codec claims ik made named reads = rw reads.nonempty (
    reads.unknown (jwks_keys (rotate_keys ik made)) (
      find_key_absent ik.signing.kid (jwks_keys (rotate_keys ik made)) (rotated_out ik made named)))
