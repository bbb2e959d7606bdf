-- ===== src/Keys/Kids.antt =====
-- The naming scheme of the key ids of one issuer, and what it keeps apart.
use Prim.Native.String.{[], ◌∷◌}
use text.Mathlib.TextLemmas.{append_cancel_left}
use mock_idp.Common.{
  ℕ, ◌+◌, ◌≤◌, String, false, ◌≡◌, ◌≢◌, refl, sym, ◌∙◌, subst, List, [], ◌∷◌, ◌==◌, map, arith,
  elem, Bool-cases, inl, inr, code, eq_false_of_ne, ne_of_eq_false,
}
use mock_idp.Text.{show, ◌<>◌}
use mock_idp.Text.Decimal.{StartsWithDigit, show-StartsWithDigit, show_injective}
use mock_idp.Keys.{Key, key_kid, IssuerKeys, prefix, init, jwks_keys, rotate_keys, alt_key_for_alg}

-- the `kid` of the signing key with number `n`
abbrev pub numbered : String → ℕ → String
numbered issuer n = prefix issuer <> "-" <> show n

-- Every key of an issuer has the id that its role prescribes.
pub record IsNamed (ik : IssuerKeys) : Type 0 where
  pub signing_kid : ik.signing.kid ≡ numbered ik.issuer ik.seq
  pub alt_kid : ik.alt.kid ≡ prefix ik.issuer <> "-alt"
  pub decoy_kids :
      map key_kid ik.decoys ≡ (prefix ik.issuer <> "-d1") ∷ (prefix ik.issuer <> "-d2") ∷ []
  pub ec_signing_kid : ik.ec_signing.kid ≡ prefix ik.issuer <> "-ec-1"
  pub ec_alt_kid : ik.ec_alt.kid ≡ prefix ik.issuer <> "-ec-alt"

pub init-IsNamed : (issuer : String) (made : ℕ) → IsNamed (init issuer made)
unfolding init show
init-IsNamed issuer made = record {
  signing_kid = refl;
  alt_kid = refl;
  decoy_kids = refl;
  ec_signing_kid = refl;
  ec_alt_kid = refl;
}

pub rotate_keys-IsNamed : {ik : IssuerKeys} (made : ℕ) → IsNamed ik → IsNamed (rotate_keys ik made)
unfolding rotate_keys
rotate_keys-IsNamed made h = record {
  signing_kid = refl;
  alt_kid = h.alt_kid;
  decoy_kids = h.decoy_kids;
  ec_signing_kid = h.ec_signing_kid;
  ec_alt_kid = h.ec_alt_kid;
}

-- A number is not printed like a text that begins with a letter.
abbrev pub StartsWithLetter : String → Type 0
StartsWithLetter [] = ⊥
StartsWithLetter (c ∷ _) = 97 ≤ code c

digit-ne-letter : (s t : String) → StartsWithDigit s → StartsWithLetter t → s ≢ t
digit-ne-letter s [] h k e = k
digit-ne-letter [] (c ∷ t) h k e = h
digit-ne-letter (d ∷ s) (c ∷ t) h k e =
    let both : StartsWithDigit (c ∷ t) = subst StartsWithDigit e h in omega arith

pub numbered-ne-named :
    (issuer : String) (n : ℕ) (name : String)
    → StartsWithLetter name
    → numbered issuer n ≢ prefix issuer <> "-" <> name
numbered-ne-named issuer n name letter e =
    digit-ne-letter (show n) name (show-StartsWithDigit n) letter (
      append_cancel_left "-" (show n) name
        (append_cancel_left (prefix issuer) ("-" <> show n) ("-" <> name) e))

pub numbered_injective : (issuer : String) (m n : ℕ) → numbered issuer m ≡ numbered issuer n → m ≡ n
numbered_injective issuer m n e = show_injective m n (
    append_cancel_left "-" (show m) (show n)
      (append_cancel_left (prefix issuer) ("-" <> show m) ("-" <> show n) e))

named-ne : (issuer a b : String) → a ≢ b → prefix issuer <> a ≢ prefix issuer <> b
named-ne issuer a b ne e = ne (append_cancel_left (prefix issuer) a b e)

abbrev pub kids : List Key → List String
kids ks = map key_kid ks

published_kids :
    (ik : IssuerKeys)
    → IsNamed ik
    → kids (jwks_keys ik)
      ≡ numbered ik.issuer ik.seq
        ∷ (prefix ik.issuer <> "-ec-1")
        ∷ (prefix ik.issuer <> "-d1")
        ∷ (prefix ik.issuer <> "-d2")
        ∷ []
unfolding jwks_keys
published_kids ik h = rw (h.signing_kid, h.ec_signing_kid, h.decoy_kids)

unpublished :
    (ik : IssuerKeys) (kid : String)
    → IsNamed ik
    → kid ≢ numbered ik.issuer ik.seq
    → kid ≢ prefix ik.issuer <> "-ec-1"
    → kid ≢ prefix ik.issuer <> "-d1"
    → kid ≢ prefix ik.issuer <> "-d2"
    → elem kid (kids (jwks_keys ik)) ≡ false
unpublished ik kid h a b c d = rw (
  published_kids ik h,
  eq_false_of_ne kid _ a,
  eq_false_of_ne kid _ b,
  eq_false_of_ne kid _ c,
  eq_false_of_ne kid _ d,
)

-- a key id that is named by a word that no published key has
named-unpublished :
    (ik : IssuerKeys) (name kid : String)
    → IsNamed ik
    → kid ≡ prefix ik.issuer <> "-" <> name
    → StartsWithLetter name
    → ("-" <> name) ≢ "-ec-1"
    → ("-" <> name) ≢ "-d1"
    → ("-" <> name) ≢ "-d2"
    → elem kid (kids (jwks_keys ik)) ≡ false
named-unpublished ik name kid h e letter b c d =
    unpublished ik kid h (λ k. numbered-ne-named ik.issuer ik.seq name letter (sym k ∙ e))
      (λ k. named-ne ik.issuer _ _ b (sym e ∙ k)) (λ k. named-ne ik.issuer _ _ c (sym e ∙ k))
      (λ k. named-ne ik.issuer _ _ d (sym e ∙ k))

-- Whatever the algorithm, the alternative key of an issuer has a key id that its JWKS does not
-- publish, as long as the keys follow the naming scheme.
pub alt_key-unpublished :
    (ik : IssuerKeys) (alg : String)
    → IsNamed ik
    → elem (alt_key_for_alg ik alg).kid (kids (jwks_keys ik)) ≡ false
unfolding alt_key_for_alg
alt_key-unpublished ik alg h = elim (Bool-cases (alg == "ES256")) [
  | inl is_ec ↦ rw is_ec (
      named-unpublished ik "ec-alt" ik.ec_alt.kid h h.ec_alt_kid (omega arith)
        (ne_of_eq_false _ _ refl) (ne_of_eq_false _ _ refl) (ne_of_eq_false _ _ refl))
  | inr other ↦ rw other (
      named-unpublished ik "alt" ik.alt.kid h h.alt_kid (omega arith) (ne_of_eq_false _ _ refl)
        (ne_of_eq_false _ _ refl) (ne_of_eq_false _ _ refl))
]

named-numbered :
    (issuer name : String) (n : ℕ)
    → StartsWithLetter name
    → numbered issuer n ≢ prefix issuer <> ("-" <> name)
named-numbered issuer name n letter = numbered-ne-named issuer n name letter

-- a number that is not the present one
numbered-unpublished :
    (ik : IssuerKeys) (n : ℕ)
    → IsNamed ik
    → n ≢ ik.seq
    → elem (numbered ik.issuer n) (kids (jwks_keys ik)) ≡ false
numbered-unpublished ik n h ne =
    unpublished ik (numbered ik.issuer n) h (λ e. ne (numbered_injective ik.issuer n ik.seq e))
      (named-numbered ik.issuer "ec-1" n (omega arith))
      (named-numbered ik.issuer "d1" n (omega arith))
      (named-numbered ik.issuer "d2" n (omega arith))

pub rotated_out :
    (ik : IssuerKeys) (made : ℕ)
    → IsNamed ik
    → elem ik.signing.kid (kids (jwks_keys (rotate_keys ik made))) ≡ false
unfolding rotate_keys
rotated_out ik made h =
    subst (λ k. elem k (kids (jwks_keys (rotate_keys ik made))) ≡ false) (sym h.signing_kid)
      (numbered-unpublished (rotate_keys ik made) ik.seq (rotate_keys-IsNamed made h)
        (λ e. absurd (omega arith)))

-- Rotation gives the signing key an id that was not published before, no longer publishes the old
-- id, and leaves the other keys, which stay published, as they are.
rotate_keys-kids :
    (ik : IssuerKeys) (made : ℕ)
    → IsNamed ik
    → (elem (rotate_keys ik made).signing.kid (kids (jwks_keys ik)) ≡ false)
      × (elem ik.signing.kid (kids (jwks_keys (rotate_keys ik made))) ≡ false)
      × (jwks_keys (rotate_keys ik made)
          ≡ (rotate_keys ik made).signing ∷ ik.ec_signing ∷ ik.decoys)
unfolding rotate_keys jwks_keys
rotate_keys-kids ik made h = (
  numbered-unpublished ik (ik.seq + 1) h (λ e. absurd (omega arith)),
  rotated_out ik made h,
  refl,
)
