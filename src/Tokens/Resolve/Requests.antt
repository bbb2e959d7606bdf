-- ===== src/Tokens/Resolve/Requests.antt =====
-- Which audience, lifetime and shape a request asks for.
use text.Mathlib.TextLemmas.{cons-ne-nil, append-ne-nil_of_right_ne-nil}
use Prim.Native.String.{[], ◌∷◌, ◌++◌}
use mock_idp.Common.{
  ℕ, String, true, false, Option, none, some, ◌≡◌, ◌≢◌, refl, ◌∙◌, ap, subst, ◌↔◌, ◌⊎◌, inl, inr,
  arith, eq_iff, Option-cases, if◌then◌else◌, [], ◌∷◌,
}
use mock_idp.Int.{ℤ, pos}
use mock_idp.Text.{is_empty, or_empty, truthy, show, strip_suffix}
use mock_idp.Text.Suffix.{strip_suffix_iff}
use mock_idp.Text.Decimal.ReadBack.{parse_int-show}
use mock_idp.Dict.{Dict, lookup}
use mock_idp.Tokens.Resolve.{
  shape_header, shape_by_client, resolve_shape, scope_aud, resolve_aud, override_expiry,
  resolve_expiry,
}

-- the field is absent or empty
abbrev pub Blank : Option String → Type 0
Blank field = or_empty field ≡ ""

-- which audience a form asks for
pub data AsksFor (form : Dict String) : String → Type 0 where
  by_resource : {aud : String} → lookup "resource" form ≡ some aud → aud ≢ "" → AsksFor form aud
  by_default_scope :
      {aud : String}
      → Blank (lookup "resource" form)
      → lookup "scope" form ≡ some (aud ++ "/.default")
      → AsksFor form aud
  by_scope :
      {aud : String}
      → Blank (lookup "resource" form)
      → lookup "scope" form ≡ some aud
      → aud ≢ ""
      → ((base : String) → aud ≢ base ++ "/.default")
      → AsksFor form aud
  by_default :
      {aud : String}
      → Blank (lookup "resource" form)
      → Blank (lookup "scope" form)
      → aud ≡ "api://default"
      → AsksFor form aud

scope_asks :
    (form : Dict String) (scope : Option String)
    → Blank (lookup "resource" form)
    → lookup "scope" form ≡ scope
    → AsksFor form (scope_aud (or_empty scope))
scope_asks form none b e = by_default b (rw e) refl
scope_asks form (some []) b e = by_default b (rw e) refl
scope_asks form (some (c ∷ s)) b e = elim (Option-cases (strip_suffix "/.default" (c ∷ s))) [
  | inl other ↦
      rw other (by_scope b e (cons-ne-nil c s) (λ base h. cc ((strip_suffix_iff _ _ base).1 h)))
  | inr (base, found) ↦
      rw found (by_default_scope b (e ∙ ap some ((strip_suffix_iff _ _ base).0 found)))
]

resource_asks :
    (form : Dict String) (resource : Option String)
    → lookup "resource" form ≡ resource
    → AsksFor form
        (if truthy resource then or_empty resource else scope_aud (or_empty (lookup "scope" form)))
resource_asks form none e = scope_asks form (lookup "scope" form) (rw e) refl
resource_asks form (some []) e = scope_asks form (lookup "scope" form) (rw e) refl
resource_asks form (some (c ∷ s)) e = by_resource e (cons-ne-nil c s)

Blank-truthy : (o : Option String) → Blank o → truthy o ≡ false
Blank-truthy none b = refl
Blank-truthy (some []) b = refl
Blank-truthy (some (c ∷ s)) b = absurd (cons-ne-nil c s b)

full-truthy : (s : String) → s ≢ "" → truthy (some s) ≡ true
full-truthy [] h = absurd (h refl)
full-truthy (c ∷ s) h = refl

full-is_empty : (s : String) → s ≢ "" → is_empty s ≡ false
full-is_empty [] h = absurd (h refl)
full-is_empty (c ∷ s) h = refl

default_scope-ne-nil : (base : String) → base ++ "/.default" ≢ ""
default_scope-ne-nil base = append-ne-nil_of_right_ne-nil base (cons-ne-nil _ _)

no_default_scope :
    (s : String) → ((base : String) → s ≢ base ++ "/.default") → strip_suffix "/.default" s ≡ none
no_default_scope s h = elim (Option-cases (strip_suffix "/.default" s)) [
  | inl failed ↦ failed
  | inr (base, found) ↦ absurd (h base ((strip_suffix_iff _ _ base).0 found))
]

scope_of_asks : {form : Dict String} {aud : String} → AsksFor form aud → resolve_aud form ≡ aud
unfolding resolve_aud
scope_of_asks (by_resource {aud} found ne) = rw (found, full-truthy aud ne)
scope_of_asks {form} (by_default_scope {aud} b found) = rw (
  Blank-truthy (lookup "resource" form) b,
  found,
  full-is_empty _ (default_scope-ne-nil aud),
  (strip_suffix_iff "/.default" _ aud).1 refl,
)
scope_of_asks {form} (by_scope {aud} b found ne bare) =
    rw
      (
        Blank-truthy (lookup "resource" form) b,
        found,
        full-is_empty aud ne,
        no_default_scope aud bare,
      )
      (ap or_empty found)
scope_of_asks {form} (by_default b b' e) = rw (Blank-truthy (lookup "resource" form) b, b', e)

resolve_aud-asks : (form : Dict String) → AsksFor form (resolve_aud form)
unfolding resolve_aud
resolve_aud-asks form = resource_asks form (lookup "resource" form) refl

-- The audience is the resource if that is given, else the scope without its end "/.default", else
-- the whole scope, else api://default: a form asks for exactly the audience that is resolved.
resolve_aud_iff : (form : Dict String) (aud : String) → (resolve_aud form ≡ aud) ↔ AsksFor form aud
resolve_aud_iff form aud =
    (λ e. subst (λ a. AsksFor form a) e (resolve_aud-asks form), scope_of_asks)

-- A positive lifetime in X-Test-Expires-In, printed as Python prints it, is the token's lifetime,
-- whatever the identity's default, unless X-Test-Expired is there too.
pub resolve_expiry-show :
    (default : ℤ) (headers : Dict String) (n : ℕ)
    → Blank (lookup "x-test-expired" headers)
    → lookup "x-test-expires-in" headers ≡ some (show n)
    → resolve_expiry default headers ≡ pos n
unfolding resolve_expiry
resolve_expiry-show default headers n blank e =
    rw (Blank-truthy (lookup "x-test-expired" headers) blank, e, parse_int-show n, override_expiry)

-- the two shapes
abbrev pub IsShape : String → Type 0
IsShape s = (s ≡ "v1") ⊎ (s ≡ "v2")

shape_by_client-IsShape :
    (default cid : String) → IsShape default → IsShape (shape_by_client default cid)
shape_by_client-IsShape default cid h = ground arith

shape_header_cases :
    (header : Option String)
    → (shape_header header ≡ none)
      ⊎ (shape_header header ≡ some "v1")
      ⊎ (shape_header header ≡ some "v2")
shape_header_cases none = inl refl
shape_header_cases (some s) = ground (arith, eq_iff s "v1", eq_iff s "v2")

-- If the identity's own token version is v1 or v2, so is the shape, whatever the request says.
resolve_shape-IsShape :
    (default : String) (form : Dict String) (header : Option String)
    → IsShape default
    → IsShape (resolve_shape default form header)
unfolding resolve_shape
resolve_shape-IsShape default form header h = elim (shape_header_cases header) [
  | inl absent ↦
      rw (absent, resolve_shape)
        (shape_by_client-IsShape default (or_empty (lookup "client_id" form)) h)
  | inr (inl v1) ↦ rw (v1, resolve_shape) (inl refl)
  | inr (inr v2) ↦ rw (v2, resolve_shape) (inr refl)
]
