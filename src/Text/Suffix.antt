-- ===== src/Text/Suffix.antt =====
-- `strip_suffix` and `strip_prefix` take off exactly the given end and the given start.
use Prim.Native.String.{[], ◌∷◌, ◌++◌, count}
use text.Mathlib.TextLemmas.{nil-append, cons-append, length-append, length-cons}
use mock_idp.Common.{
  ◌≡◌, refl, ap, String, Char, some, arith, ◌==◌, eq_iff, eq_refl, eqb_refl, Bool-cases,
  Option-cases, inl, inr, ◌↔◌,
}
use mock_idp.Text.{strip_suffix, strip_prefix, code}

strip_suffix_sound : (end s : String) {t : String} → strip_suffix end s ≡ some t → s ≡ t ++ end
unfolding strip_suffix
strip_suffix_sound end [] {t} h = elim (Bool-cases ([] == end)) [
  | inl same ↦ ground (arith, eq_iff [] end, nil-append end)
  | inr other ↦ absurd (ground arith)
]
strip_suffix_sound end (c ∷ s) {t} h = elim (Bool-cases ((c ∷ s) == end)) [
  | inl same ↦ ground (arith, eq_iff (c ∷ s) end, nil-append end)
  | inr other ↦ elim (Option-cases (strip_suffix end s)) [
    | inl failed ↦ absurd (ground arith)
    | inr (u, found) ↦ ground (arith, strip_suffix_sound end s found, cons-append c u end)
  ]
]

strip_suffix_self : (end : String) → strip_suffix end end ≡ some []
unfolding strip_suffix
strip_suffix_self [] = refl
strip_suffix_self (c ∷ s) = rw (eq_refl (c ∷ s))

longer : (c : Char) (t end : String) → (c ∷ (t ++ end)) ≡ end → ⊥
longer c t end e = omega (arith, ap count e, length-cons c (t ++ end), length-append t end)

pub strip_suffix-append : (end t : String) → strip_suffix end (t ++ end) ≡ some t
unfolding strip_suffix
strip_suffix-append end [] = rw (nil-append end) (strip_suffix_self end)
strip_suffix-append end (c ∷ t) =
    rw (cons-append c t end) (elim (Bool-cases ((c ∷ (t ++ end)) == end)) [
      | inl same ↦ absurd (longer c t end ((eq_iff _ _).0 same))
      | inr other ↦ rw (other, strip_suffix-append end t)
    ])

-- `strip_suffix` succeeds exactly on the texts with the given end, and returns the rest.
pub strip_suffix_iff : (end s t : String) → (strip_suffix end s ≡ some t) ↔ (s ≡ t ++ end)
strip_suffix_iff end s t = (strip_suffix_sound end s, λ e. rw e (strip_suffix-append end t))

pub strip_prefix-append : (start s : String) → strip_prefix start (start ++ s) ≡ some s
unfolding strip_prefix
strip_prefix-append [] s = rw (nil-append s) refl
strip_prefix-append (c ∷ start) s =
    rw (cons-append c start s) (rw (eqb_refl (code c)) (strip_prefix-append start s))
