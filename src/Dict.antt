-- ===== src/Dict.antt =====
-- A Python dict keyed by texts, in insertion order.
use mock_idp.Common.{
  String, ◌≡◌, refl, Bool, true, false, Option, none, some, List, [], ◌∷◌, arith, ◌==◌, eq_iff, sym,
  ap, ◌∙◌, ◌++◌, Bool-cases, inl, inr, if◌then◌else◌,
}

abbrev pub Dict {ℓ} : Type ℓ → Type ℓ
Dict V = List (String × V)

module _ {ℓ} {V : Type ℓ} where
  -- `d.get(k)`
  unfoldable pub lookup : String → Dict V → Option V
  lookup k [] = none
  lookup k ((j, v) ∷ d) = if j == k then some v else lookup k d

  -- `k in d`
  abbrev pub contains : String → Dict V → Bool
  contains k d = elim (lookup k d) [ none ↦ false | some _ ↦ true ]

  -- `d[k] = v`
  unfoldable pub insert : String → V → Dict V → Dict V
  insert k v [] = (k, v) ∷ []
  insert k v ((j, w) ∷ d) = if j == k then (j, v) ∷ d else (j, w) ∷ insert k v d

  -- `d.pop(k, None)`: the keys of a dict are distinct, so that every entry of `k` is the one
  unfoldable pub erase : String → Dict V → Dict V
  erase k [] = []
  erase k ((j, w) ∷ d) = if j == k then erase k d else (j, w) ∷ erase k d

  -- `d.update(e)`
  unfoldable pub update : Dict V → Dict V → Dict V
  update d [] = d
  update d ((k, v) ∷ e) = update (insert k v d) e

  pub lookup-insert :
      (k j : String) (v : V) (d : Dict V)
      → lookup j (insert k v d) ≡ (if k == j then some v else lookup j d)
  unfolding lookup insert
  lookup-insert k j v [] = refl
  lookup-insert k j v ((i, w) ∷ d) =
      ground (arith, eq_iff k j, eq_iff i k, eq_iff i j, lookup-insert k j v d)

  pub lookup-erase :
      (k j : String) (d : Dict V) → lookup j (erase k d) ≡ (if k == j then none else lookup j d)
  unfolding lookup erase
  lookup-erase k j [] = ground arith
  lookup-erase k j ((i, w) ∷ d) =
      ground (arith, eq_iff k j, eq_iff i k, eq_iff i j, lookup-erase k j d)

  -- the last value that a dict gives a key
  abbrev pub lookup_last : String → Dict V → Option V
  lookup_last k [] = none
  lookup_last k ((j, v) ∷ d) = elim (lookup_last k d) [
    | none ↦ if j == k then some v else none
    | some w ↦ some w
  ]

  pub contains_of_lookup :
      (k : String) (d : Dict V) {v : V} → lookup k d ≡ some v → contains k d ≡ true
  contains_of_lookup k d h = rw (h, contains)

  pub lookup_of_contains :
      (k : String) (d : Dict V) → contains k d ≡ true → (v : V) × (lookup k d ≡ some v)
  lookup_of_contains k d h = ground arith

  -- `a or b` for the values of two look-ups
  abbrev pub first_of : Option V → Option V → Option V
  first_of none b = b
  first_of (some v) b = some v

  update_step :
      (k j : String) (v : V) (m : Option V) (old : Option V)
      → first_of m (if j == k then some v else old)
        ≡ first_of (elim m [ none ↦ if j == k then some v else none | some w ↦ some w ]) old
  update_step k j v none old = ground arith
  update_step k j v (some w) old = refl

  -- After `d.update(e)` a key has the last value that `e` gives it, or the one of `d`.
  pub lookup-update :
      (k : String) (d e : Dict V) → lookup k (update d e) ≡ first_of (lookup_last k e) (lookup k d)
  unfolding update
  lookup-update k d [] = refl
  lookup-update k d ((j, v) ∷ e) =
      rw (lookup-update k (insert j v d) e, lookup-insert j k v d)
        (update_step k j v (lookup_last k e) (lookup k d))

  pub update-append : (d e f : Dict V) → update d (e ++ f) ≡ update (update d e) f
  unfolding update
  update-append d [] f = refl
  update-append d ((k, v) ∷ e) f = update-append (insert k v d) e f

  -- no key stands twice
  abbrev pub Distinct : Dict V → Type ℓ
  Distinct [] = Unit
  Distinct ((k, v) ∷ d) = (lookup k d ≡ none) × Distinct d

  insert-Distinct : (k : String) (v : V) (d : Dict V) → Distinct d → Distinct (insert k v d)
  unfolding insert lookup
  insert-Distinct k v [] h = (refl, tt)
  insert-Distinct k v ((j, w) ∷ d) (fresh, h) = elim (Bool-cases (j == k)) [
    | inl same ↦ rw same (fresh, h)
    | inr other ↦ rw other (
      rw (lookup-insert k j v d) (ground (arith, eq_iff k j, eq_iff j k)),
      insert-Distinct k v d h,
    )
  ]

  pub update-Distinct : (d e : Dict V) → Distinct d → Distinct (update d e)
  unfolding update
  update-Distinct d [] h = h
  update-Distinct d ((k, v) ∷ e) h = update-Distinct (insert k v d) e (insert-Distinct k v d h)

  pub lookup_last-Distinct : (k : String) (d : Dict V) → Distinct d → lookup_last k d ≡ lookup k d
  unfolding lookup
  lookup_last-Distinct k [] h = refl
  lookup_last-Distinct k ((j, v) ∷ d) (fresh, h) =
      let first : j ≡ k → lookup k d ≡ none = λ e. sym (ap (λ i. lookup i d) e) ∙ fresh in
      rw (lookup_last-Distinct k d h) (ground (arith, eq_iff j k, first))

  pub no_second : (m : Option V) → first_of m none ≡ m
  no_second none = refl
  no_second (some v) = refl

  -- A copy of a dict that was filled entry by entry gives a key its last entry.
  pub lookup-copied :
      (k : String) (e : Dict V) → lookup k (update [] (update [] e)) ≡ lookup_last k e
  unfolding lookup
  lookup-copied k e =
      lookup-update k [] (update [] e)
      ∙ no_second (lookup_last k (update [] e))
      ∙ lookup_last-Distinct k (update [] e) (update-Distinct [] e tt)
      ∙ lookup-update k [] e
      ∙ no_second (lookup_last k e)
