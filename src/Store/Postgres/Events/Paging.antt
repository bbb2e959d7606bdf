-- ===== src/Store/Postgres/Events/Paging.antt =====
-- Pages of rows whose ids rise: what a page shows, and what stands behind its last row.
use mock_idp.Common.{
  ltb→lt, ℕ, ◌<◌, ◌≤◌, String, Bool, true, false, some, ◌≡◌, refl, ap, sym, ◌∙◌, List, [], ◌∷◌,
  ◌++◌, zero, suc, length, keep, ltb, arith, Bool-cases, Option-cases, inl, inr, ◌==◌, subst,
}
use mock_idp.Value.{Claims}
use mock_idp.Store.Postgres.{Loads}
use mock_idp.Store.Postgres.Events.{
  EventRow, of_org, order_by_id, take, event_view, event_views, last_id,
}
use mock_idp.Store.Postgres.Events.Order.{
  Above, Ascending, PrimaryKey, keep-Ascending, order_by_id-Ascending, order_by_id-keep,
}

module _ {ℓ} {A : Type ℓ} where
  abbrev pub drop : ℕ → List A → List A
  drop zero xs = xs
  drop (suc n) [] = []
  drop (suc n) (x ∷ xs) = drop n xs

  pub length-take : (n : ℕ) (xs : List A) → length (take n xs) ≤ n
  length-take zero xs = omega arith
  length-take (suc n) [] = omega arith
  length-take (suc n) (x ∷ xs) = omega (arith, length-take n xs)

  -- one more than fits on the page is fetched, and cut off again
  pub take-take-suc : (n : ℕ) (xs : List A) → take n (take (suc n) xs) ≡ take n xs
  take-take-suc zero xs = refl
  take-take-suc (suc n) [] = refl
  take-take-suc (suc n) (x ∷ xs) = ap (λ l. x ∷ l) (take-take-suc n xs)

  -- it shows whether there are more
  pub more_fetched : (n : ℕ) (xs : List A) → ltb n (length (take (suc n) xs)) ≡ ltb n (length xs)
  more_fetched zero [] = refl
  more_fetched zero (x ∷ []) = refl
  more_fetched zero (x ∷ y ∷ xs) = ground arith
  more_fetched (suc n) [] = refl
  more_fetched (suc n) (x ∷ xs) = ground (arith, more_fetched n xs)

  pub take_all : (n : ℕ) (xs : List A) → ltb n (length xs) ≡ false → take n xs ≡ xs
  take_all zero [] h = refl
  take_all zero (x ∷ xs) h = ground arith
  take_all (suc n) [] h = refl
  take_all (suc n) (x ∷ xs) h = ap (λ l. x ∷ l) (take_all n xs (ground arith))

  pub take-append-drop : (n : ℕ) (xs : List A) → take n xs ++ drop n xs ≡ xs
  take-append-drop zero xs = refl
  take-append-drop (suc n) [] = refl
  take-append-drop (suc n) (x ∷ xs) = ap (λ l. x ∷ l) (take-append-drop n xs)

  pub length-drop : (n : ℕ) (xs : List A) → length (drop n xs) ≤ length xs
  length-drop zero xs = omega arith
  length-drop (suc n) [] = omega arith
  length-drop (suc n) (x ∷ xs) = omega (arith, length-drop n xs)

-- the rows behind a cursor
abbrev behind : ℕ → EventRow → Bool
behind cursor row = ltb cursor row.id

keep_all : (n : ℕ) (rs : List EventRow) → Above n rs → keep (behind n) rs ≡ rs
keep_all n [] a = refl
keep_all n (r ∷ rs) (a, above) =
    let lt : ltb n r.id ≡ true = ground arith in rw lt (ap (λ l. r ∷ l) (keep_all n rs above))

pub behind_false : (m n : ℕ) → n ≤ m → ltb m n ≡ false
behind_false m n h = ground arith

same_id : {n m : ℕ} → some n ≡ some m → n ≡ m
same_id h = cc

pub last_id-Above :
    (n k : ℕ) (rs : List EventRow) {m : ℕ} → Above n rs → last_id (take (suc k) rs) ≡ some m → n < m
last_id-Above n k [] a h = cc
last_id-Above n zero (r ∷ rs) (a, above) h = omega (arith, same_id h)
last_id-Above n (suc k) (r ∷ []) (a, above) h = omega (arith, same_id h)
last_id-Above n (suc k) (r ∷ s ∷ rs) (a, above) h = last_id-Above n k (s ∷ rs) above h

-- The last row of a page of rising ids cuts off the page.
last_id-drop :
    (n : ℕ) (rs : List EventRow) (m : ℕ)
    → Ascending rs
    → last_id (take (suc n) rs) ≡ some m
    → keep (behind m) rs ≡ drop (suc n) rs
last_id-drop n [] m a h = refl
last_id-drop zero (r ∷ rs) m (a, rest) h =
    rw (behind_false m r.id (omega (arith, same_id h)))
      (keep_all m rs (subst (λ i. Above i rs) (same_id h) a))
last_id-drop (suc n) (r ∷ []) m (a, rest) h =
    rw (behind_false m r.id (omega (arith, same_id h))) refl
last_id-drop (suc n) (r ∷ s ∷ rs) m (a, rest) h =
    rw (behind_false m r.id (omega (arith, last_id-Above r.id n (s ∷ rs) a h)))
      (last_id-drop n (s ∷ rs) m rest h)

-- the rows that an organisation has behind a cursor, in the order of their ids
abbrev pub rows_of : String → ℕ → List EventRow → List EventRow
rows_of org_id cursor rows = order_by_id (keep (of_org org_id cursor) rows)

keep-narrow :
    (org_id : String) (c m : ℕ) (rs : List EventRow)
    → c ≤ m
    → keep (of_org org_id m) rs ≡ keep (behind m) (keep (of_org org_id c) rs)
keep-narrow org_id c m [] h = refl
keep-narrow org_id c m (r ∷ rs) h =
    let ih = keep-narrow org_id c m rs h in
    elim (Bool-cases (r.org_id == org_id)) [
      | inr other ↦ rw other ih
      | inl own ↦ elim (Bool-cases (ltb m r.id)) [
        | inl late ↦
            let later : ltb c r.id ≡ true = ground arith in
            rw own (rw later (rw late (ap (λ l. r ∷ l) ih)))
        | inr early ↦ elim (Bool-cases (ltb c r.id)) [
          | inl kept ↦ rw own (rw kept (rw early ih))
          | inr gone ↦ rw own (rw gone (rw early ih))
        ]
      ]
    ]

keep-of_org-Above :
    (org_id : String) (c : ℕ) (rs : List EventRow) → Above c (keep (of_org org_id c) rs)
keep-of_org-Above org_id c [] = tt
keep-of_org-Above org_id c (r ∷ rs) =
    let ih = keep-of_org-Above org_id c rs in
    elim (Bool-cases (r.org_id == org_id)) [
      | inr other ↦ rw other ih
      | inl own ↦ elim (Bool-cases (ltb c r.id)) [
        | inl late ↦ rw own (rw late (ltb→lt c r.id late, ih))
        | inr early ↦ rw own (rw early ih)
      ]
    ]

module _ (org_id : String) (rows : List EventRow) (key : PrimaryKey rows) where
  sorted : (c : ℕ) → rows_of org_id c rows ≡ keep (of_org org_id c) (order_by_id rows)
  sorted c = order_by_id-keep (of_org org_id c) rows key

  pub rows_of-Ascending : (c : ℕ) → Ascending (rows_of org_id c rows)
  rows_of-Ascending c =
      subst Ascending (sym (sorted c))
        (keep-Ascending (of_org org_id c) (order_by_id rows) (order_by_id-Ascending rows key))

  pub rows_of-Above : (c : ℕ) → Above c (rows_of org_id c rows)
  rows_of-Above c = subst (Above c) (sym (sorted c)) (keep-of_org-Above org_id c (order_by_id rows))

  -- Behind the last row of a page stand the rows that the page left out.
  pub rows_of-last :
      (c n m : ℕ)
      → last_id (take (suc n) (rows_of org_id c rows)) ≡ some m
      → rows_of org_id m rows ≡ drop (suc n) (rows_of org_id c rows)
  rows_of-last c n m h =
      let later : c < m = last_id-Above c n (rows_of org_id c rows) (rows_of-Above c) h in
      sorted m
      ∙ keep-narrow org_id c m (order_by_id rows) (omega arith)
      ∙ ap (keep (behind m)) (sym (sorted c))
      ∙ last_id-drop n (rows_of org_id c rows) m (rows_of-Ascending c) h

pub last_of_some :
    (n : ℕ) (xs : List EventRow) → 0 < length xs → (m : ℕ) × (last_id (take (suc n) xs) ≡ some m)
last_of_some n [] h = absurd (omega arith)
last_of_some zero (r ∷ rs) h = (r.id, refl)
last_of_some (suc n) (r ∷ []) h = (r.id, refl)
last_of_some (suc n) (r ∷ s ∷ rs) h = last_of_some n (s ∷ rs) (omega arith)

pub event_views-append :
    (loads : Loads) (xs ys : List EventRow) {all : List Claims}
    → event_views loads (xs ++ ys) ≡ some all
    → (a : List Claims) × (b : List Claims) × (event_views loads xs ≡ some a)
      × (event_views loads ys ≡ some b)
      × (all ≡ a ++ b)
event_views-append loads [] ys {all} h = ([], all, refl, h, refl)
event_views-append loads (x ∷ xs) ys {all} h = elim (Option-cases (event_view loads x)) [
  | inl e ↦ absurd (cc)
  | inr (v, e) ↦ elim (Option-cases (event_views loads (xs ++ ys))) [
    | inl e' ↦ absurd (cc)
    | inr (rest, e') ↦
        let (a, b, ha, hb, split) = event_views-append loads xs ys e' in
        (v ∷ a, b, rw e (rw ha refl), hb, cc)
  ]
]
