-- ===== src/Store/Postgres/Events/Order.antt =====
-- Rows in the order of their ids.
use mock_idp.Common.{
  ℕ, ◌<◌, ◌≡◌, ◌≢◌, refl, ap, sym, ◌∙◌, Bool, true, false, List, [], ◌∷◌, ◌++◌, keep, ltb, arith,
  Bool-cases, inl, inr, if◌then◌else◌,
}
use mock_idp.Store.Postgres.Events.{EventRow, place, order_by_id}

-- every row has a higher id
abbrev pub Above : ℕ → List EventRow → Type 0
Above n [] = Unit
Above n (r ∷ rs) = (n < r.id) × Above n rs

-- the ids rise
abbrev pub Ascending : List EventRow → Type 0
Ascending [] = Unit
Ascending (r ∷ rs) = Above r.id rs × Ascending rs

-- no row has the id
abbrev pub Fresh : ℕ → List EventRow → Type 0
Fresh n [] = Unit
Fresh n (r ∷ rs) = (n ≢ r.id) × Fresh n rs

-- the ids differ: `id` is the primary key
abbrev pub PrimaryKey : List EventRow → Type 0
PrimaryKey [] = Unit
PrimaryKey (r ∷ rs) = Fresh r.id rs × PrimaryKey rs

pub Above-mono : (m n : ℕ) (rs : List EventRow) → m < n → Above n rs → Above m rs
Above-mono m n [] h a = tt
Above-mono m n (r ∷ rs) h (a, rest) = (omega arith, Above-mono m n rs h rest)

place-Above :
    (n : ℕ) (x : EventRow) (rs : List EventRow) → n < x.id → Above n rs → Above n (place x rs)
unfolding place
place-Above n x [] h a = (h, tt)
place-Above n x (r ∷ rs) h (a, rest) = elim (Bool-cases (ltb x.id r.id)) [
  | inl lt ↦ rw lt (h, (a, rest))
  | inr ge ↦ rw ge (a, place-Above n x rs h rest)
]

place-Ascending :
    (x : EventRow) (rs : List EventRow) → Fresh x.id rs → Ascending rs → Ascending (place x rs)
unfolding place
place-Ascending x [] f a = (tt, tt)
place-Ascending x (r ∷ rs) (f, fs) (a, rest) = elim (Bool-cases (ltb x.id r.id)) [
  | inl lt ↦ rw lt (
      let below : x.id < r.id = ground arith in
      ((below, Above-mono x.id r.id rs below a), (a, rest)))
  | inr ge ↦ rw ge (place-Above r.id x rs (ground arith) a, place-Ascending x rs fs rest)
]

place-Fresh :
    (n : ℕ) (x : EventRow) (rs : List EventRow) → n ≢ x.id → Fresh n rs → Fresh n (place x rs)
unfolding place
place-Fresh n x [] h f = (h, tt)
place-Fresh n x (r ∷ rs) h (f, fs) = elim (Bool-cases (ltb x.id r.id)) [
  | inl lt ↦ rw lt (h, (f, fs))
  | inr ge ↦ rw ge (f, place-Fresh n x rs h fs)
]

order_by_id-Fresh : (n : ℕ) (rs : List EventRow) → Fresh n rs → Fresh n (order_by_id rs)
unfolding order_by_id
order_by_id-Fresh n [] f = tt
order_by_id-Fresh n (r ∷ rs) (f, fs) =
    place-Fresh n r (order_by_id rs) f (order_by_id-Fresh n rs fs)

-- Sorting rows whose ids differ makes the ids rise.
pub order_by_id-Ascending : (rs : List EventRow) → PrimaryKey rs → Ascending (order_by_id rs)
unfolding order_by_id
order_by_id-Ascending [] k = tt
order_by_id-Ascending (r ∷ rs) (f, k) =
    place-Ascending r (order_by_id rs) (order_by_id-Fresh r.id rs f) (order_by_id-Ascending rs k)

place_first : (x : EventRow) (rs : List EventRow) → Above x.id rs → place x rs ≡ x ∷ rs
unfolding place
place_first x [] a = refl
place_first x (r ∷ rs) (a, rest) = let lt : ltb x.id r.id ≡ true = ground arith in rw lt refl

module _ (p : EventRow → Bool) where
  pub keep-Above : (n : ℕ) (rs : List EventRow) → Above n rs → Above n (keep p rs)
  keep-Above n [] a = tt
  keep-Above n (r ∷ rs) (a, rest) = elim (Bool-cases (p r)) [
    | inl kept ↦ rw kept (a, keep-Above n rs rest)
    | inr gone ↦ rw gone (keep-Above n rs rest)
  ]

  pub keep-Ascending : (rs : List EventRow) → Ascending rs → Ascending (keep p rs)
  keep-Ascending [] a = tt
  keep-Ascending (r ∷ rs) (a, rest) = elim (Bool-cases (p r)) [
    | inl kept ↦ rw kept (keep-Above r.id rs a, keep-Ascending rs rest)
    | inr gone ↦ rw gone (keep-Ascending rs rest)
  ]

  keep-place_kept :
      (x : EventRow) (rs : List EventRow)
      → p x ≡ true
      → Ascending rs
      → keep p (place x rs) ≡ place x (keep p rs)
  unfolding place
  keep-place_kept x [] kept a = rw kept refl
  keep-place_kept x (r ∷ rs) kept (a, rest) = elim (Bool-cases (ltb x.id r.id)) [
    | inl lt ↦
        let below : x.id < r.id = ground arith in
        rw lt (
          rw kept (
            sym (
              place_first x (keep p (r ∷ rs))
                (keep-Above x.id (r ∷ rs) (below, Above-mono x.id r.id rs below a)))))
    | inr ge ↦ elim (Bool-cases (p r)) [
      | inl also ↦ rw ge (rw also (rw ge (ap (λ l. r ∷ l) (keep-place_kept x rs kept rest))))
      | inr other ↦ rw ge (rw other (keep-place_kept x rs kept rest))
    ]
  ]

  keep-place_dropped :
      (x : EventRow) (rs : List EventRow) → p x ≡ false → keep p (place x rs) ≡ keep p rs
  unfolding place
  keep-place_dropped x [] gone = rw gone refl
  keep-place_dropped x (r ∷ rs) gone = elim (Bool-cases (ltb x.id r.id)) [
    | inl lt ↦ rw lt (rw gone refl)
    | inr ge ↦ rw ge (ap (λ l. if p r then r ∷ l else l) (keep-place_dropped x rs gone))
  ]

  -- Selecting rows and sorting them commute.
  pub order_by_id-keep :
      (rs : List EventRow) → PrimaryKey rs → order_by_id (keep p rs) ≡ keep p (order_by_id rs)
  unfolding order_by_id
  order_by_id-keep [] k = refl
  order_by_id-keep (r ∷ rs) (f, k) =
      let rest = order_by_id-keep rs k in
      elim (Bool-cases (p r)) [
        | inl kept ↦ rw kept (
            ap (place r) rest
            ∙ sym (keep-place_kept r (order_by_id rs) kept (order_by_id-Ascending rs k)))
        | inr gone ↦ rw gone (rest ∙ sym (keep-place_dropped r (order_by_id rs) gone))
      ]

place-append :
    (x last : EventRow) (rs : List EventRow)
    → x.id < last.id
    → place x (rs ++ last ∷ []) ≡ place x rs ++ last ∷ []
unfolding place
place-append x last [] h = let lt : ltb x.id last.id ≡ true = ground arith in rw lt refl
place-append x last (r ∷ rs) h = elim (Bool-cases (ltb x.id r.id)) [
  | inl lt ↦ rw lt refl
  | inr ge ↦ rw ge (ap (λ l. r ∷ l) (place-append x last rs h))
]

-- every row has a lower id
abbrev pub Below : ℕ → List EventRow → Type 0
Below n [] = Unit
Below n (r ∷ rs) = (r.id < n) × Below n rs

-- A row with the highest id comes last.
pub order_by_id-append :
    (rs : List EventRow) (last : EventRow)
    → Below last.id rs
    → order_by_id (rs ++ last ∷ []) ≡ order_by_id rs ++ last ∷ []
unfolding order_by_id place
order_by_id-append [] last b = refl
order_by_id-append (r ∷ rs) last (b, bs) =
    ap (place r) (order_by_id-append rs last bs) ∙ place-append r last (order_by_id rs) b
