-- ===== src/Store/Postgres/Events/Follow.antt =====
-- Following the cursors of `query_audit` through the audit log.
use mock_idp.Common.{
  ℕ, ◌<◌, ◌≤◌, String, Bool, true, false, Option, none, some, ◌≡◌, refl, ap, sym, ◌∙◌, subst, List,
  [], ◌∷◌, ◌++◌, zero, suc, length, keep, ltb, arith, Bool-cases, Option-cases, inl, inr, ltb→lt,
}
use mock_idp.Result.{Result, ok, err}
use mock_idp.Value.{Claims}
use mock_idp.Store.Postgres.{Loads, ◌>>=◌}
use mock_idp.Store.Postgres.Events.{
  EventRow, EventTable, of_org, order_by_id, place, take, select_events, event_view, event_views,
  last_id, page_of, query_audit, Page,
}
use mock_idp.Store.Postgres.Events.Order.{PrimaryKey}
use mock_idp.Store.Postgres.Events.Paging.{
  drop, length-take, take-take-suc, more_fetched, take_all, take-append-drop, rows_of,
  rows_of-Above, rows_of-last, last_of_some, event_views-append, last_id-Above,
}

abbrev next_page : (ℕ → Option (List Claims)) → Result Page → Option (List Claims)
next_page more (err e) = none
next_page more (ok (events, none)) = some events
next_page more (ok (events, some cursor)) = more cursor >>= λ later. some (events ++ later)

-- A client that asks for pages of `limit` events and passes on the cursor of each answer, until there
-- is none; `none` if an answer is an exception or the rounds run out.
unfoldable pub follow : ℕ → Loads → String → ℕ → ℕ → EventTable → Option (List Claims)
follow zero loads org_id limit cursor table = none
follow (suc rounds) loads org_id limit cursor table =
    next_page (λ next. follow rounds loads org_id limit next table)
      (query_audit loads true true org_id limit cursor table)

-- a page in terms of the rows behind the cursor
query_audit-rows :
    (loads : Loads) (org_id : String) (limit cursor : ℕ) (table : EventTable)
    → let rows = rows_of org_id cursor table.rows in
      query_audit loads true true org_id limit cursor table
      ≡ page_of
          (event_views loads (take limit rows))
          (ltb limit (length rows))
          (last_id (take limit rows))
unfolding query_audit select_events
query_audit-rows loads org_id limit cursor table =
    let rows = rows_of org_id cursor table.rows in
    ap
      (λ (page : List EventRow).
        page_of (event_views loads page) (ltb limit (length (take (suc limit) rows)))
          (last_id page))
      (take-take-suc limit rows)
    ∙ ap (λ more. page_of (event_views loads (take limit rows)) more (last_id (take limit rows)))
        (more_fetched limit rows)

length-drop_lt : (n : ℕ) (xs : List EventRow) → 0 < length xs → length (drop (suc n) xs) < length xs
length-drop_lt n [] h = absurd (omega arith)
length-drop_lt zero (x ∷ xs) h = omega arith
length-drop_lt (suc n) (x ∷ []) h = omega arith
length-drop_lt (suc n) (x ∷ y ∷ xs) h = omega (arith, length-drop_lt n (y ∷ xs) (omega arith))

module _ (loads : Loads) (org_id : String) (limit : ℕ) (table : EventTable)
    (key : PrimaryKey table.rows) where
  abbrev left : ℕ → List EventRow
  left cursor = rows_of org_id cursor table.rows

  follow-left :
      (rounds cursor : ℕ) {events : List Claims}
      → event_views loads (left cursor) ≡ some events
      → length (left cursor) < rounds
      → follow rounds loads org_id (suc limit) cursor table ≡ some events
  unfolding follow
  follow-left zero cursor h few = absurd (omega arith)
  follow-left (suc rounds) cursor {events} h few =
      let more : ℕ → Option (List Claims) =
        λ next. follow rounds loads org_id (suc limit) next table in
      let shown = query_audit-rows loads org_id (suc limit) cursor table in
      elim (Bool-cases (ltb (suc limit) (length (left cursor)))) [
        | inr last ↦ ap (next_page more) (
            shown
            ∙ ap
                (λ b.
                  page_of (event_views loads (take (suc limit) (left cursor))) b
                    (last_id (take (suc limit) (left cursor))))
                last
            ∙ ap (λ v. page_of v false (last_id (take (suc limit) (left cursor))))
                (ap (event_views loads) (take_all (suc limit) (left cursor) last) ∙ h))
        | inl larger ↦
            let some_left : 0 < length (left cursor) =
              omega (arith, ltb→lt (suc limit) (length (left cursor)) larger) in
            let (m, at_end) = last_of_some limit (left cursor) some_left in
            let rest : left m ≡ drop (suc limit) (left cursor) =
              rows_of-last org_id table.rows key cursor limit m at_end in
            let (a, b, ha, hb, split) =
              event_views-append loads (take (suc limit) (left cursor))
                (drop (suc limit) (left cursor))
                (ap (event_views loads) (take-append-drop (suc limit) (left cursor)) ∙ h) in
            let fewer : length (left m) < rounds = omega (
              arith,
              ap (λ (l : List EventRow). length l) rest,
              length-drop_lt limit (left cursor) some_left,
            ) in
            let later = follow-left rounds m (ap (event_views loads) rest ∙ hb) fewer in
            let page : query_audit loads true true org_id (suc limit) cursor table
                ≡ ok (a, some m) =
              shown ∙ rw ha (rw larger (rw at_end refl)) in
            ap (next_page more) page
            ∙ ap (λ o. o >>= λ l. some (a ++ l)) later
            ∙ ap some (sym split)
      ]

length-place : (row : EventRow) (rs : List EventRow) → length (place row rs) ≡ suc (length rs)
unfolding place
length-place row [] = refl
length-place row (r ∷ rs) = ground (arith, length-place row rs)

length-order_by_id : (rs : List EventRow) → length (order_by_id rs) ≡ length rs
unfolding order_by_id
length-order_by_id [] = refl
length-order_by_id (r ∷ rs) = length-place r (order_by_id rs) ∙ ap suc (length-order_by_id rs)

length-keep : (p : EventRow → Bool) (rs : List EventRow) → length (keep p rs) ≤ length rs
length-keep p [] = omega arith
length-keep p (r ∷ rs) = ground (arith, length-keep p rs)

-- If the ids of the table differ and a page has room for an event, then following the cursors from the
-- start ends, after at most one request more than the table has rows, and gives every event of the
-- organisation with a positive id once, in the order of the ids.
pub follow-query_audit :
    (loads : Loads) (org_id : String) (limit : ℕ) (table : EventTable) {events : List Claims}
    → PrimaryKey table.rows
    → 0 < limit
    → event_views loads (rows_of org_id 0 table.rows) ≡ some events
    → follow (suc (length table.rows)) loads org_id limit 0 table ≡ some events
follow-query_audit loads org_id zero table key room h = absurd (omega arith)
follow-query_audit loads org_id (suc limit) table key room h =
    follow-left loads org_id limit table key (suc (length table.rows)) 0 h (
      omega (
        arith,
        length-order_by_id (keep (of_org org_id 0) table.rows),
        length-keep (of_org org_id 0) table.rows,
      ))

length-event_views :
    (loads : Loads) (rs : List EventRow) {events : List Claims}
    → event_views loads rs ≡ some events
    → length events ≡ length rs
length-event_views loads [] {events} h =
    let whole : events ≡ [] = cc in ap (λ (l : List Claims). length l) whole
length-event_views loads (r ∷ rs) {events} h = elim (Option-cases (event_view loads r)) [
  | inl e ↦ absurd (cc)
  | inr (v, e) ↦ elim (Option-cases (event_views loads rs)) [
    | inl e' ↦ absurd (cc)
    | inr (views, e') ↦
        let whole : events ≡ v ∷ views = cc in
        ap (λ (l : List Claims). length l) whole ∙ ap suc (length-event_views loads rs e')
  ]
]

-- what an answer shows and where it points to
abbrev pub IsPage : ℕ → ℕ → Result Page → Type 0
IsPage limit cursor (err e) = Unit
IsPage limit cursor (ok (events, none)) = length events ≤ limit
IsPage limit cursor (ok (events, some next)) = (length events ≡ limit) × (cursor < next)

take_full : (n : ℕ) (xs : List EventRow) → ltb n (length xs) ≡ true → length (take n xs) ≡ n
take_full zero xs h = refl
take_full (suc n) [] h = ground arith
take_full (suc n) (x ∷ xs) h = ground (arith, take_full n xs)

page_of-IsPage :
    (limit cursor : ℕ) (views : Option (List Claims)) (more : Bool) (last : Option ℕ)
    → ((events : List Claims) → views ≡ some events → length events ≤ limit)
    → ((events : List Claims) → views ≡ some events → more ≡ true → length events ≡ limit)
    → ((m : ℕ) → last ≡ some m → cursor < m)
    → IsPage limit cursor (page_of views more last)
page_of-IsPage limit cursor none more last fits full later = tt
page_of-IsPage limit cursor (some events) false last fits full later = fits events refl
page_of-IsPage limit cursor (some events) true none fits full later = tt
page_of-IsPage limit cursor (some events) true (some m) fits full later =
    (full events refl refl, later m refl)

last_id-later :
    (org_id : String) (limit cursor m : ℕ) (rows : List EventRow)
    → PrimaryKey rows
    → last_id (take limit (rows_of org_id cursor rows)) ≡ some m
    → cursor < m
last_id-later org_id zero cursor m rows key h = absurd (cc)
last_id-later org_id (suc limit) cursor m rows key h =
    last_id-Above cursor limit (rows_of org_id cursor rows) (rows_of-Above org_id rows key cursor) h

-- If the ids of the table differ, an answer of query_audit shows at most `limit` events, and if it has
-- a cursor then it shows exactly that many and the cursor is greater than the one that was passed.
pub query_audit-IsPage :
    (loads : Loads) (pool connected : Bool) (org_id : String) (limit cursor : ℕ)
    (table : EventTable)
    → PrimaryKey table.rows
    → IsPage limit cursor (query_audit loads pool connected org_id limit cursor table)
unfolding query_audit
query_audit-IsPage loads false connected org_id limit cursor table key = omega arith
query_audit-IsPage loads true false org_id limit cursor table key = omega arith
query_audit-IsPage loads true true org_id limit cursor table key =
    let rows = rows_of org_id cursor table.rows in
    subst (IsPage limit cursor) (sym (query_audit-rows loads org_id limit cursor table)) (
      page_of-IsPage limit cursor (event_views loads (take limit rows)) (ltb limit (length rows))
        (last_id (take limit rows))
        (λ events h.
          omega (arith, length-event_views loads (take limit rows) h, length-take limit rows))
        (λ events h larger.
          length-event_views loads (take limit rows) h ∙ take_full limit rows larger)
        (λ m h. last_id-later org_id limit cursor m table.rows key h))
