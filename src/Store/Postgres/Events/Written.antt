-- ===== src/Store/Postgres/Events/Written.antt =====
-- What the events that are written become for those who read the log.
use mock_idp.Common.{
  ℕ, ◌+◌, ◌<◌, ◌≢◌, String, Bool, true, false, Option, none, some, ◌≡◌, refl, ap, sym, ◌∙◌, subst,
  List, [], ◌∷◌, ◌++◌, suc, keep, ltb, length, arith, Bool-cases, Option-cases, inl, inr,
  if◌then◌else◌, ◌==◌,
}
use mathlib.Core.List.{append-nil, append_assoc}
use mock_idp.Value.{Claims}
use mock_idp.Store.Postgres.{Loads}
use mock_idp.Store.Postgres.Events.{
  EventRow, EventTable, Writing, event_row, columns, inserted, write_token_event, of_org,
  order_by_id, event_views,
}
use mock_idp.Store.Postgres.Events.Order.{PrimaryKey, Fresh, Below, order_by_id-append}
use mock_idp.Store.Postgres.Events.Paging.{rows_of}
use mock_idp.Store.Postgres.Events.Follow.{follow, follow-query_audit}

-- the row that an insert makes has the id and the organisation of the insert
abbrev Stamped : ℕ → String → Option EventRow → Type 0
Stamped id org_id none = Unit
Stamped id org_id (some row) = (row.id ≡ id) × (row.org_id ≡ org_id)

event_row-Stamped :
    (writing : Writing) (org_id : String) (id : ℕ) (event : Claims)
    → Stamped id org_id (event_row writing org_id id event)
unfolding event_row
event_row-Stamped writing org_id id event = elim (Option-cases (columns event)) [
  | inl e ↦ rw e tt
  | inr (c, e) ↦ rw e (refl, refl)
]

-- The ids differ and are positive, and the sequence is past them.
pub record IsLog (table : EventTable) : Type 0 where
  pub key : PrimaryKey table.rows
  pub past : Below table.next_id table.rows
  pub started : 0 < table.next_id

Below-mono : (m n : ℕ) (rs : List EventRow) → m < n → Below m rs → Below n rs
Below-mono m n [] h b = tt
Below-mono m n (r ∷ rs) h (b, below) = (omega arith, Below-mono m n rs h below)

Below-append :
    (n : ℕ) (rs : List EventRow) (row : EventRow)
    → Below n rs
    → row.id < n
    → Below n (rs ++ row ∷ [])
Below-append n [] row b h = (h, tt)
Below-append n (r ∷ rs) row (b, below) h = (b, Below-append n rs row below h)

Fresh-append :
    (n : ℕ) (rs : List EventRow) (row : EventRow)
    → Fresh n rs
    → n ≢ row.id
    → Fresh n (rs ++ row ∷ [])
Fresh-append n [] row f h = (h, tt)
Fresh-append n (r ∷ rs) row (f, fresh) h = (f, Fresh-append n rs row fresh h)

PrimaryKey-append :
    (rs : List EventRow) (row : EventRow)
    → PrimaryKey rs
    → Below row.id rs
    → PrimaryKey (rs ++ row ∷ [])
PrimaryKey-append [] row k b = (tt, tt)
PrimaryKey-append (r ∷ rs) row (f, k) (b, below) =
    (Fresh-append r.id rs row f (λ e. absurd (omega arith)), PrimaryKey-append rs row k below)

inserted-IsLog :
    (org_id : String) (table : EventTable) (o : Option EventRow)
    → Stamped table.next_id org_id o
    → IsLog table
    → IsLog (inserted o table)
inserted-IsLog org_id table none h log = log
inserted-IsLog org_id table (some row) (same, own) log = record {
  key =
      PrimaryKey-append table.rows row log.key
        (subst (λ i. Below i table.rows) (sym same) log.past);
  past =
      Below-append (table.next_id + 1) table.rows row
        (Below-mono table.next_id (table.next_id + 1) table.rows (omega arith) log.past)
        (omega arith);
  started = omega (arith, log.started);
}

-- Writing an event, refused or not, keeps the log well-formed.
pub write_token_event-IsLog :
    (writing : Writing) (pool connected : Bool) (org_id : String) (event : Claims)
    (table : EventTable)
    → IsLog table
    → IsLog (write_token_event writing pool connected org_id event table)
unfolding write_token_event
write_token_event-IsLog writing false connected org_id event table log = log
write_token_event-IsLog writing true false org_id event table log = log
write_token_event-IsLog writing true true org_id event table log =
    inserted-IsLog org_id table (event_row writing org_id table.next_id event)
      (event_row-Stamped writing org_id table.next_id event) log

-- events of organisations, in the order in which they are written
unfoldable pub write_events : Writing → List (String × Claims) → EventTable → EventTable
unfolding write_token_event
write_events writing [] table = table
write_events writing ((org_id, event) ∷ rest) table =
    write_events writing rest (write_token_event writing true true org_id event table)

-- The rows that one organisation gets from these events: of the accepted ones, which are numbered in
-- their order, its own.
abbrev own_row : String → String → Option EventRow → List EventRow → List EventRow
own_row org_id writer none rest = rest
own_row org_id writer (some row) rest = if writer == org_id then row ∷ rest else rest

abbrev next_number : Option EventRow → ℕ → ℕ
next_number none n = n
next_number (some _) n = n + 1

unfoldable pub own_rows : Writing → String → ℕ → List (String × Claims) → List EventRow
unfolding event_row
own_rows writing org_id n [] = []
own_rows writing org_id n ((writer, event) ∷ rest) =
    let row = event_row writing writer n event in
    own_row org_id writer row (own_rows writing org_id (next_number row n) rest)

keep-append :
    (p : EventRow → Bool) (rs : List EventRow) (row : EventRow)
    → keep p (rs ++ row ∷ []) ≡ keep p rs ++ (if p row then row ∷ [] else [])
keep-append p [] row = refl
keep-append p (r ∷ rs) row = elim (Bool-cases (p r)) [
  | inl kept ↦ rw kept (ap (λ l. r ∷ l) (keep-append p rs row))
  | inr gone ↦ rw gone (keep-append p rs row)
]

keep-Below : (p : EventRow → Bool) (n : ℕ) (rs : List EventRow) → Below n rs → Below n (keep p rs)
keep-Below p n [] b = tt
keep-Below p n (r ∷ rs) (b, below) = elim (Bool-cases (p r)) [
  | inl kept ↦ rw kept (b, keep-Below p n rs below)
  | inr gone ↦ rw gone (keep-Below p n rs below)
]

abbrev own_part : String → String → EventRow → List EventRow
own_part org_id writer row = if writer == org_id then row ∷ [] else []

rows_of-inserted :
    (org_id writer : String) (table : EventTable) (row : EventRow)
    → Stamped table.next_id writer (some row)
    → IsLog table
    → rows_of org_id 0 (table.rows ++ row ∷ [])
      ≡ rows_of org_id 0 table.rows ++ own_part org_id writer row
rows_of-inserted org_id writer table row (same, own) log =
    let positive : ltb 0 row.id ≡ true = ground (arith, log.started) in
    let kept = keep (of_org org_id 0) table.rows in
    let below : Below row.id kept =
      keep-Below (of_org org_id 0) row.id table.rows
        (subst (λ i. Below i table.rows) (sym same) log.past) in
    ap order_by_id (keep-append (of_org org_id 0) table.rows row)
    ∙ elim (Bool-cases (writer == org_id)) [
      | inl mine ↦
          let shown : of_org org_id 0 row ≡ true = rw own (rw mine positive) in
          rw shown (rw mine (order_by_id-append kept row below))
      | inr other ↦
          let hidden : of_org org_id 0 row ≡ false = rw own (rw other refl) in
          rw hidden
            (rw other (ap order_by_id (append-nil kept) ∙ sym (append-nil (order_by_id kept))))
    ]

own_row-append :
    (org_id writer : String) (row : EventRow) (old rest : List EventRow)
    → (old ++ own_part org_id writer row) ++ rest ≡ old ++ own_row org_id writer (some row) rest
own_row-append org_id writer row old rest = elim (Bool-cases (writer == org_id)) [
  | inl mine ↦ rw mine (append_assoc old (row ∷ []) rest)
  | inr other ↦ rw other (ap (λ l. l ++ rest) (append-nil old))
]

rows_of-written :
    (org_id writer : String) (table : EventTable) (o : Option EventRow) (rest : ℕ → List EventRow)
    → Stamped table.next_id writer o
    → IsLog table
    → rows_of org_id 0 (inserted o table).rows ++ rest (inserted o table).next_id
      ≡ rows_of org_id 0 table.rows ++ own_row org_id writer o (rest (next_number o table.next_id))
rows_of-written org_id writer table none rest h log = refl
rows_of-written org_id writer table (some row) rest h log =
    ap (λ l. l ++ rest (table.next_id + 1)) (rows_of-inserted org_id writer table row h log)
    ∙ own_row-append org_id writer row (rows_of org_id 0 table.rows) (rest (table.next_id + 1))

rows_of-write_events :
    (writing : Writing) (org_id : String) (events : List (String × Claims)) (table : EventTable)
    → IsLog table
    → rows_of org_id 0 (write_events writing events table).rows
      ≡ rows_of org_id 0 table.rows ++ own_rows writing org_id table.next_id events
unfolding write_events own_rows write_token_event
rows_of-write_events writing org_id [] table log = sym (append-nil (rows_of org_id 0 table.rows))
rows_of-write_events writing org_id ((writer, event) ∷ rest) table log =
    rows_of-write_events writing org_id rest
      (write_token_event writing true true writer event table)
      (write_token_event-IsLog writing true true writer event table log)
    ∙ rows_of-written org_id writer table (event_row writing writer table.next_id event)
        (λ n. own_rows writing org_id n rest) (event_row-Stamped writing writer table.next_id event)
        log

write_events-IsLog :
    (writing : Writing) (events : List (String × Claims)) (table : EventTable)
    → IsLog table
    → IsLog (write_events writing events table)
unfolding write_events
write_events-IsLog writing [] table log = log
write_events-IsLog writing ((writer, event) ∷ rest) table log =
    write_events-IsLog writing rest (write_token_event writing true true writer event table)
      (write_token_event-IsLog writing true true writer event table log)

-- the table of a new database
abbrev pub empty_log : EventTable
empty_log = record { rows = []; next_id = 1 }

empty_log-IsLog : IsLog empty_log
empty_log-IsLog = record { key = tt; past = tt; started = omega arith }

-- Whatever events are written to the empty log for whatever organisations, a client that follows the
-- cursors of query_audit with any page size but zero gets the accepted events of its organisation, each
-- once, in the order in which they were written, and nothing of another organisation.
pub follow-write_events :
    (loads : Loads) (writing : Writing) (org_id : String) (limit : ℕ)
    (events : List (String × Claims)) {shown : List Claims}
    → 0 < limit
    → event_views loads (own_rows writing org_id 1 events) ≡ some shown
    → let table = write_events writing events empty_log in
      follow (suc (length table.rows)) loads org_id limit 0 table ≡ some shown
unfolding own_rows order_by_id
follow-write_events loads writing org_id limit events room h =
    let table = write_events writing events empty_log in
    follow-query_audit loads org_id limit table
      (write_events-IsLog writing events empty_log empty_log-IsLog).key room
      (ap (event_views loads) (rows_of-write_events writing org_id events empty_log empty_log-IsLog)
        ∙ h)
