-- ===== src/Store/Postgres/Events.antt =====
-- src/mock_idp/store/pg_store.py: the audit log in the table `token_events`, written by
-- `write_token_event` and read by `query_audit`. The table holds the events of all organisations. What
-- the driver and PostgreSQL refuse follows the column types of src/alembic/versions.
pub mod Order
pub mod Paging
pub mod Follow
pub mod Written
use mock_idp.Common.{
  ℕ, ◌+◌, String, Bool, true, false, ◌&&◌, Option, none, some, List, [], ◌∷◌, ◌++◌, keep, length,
  ltb, leb, or_else, if◌then◌else◌, ◌==◌, zero, suc,
}
use mock_idp.Int.{ℤ, pos, pos_part, neg_part}
use mock_idp.Text.{parse_int}
use mock_idp.Dict.{Dict, lookup}
use mock_idp.Value.{Value, null, bool, int, str, list, dict, fields, Claims}
use mock_idp.Result.{Result, ok, err, uncaught}
use mock_idp.Store.Postgres.{Jsonb, Loads, parse_jsonb, ◌>>=◌}

-- a row of `token_events`
pub record EventRow : Type 0 where
  pub id : ℕ
  pub org_id : String
  pub issuer : String
  pub grant_type : String
  pub sub : String
  pub aud : Option String
  pub iat : ℤ
  pub exp : ℤ
  pub jti : Option String
  pub raw_claims : Jsonb Claims
  pub created_at : String

-- the table, with the next id of its sequence
pub record EventTable : Type 0 where
  pub rows : List EventRow
  pub next_id : ℕ

-- What the database does to a document: `dumps_jsonb` is what a column gives back for the dict whose
-- JSON text was written, `stamp` the time that it writes, in ISO format.
pub record Writing : Type 0 where
  pub dumps_jsonb : Claims → Jsonb Claims
  pub stamp : String

-- the argument of a TEXT column: the driver takes a text or None
abbrev text_column : Value → Option (Option String)
text_column null = some none
text_column (str s) = some (some s)
text_column _ = none

-- `int(v)`
abbrev int_of : Value → Option ℤ
int_of (bool true) = some (pos 1)
int_of (bool false) = some (pos 0)
int_of (int z) = some z
int_of (str s) = parse_int s
int_of _ = none

abbrev bigint_limit : ℕ
bigint_limit = 9223372036854775808

-- the argument of a BIGINT column: the driver takes what fits 64 bits
unfoldable pub bigint_column : ℤ → Option ℤ
bigint_column z =
    if ltb (pos_part z) bigint_limit && leb (neg_part z) bigint_limit then some z else none

-- NOT NULL
abbrev not_null : Option (Option String) → Option String
not_null none = none
not_null (some o) = o

-- the arguments of the insert that are taken from the event
pub record Columns : Type 0 where
  pub issuer : String
  pub grant_type : String
  pub sub : String
  pub aud : Option String
  pub iat : ℤ
  pub exp : ℤ
  pub jti : Option String

-- They are `none` if the driver or a constraint refuses them.
unfoldable pub columns : Claims → Option Columns
unfolding bigint_column lookup
columns event = do
  issuer ← not_null (text_column (or_else (lookup "iss" event) (str "")))
  grant_type ← not_null (text_column (or_else (lookup "grant_type" event) (str "")))
  sub ← not_null (text_column (or_else (lookup "sub" event) (str "")))
  aud ← text_column (or_else (lookup "aud" event) null)
  iat ← int_of (or_else (lookup "iat" event) (int (pos 0))) >>= bigint_column
  exp ← int_of (or_else (lookup "exp" event) (int (pos 0))) >>= bigint_column
  jti ← text_column (or_else (lookup "jti" event) null)
  some (record {
    issuer = issuer;
    grant_type = grant_type;
    sub = sub;
    aud = aud;
    iat = iat;
    exp = exp;
    jti = jti;
  })

-- the row that the insert makes
unfoldable pub event_row : Writing → String → ℕ → Claims → Option EventRow
unfolding columns
event_row writing org_id id event = columns event >>= λ c. some (record {
  id = id;
  org_id = org_id;
  issuer = c.issuer;
  grant_type = c.grant_type;
  sub = c.sub;
  aud = c.aud;
  iat = c.iat;
  exp = c.exp;
  jti = c.jti;
  raw_claims = writing.dumps_jsonb event;
  created_at = writing.stamp;
})

abbrev pub inserted : Option EventRow → EventTable → EventTable
inserted none table = table
inserted (some row) table = record { rows = table.rows ++ row ∷ []; next_id = table.next_id + 1 }

-- `write_token_event`: `connected` says whether the pool gives a connection; no exception leaves it. A
-- refused row uses up no id here.
unfoldable pub write_token_event : Writing → Bool → Bool → String → Claims → EventTable → EventTable
unfolding event_row
write_token_event writing pool connected org_id event table =
    if pool && connected
    then inserted (event_row writing org_id table.next_id event) table
    else table

-- WHERE org_id = $1 AND id > $2
abbrev pub of_org : String → ℕ → EventRow → Bool
of_org org_id cursor row = row.org_id == org_id && ltb cursor row.id

-- ORDER BY id ASC
unfoldable pub place : EventRow → List EventRow → List EventRow
place row [] = row ∷ []
place row (first ∷ rest) =
    if ltb row.id first.id then row ∷ first ∷ rest else first ∷ place row rest

unfoldable pub order_by_id : List EventRow → List EventRow
unfolding place
order_by_id [] = []
order_by_id (row ∷ rows) = place row (order_by_id rows)

-- LIMIT $3, and `rows[:limit]`
module _ {ℓ} {A : Type ℓ} where
  abbrev pub take : ℕ → List A → List A
  take zero xs = []
  take (suc n) [] = []
  take (suc n) (x ∷ xs) = x ∷ take n xs

unfoldable pub select_events : String → ℕ → ℕ → List EventRow → List EventRow
unfolding order_by_id
select_events org_id cursor count rows = take count (order_by_id (keep (of_org org_id cursor) rows))

abbrev text_or_null : Option String → Value
text_or_null none = null
text_or_null (some s) = str s

-- one entry of `events`
unfoldable pub event_view : Loads → EventRow → Option Claims
unfolding parse_jsonb
event_view loads r = parse_jsonb loads.claims r.raw_claims >>= λ raw. some (
    ("id", int (pos r.id))
    ∷ ("org_id", str r.org_id)
    ∷ ("issuer", str r.issuer)
    ∷ ("grant_type", str r.grant_type)
    ∷ ("sub", str r.sub)
    ∷ ("aud", text_or_null r.aud)
    ∷ ("iat", int r.iat)
    ∷ ("exp", int r.exp)
    ∷ ("jti", text_or_null r.jti)
    ∷ ("raw_claims", dict (fields raw))
    ∷ ("created_at", str r.created_at)
    ∷ [])

-- the list comprehension, ended by the first exception
abbrev pub event_views : Loads → List EventRow → Option (List Claims)
event_views loads [] = some []
event_views loads (r ∷ page) =
    event_view loads r >>= λ view. event_views loads page >>= λ views. some (view ∷ views)

-- `page[-1]["id"]`
abbrev pub last_id : List EventRow → Option ℕ
last_id [] = none
last_id (r ∷ []) = some r.id
last_id (r ∷ s ∷ page) = last_id (s ∷ page)

abbrev pub Page : Type 0
Page = List Claims × Option ℕ

abbrev pub with_cursor : List Claims → Bool → Option ℕ → Result Page
with_cursor events false _ = ok (events, none)
with_cursor events true none = err (uncaught "IndexError")
with_cursor events true (some id) = ok (events, some id)

abbrev pub page_of : Option (List Claims) → Bool → Option ℕ → Result Page
page_of none has_more last = err (uncaught "ValueError")
page_of (some events) has_more last = with_cursor events has_more last

-- what `query_audit` does with the rows that it has fetched
abbrev pub to_page : Loads → ℕ → List EventRow → Result Page
to_page loads limit rows =
    page_of (event_views loads (take limit rows)) (ltb limit (length rows))
      (last_id (take limit rows))

-- `query_audit`
unfoldable pub query_audit : Loads → Bool → Bool → String → ℕ → ℕ → EventTable → Result Page
unfolding select_events event_view
query_audit loads pool connected org_id limit cursor table =
    if pool && connected
    then to_page loads limit (select_events org_id cursor (suc limit) table.rows)
    else ok ([], none)
