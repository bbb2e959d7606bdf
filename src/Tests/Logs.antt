-- ===== src/Tests/Logs.antt =====
-- The audit log of the PostgreSQL store at concrete data.
use mock_idp.Common.{ℕ, suc, String, true, none, some, ◌≡◌, refl, List, [], ◌∷◌, length, arith}
use mock_idp.Int.{pos}
use mock_idp.Dict.{lookup}
use mock_idp.Text.{strip, parse_int}
use mock_idp.Value.{Value, fields, str, int, dict, null, field, end, Claims}
use mock_idp.Store.Postgres.{absent, object, parse_jsonb}
use mock_idp.Store.Postgres.Events.{
  EventRow, EventTable, Writing, event_row, columns, bigint_column, event_view, event_views,
  query_audit,
}
use mock_idp.Store.Postgres.Events.Order.{PrimaryKey}
use mock_idp.Store.Postgres.Events.Follow.{follow, IsPage, query_audit-IsPage}
use mock_idp.Store.Postgres.Events.Written.{write_events, own_rows, empty_log, follow-write_events}
use mock_idp.Tests.Databases.{demo_loads}

abbrev demo_writing : Writing
demo_writing = record { dumps_jsonb = λ event. object event; stamp = "2026-01-01T00:00:00+00:00" }

abbrev three_events : List (String × Claims)
three_events =
    ("default", ("sub", str "first") ∷ ("jti", str "j1") ∷ [])
    ∷ ("acme", ("sub", str "second") ∷ [])
    ∷ ("default", ("aud", dict (field "x" null end)) ∷ [])
    ∷ ("default", ("sub", str "third") ∷ ("exp", str "12") ∷ [])
    ∷ []

-- the third event is refused, and the second is another organisation's
abbrev shown_event : ℕ → String → Value → ℕ → Claims → Claims
shown_event id sub jti exp raw =
    ("id", int (pos id))
    ∷ ("org_id", str "default")
    ∷ ("issuer", str "")
    ∷ ("grant_type", str "")
    ∷ ("sub", str sub)
    ∷ ("aud", null)
    ∷ ("iat", int (pos 0))
    ∷ ("exp", int (pos exp))
    ∷ ("jti", jti)
    ∷ ("raw_claims", dict (fields raw))
    ∷ ("created_at", str "2026-01-01T00:00:00+00:00")
    ∷ []

abbrev shown_events : List Claims
shown_events =
    shown_event 1 "first" (str "j1") 0 (("sub", str "first") ∷ ("jti", str "j1") ∷ [])
    ∷ shown_event 3 "third" null 12 (("sub", str "third") ∷ ("exp", str "12") ∷ [])
    ∷ []

events_viewed :
    event_views demo_loads (own_rows demo_writing "default" 1 three_events) ≡ some shown_events
unfolding own_rows event_row columns bigint_column event_view parse_jsonb parse_int strip lookup
events_viewed = refl

abbrev demo_log : EventTable
demo_log = write_events demo_writing three_events empty_log

follow-write_events_example :
    follow (suc (length demo_log.rows)) demo_loads "default" 1 0 demo_log ≡ some shown_events
follow-write_events_example =
    follow-write_events demo_loads demo_writing "default" 1 three_events (omega arith) events_viewed

-- two rows that do not stand in the order of their ids
abbrev event_with : ℕ → EventRow
event_with id = record {
  id = id;
  org_id = "default";
  issuer = "corp";
  grant_type = "password";
  sub = "bob";
  aud = none;
  iat = pos 0;
  exp = pos 0;
  jti = none;
  raw_claims = absent;
  created_at = "";
}

abbrev two_rows : EventTable
two_rows = record { rows = event_with 7 ∷ event_with 4 ∷ []; next_id = 8 }

two_rows-key : PrimaryKey two_rows.rows
two_rows-key = ((λ e. absurd (omega arith), tt), (tt, tt))

query_audit-IsPage_example : IsPage 1 2 (query_audit demo_loads true true "default" 1 2 two_rows)
query_audit-IsPage_example =
    query_audit-IsPage demo_loads true true "default" 1 2 two_rows two_rows-key
