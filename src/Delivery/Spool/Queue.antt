-- ===== src/Delivery/Spool/Queue.antt =====
-- src/delivery/spool.js: the event queue's writes.
use sidewisp_plugin.Prelude.{
  ℕ, suc, ◌+◌, String, len, Bool, true, false, not, ◌&&◌, Option, none, some, List, [], ◌∷◌, map,
  ltb, is_some, if◌then◌else◌, filter, length, ◌==◌,
}
use sidewisp_plugin.Prelude.Table.{insert_or_ignore, upsert, find}
use sidewisp_plugin.Delivery.Spool.{
  Event, Row, CursorRow, DeadLetter, Tables, Sqlite, Spool, Clock, Result, ok, throw, type_error,
  callback_error,
}
use sidewisp_plugin.Delivery.Spool.Quota.{commit, compact, delete_acknowledged, assert_quota}

abbrev pub row_id : Row → String
row_id r = r.event_id

abbrev pub cursor_id : CursorRow → String
cursor_id r = r.source

abbrev pub letter_id : DeadLetter → String
letter_id r = r.event_id

-- The sum of `Buffer.byteLength(item.payload)`.
unfoldable pub batch_bytes : List Event → ℕ
batch_bytes [] = 0
batch_bytes (e ∷ es) = len e.json + batch_bytes es

abbrev pub new_row : String → String → ℕ → Event → Row
new_row source cursor now e = record {
  event_id = e.event_id;
  payload = e;
  source = source;
  cursor = cursor;
  created_at = now;
  acked_at = none;
}

-- The loop of `insert.run`: the row number `i` reads the clock at `i`.
unfoldable pub insert_events : String → String → Clock → ℕ → List Event → List Row → List Row
unfolding insert_or_ignore
insert_events source cursor clock i [] rows = rows
insert_events source cursor clock i (e ∷ es) rows =
    insert_events source cursor clock (suc i) es
      (insert_or_ignore row_id (new_row source cursor (clock i) e) rows)

unfoldable pub set_cursor : String → String → ℕ → List CursorRow → List CursorRow
unfolding upsert
set_cursor source cursor now =
    upsert cursor_id (record { source = source; value = cursor; updated_at = now })

-- The tables that the transaction of `enqueueSourceBatch` commits.
unfoldable pub enqueued : String → String → Clock → List Event → Tables → Tables
unfolding insert_events set_cursor
enqueued source cursor clock events t = record t {
  events = insert_events source cursor clock 1 events t.events;
  cursors = set_cursor source cursor (clock (suc (length events))) t.cursors;
}

abbrev pub write_batch :
    Sqlite
    → String
    → String
    → Clock
    → List Event
    → Bool
    → Spool × Result (Unit {0})
    → Spool × Result (Unit {0})
write_batch db source cursor clock events callback (s, throw e) = (s, throw e)
write_batch db source cursor clock events false (s, ok _) = (s, throw callback_error)
write_batch db source cursor clock events true (s, ok _) =
    (commit db (enqueued source cursor clock events s.tables) s, ok tt)

-- `callback` says whether `beforeCommit` returns; if it throws, the transaction is rolled back.
-- Reading 0 of the clock is the quota's, and the rows and the cursor have those that follow.
unfoldable pub enqueue_source_batch :
    Sqlite → String → String → Clock → List Event → Bool → Spool → Spool × Result (Unit {0})
unfolding batch_bytes enqueued assert_quota
enqueue_source_batch db source cursor clock [] callback s =
    (s, throw (type_error "events must be non-empty"))
enqueue_source_batch db source cursor clock (e ∷ es) callback s =
    write_batch db source cursor clock (e ∷ es) callback
      (assert_quota db (clock 0) (batch_bytes (e ∷ es)) s)

abbrev value_of : Option CursorRow → Option String
value_of none = none
value_of (some r) = some r.value

unfoldable pub cursor : String → Spool → Option String
unfolding find
cursor source s = value_of (find cursor_id source s.tables.cursors)

unfoldable pub advance_cursor : Sqlite → String → String → ℕ → Spool → Spool
unfolding set_cursor commit
advance_cursor db source value now s =
    commit db (record s.tables { cursors = set_cursor source value now s.tables.cursors }) s

-- `UPDATE events SET acked_at=? WHERE event_id=? AND acked_at IS NULL`
abbrev pub acked : String → ℕ → Row → Row
acked id now r =
    if r.event_id == id && not (is_some r.acked_at) then record r { acked_at = some now } else r

-- `update.run(now(), id).changes` for a primary key: 1 or 0.
abbrev pub ack_changes : String → List Row → ℕ
ack_changes id rows = length (filter (λ r. r.event_id == id && not (is_some r.acked_at)) rows)

unfoldable pub ack_events : Clock → ℕ → List String → List Row → List Row × ℕ
ack_events clock i [] rows = (rows, 0)
ack_events clock i (id ∷ ids) rows =
    let (rows', n) = ack_events clock (suc i) ids (map (acked id (clock i)) rows) in
    (rows', ack_changes id rows + n)

unfoldable pub acknowledge : Sqlite → Clock → List String → Spool → Spool × ℕ
unfolding ack_events delete_acknowledged commit compact
acknowledge db clock ids s =
    let (rows, acknowledged) = ack_events clock 0 ids s.tables.events in
    let (t, pruned) =
      delete_acknowledged (clock (length ids)) s.retention_ms (record s.tables { events = rows }) in
    let s' = commit db t s in (if ltb 0 pruned then compact db s' else s', acknowledged)

-- `INSERT OR REPLACE INTO dead_letters`, then `DELETE FROM events`.
unfoldable pub dead_letter : Sqlite → ℕ → String → String → Spool → Spool
unfolding upsert commit
dead_letter db now id reason s =
    commit db
      (record s.tables {
        events = filter (λ r. not (r.event_id == id)) s.tables.events;
        dead_letters =
            upsert letter_id (record { event_id = id; reason = reason; created_at = now })
              s.tables.dead_letters;
      })
      s
