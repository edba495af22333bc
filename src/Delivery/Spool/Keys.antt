-- ===== src/Delivery/Spool/Keys.antt =====
-- src/delivery/spool.js: the primary keys of the spool's tables, through every operation.
use sidewisp_plugin.Prelude.{ℕ, String, len, Bool, List, [], ◌∷◌, arith, length}
use sidewisp_plugin.Prelude.Table.{IsKeyed, IsKeyed-filter, IsKeyed-upsert}
use sidewisp_plugin.Delivery.Spool.{Event, Tables, Sqlite, Spool, Clock}
use sidewisp_plugin.Delivery.Spool.Quota
use sidewisp_plugin.Delivery.Spool.Quota.{
  is_expired, delete_acknowledged, commit, compact, assert_quota,
}
use sidewisp_plugin.Delivery.Spool.Queue
use sidewisp_plugin.Delivery.Spool.Queue.{
  row_id, cursor_id, letter_id, enqueued, set_cursor, batch_bytes, ack_events,
}
use sidewisp_plugin.Delivery.Spool.Coalesce
use sidewisp_plugin.Delivery.Spool.Coalesce.{pending_id, new_pending}
use sidewisp_plugin.Delivery.Spool.Quarantine
use sidewisp_plugin.Delivery.Spool.Quarantine.{without_foreign, move_foreign}
use sidewisp_plugin.Delivery.Spool.Rows.{insert_events-IsKeyed, ack_events-IsKeyed}
use sidewisp_plugin.Delivery.Spool.Operation.{
  Operation, enqueue_source_batch, advance_cursor, acknowledge, dead_letter,
  coalesce_runtime_diagnostic, acknowledge_runtime_diagnostic, coalesce_usage_batch,
  acknowledge_usage_batch, quarantine_other_installations, prune, run, run_all,
}

-- Every table holds at most one row for each value of its primary key.
pub record AreKeyed (t : Tables) : Type 0 where
  pub events : IsKeyed row_id t.events
  pub cursors : IsKeyed cursor_id t.cursors
  pub dead_letters : IsKeyed letter_id t.dead_letters
  pub diagnostics : IsKeyed pending_id t.diagnostics
  pub usage : IsKeyed pending_id t.usage

delete_acknowledged-AreKeyed :
    (now retention : ℕ) (t : Tables) → AreKeyed t → AreKeyed (delete_acknowledged now retention t).0
unfolding delete_acknowledged
delete_acknowledged-AreKeyed now retention t h = record {
  events = IsKeyed-filter row_id _ t.events h.events;
  cursors = h.cursors;
  dead_letters = h.dead_letters;
  diagnostics = h.diagnostics;
  usage = h.usage;
}

enqueued-AreKeyed :
    (source cursor : String) (clock : Clock) (es : List Event) (t : Tables)
    → AreKeyed t
    → AreKeyed (enqueued source cursor clock es t)
unfolding enqueued set_cursor
enqueued-AreKeyed source cursor clock es t h = record {
  events = insert_events-IsKeyed source cursor clock 1 es t.events h.events;
  cursors = IsKeyed-upsert cursor_id _ t.cursors h.cursors;
  dead_letters = h.dead_letters;
  diagnostics = h.diagnostics;
  usage = h.usage;
}

module _ (db : Sqlite) (s : Spool) (h : AreKeyed s.tables) where
  prune-AreKeyed : (now : ℕ) → AreKeyed (Quota.prune db now s).0.tables
  unfolding Quota.prune
  prune-AreKeyed now = ground (arith, delete_acknowledged-AreKeyed now s.retention_ms s.tables h)

  pub assert_quota-AreKeyed : (now extra : ℕ) → AreKeyed (assert_quota db now extra s).0.tables
  unfolding assert_quota
  assert_quota-AreKeyed now extra = ground (arith, prune-AreKeyed now)

  enqueue-AreKeyed :
      (source cursor : String) (clock : Clock) (es : List Event) (callback : Bool)
      → AreKeyed (Queue.enqueue_source_batch db source cursor clock es callback s).0.tables
  unfolding Queue.enqueue_source_batch
  enqueue-AreKeyed source cursor clock [] callback = h
  enqueue-AreKeyed source cursor clock (e ∷ es) callback =
      let extra = batch_bytes (e ∷ es) in
      let kept = assert_quota-AreKeyed (clock 0) extra in
      let (s', r) = assert_quota db (clock 0) extra s in
      unfold commit in
      ground (arith, kept, enqueued-AreKeyed source cursor clock (e ∷ es) s'.tables)

  acknowledge-AreKeyed :
      (clock : Clock) (ids : List String) → AreKeyed (Queue.acknowledge db clock ids s).0.tables
  unfolding Queue.acknowledge
  acknowledge-AreKeyed clock ids =
      let rows = (ack_events clock 0 ids s.tables.events).0 in
      ground (
        arith,
        delete_acknowledged-AreKeyed (clock (length ids)) s.retention_ms
            (record s.tables { events = rows })
            (record {
              events = ack_events-IsKeyed clock 0 ids s.tables.events h.events;
              cursors = h.cursors;
              dead_letters = h.dead_letters;
              diagnostics = h.diagnostics;
              usage = h.usage;
            }),
      )

  dead_letter-AreKeyed :
      (now : ℕ) (id reason : String) → AreKeyed (Queue.dead_letter db now id reason s).tables
  unfolding Queue.dead_letter
  dead_letter-AreKeyed now id reason = record {
    events = IsKeyed-filter row_id _ s.tables.events h.events;
    cursors = h.cursors;
    dead_letters = IsKeyed-upsert letter_id _ s.tables.dead_letters h.dead_letters;
    diagnostics = h.diagnostics;
    usage = h.usage;
  }

  coalesce_diagnostic-AreKeyed :
      (installation snapshot payload : String) (now : ℕ)
      → AreKeyed
          (Coalesce.coalesce_runtime_diagnostic db installation snapshot payload now s).0.tables
  unfolding Coalesce.coalesce_runtime_diagnostic
  coalesce_diagnostic-AreKeyed installation snapshot payload now =
      let (s', r) = assert_quota db now (len payload) s in
      ground (
        arith,
        assert_quota-AreKeyed now (len payload),
        IsKeyed-upsert pending_id (new_pending installation snapshot payload now)
            s'.tables.diagnostics,
      )

  coalesce_usage-AreKeyed :
      (installation batch payload : String) (now : ℕ)
      → AreKeyed (Coalesce.coalesce_usage_batch db installation batch payload now s).0.tables
  unfolding Coalesce.coalesce_usage_batch
  coalesce_usage-AreKeyed installation batch payload now =
      let (s', r) = assert_quota db now (len payload) s in
      ground (
        arith,
        assert_quota-AreKeyed now (len payload),
        IsKeyed-upsert pending_id (new_pending installation batch payload now) s'.tables.usage,
      )

  without_foreign-AreKeyed : (active : String) → AreKeyed (without_foreign active s.tables)
  unfolding without_foreign
  without_foreign-AreKeyed active = record {
    events = IsKeyed-filter row_id _ s.tables.events h.events;
    cursors = h.cursors;
    dead_letters = h.dead_letters;
    diagnostics = IsKeyed-filter pending_id _ s.tables.diagnostics h.diagnostics;
    usage = IsKeyed-filter pending_id _ s.tables.usage h.usage;
  }

  quarantine-AreKeyed :
      (clock : Clock) (active : String)
      → AreKeyed (Quarantine.quarantine_other_installations db clock active s).0.tables
  unfolding Quarantine.quarantine_other_installations
  quarantine-AreKeyed clock active = ground (arith, without_foreign-AreKeyed active)

-- Every operation of the spool, whether it returns or throws, keeps the primary keys of all five
-- tables distinct.
pub run-AreKeyed :
    (db : Sqlite) (op : Operation) (s : Spool) → AreKeyed s.tables → AreKeyed (run db op s).tables
unfolding run
run-AreKeyed db (enqueue_source_batch source cursor clock es callback) s h =
    enqueue-AreKeyed db s h source cursor clock es callback
run-AreKeyed db (advance_cursor source value now) s h = record {
  events = h.events;
  cursors = unfold set_cursor in IsKeyed-upsert cursor_id _ s.tables.cursors h.cursors;
  dead_letters = h.dead_letters;
  diagnostics = h.diagnostics;
  usage = h.usage;
}
run-AreKeyed db (acknowledge clock ids) s h = acknowledge-AreKeyed db s h clock ids
run-AreKeyed db (dead_letter now id reason) s h = dead_letter-AreKeyed db s h now id reason
run-AreKeyed db (coalesce_runtime_diagnostic installation snapshot payload now) s h =
    coalesce_diagnostic-AreKeyed db s h installation snapshot payload now
run-AreKeyed db (acknowledge_runtime_diagnostic installation snapshot) s h = record {
  events = h.events;
  cursors = h.cursors;
  dead_letters = h.dead_letters;
  diagnostics = IsKeyed-filter pending_id _ s.tables.diagnostics h.diagnostics;
  usage = h.usage;
}
run-AreKeyed db (coalesce_usage_batch installation batch payload now) s h =
    coalesce_usage-AreKeyed db s h installation batch payload now
run-AreKeyed db (acknowledge_usage_batch installation batch) s h = record {
  events = h.events;
  cursors = h.cursors;
  dead_letters = h.dead_letters;
  diagnostics = h.diagnostics;
  usage = IsKeyed-filter pending_id _ s.tables.usage h.usage;
}
run-AreKeyed db (quarantine_other_installations clock active) s h =
    quarantine-AreKeyed db s h clock active
run-AreKeyed db (prune now) s h = prune-AreKeyed db s h now

-- Any run of operations from a spool whose five tables have distinct primary keys ends in one whose
-- five tables have them too, errors on the way included.
pub run_all-AreKeyed :
    (db : Sqlite) (ops : List Operation) (s : Spool)
    → AreKeyed s.tables
    → AreKeyed (run_all db ops s).tables
unfolding run_all
run_all-AreKeyed db [] s h = h
run_all-AreKeyed db (op ∷ ops) s h = run_all-AreKeyed db ops (run db op s) (run-AreKeyed db op s h)
