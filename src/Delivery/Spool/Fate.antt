-- ===== src/Delivery/Spool/Fate.antt =====
-- src/delivery/spool.js: what can happen to an event that waits for delivery.
use sidewisp_plugin.Prelude.{
  ℕ, String, len, ◌≡◌, refl, ap, ◌⊎◌, inl, inr, Bool, true, false, not, none, some, List, [], ◌∷◌,
  ◌++◌, map, arith, filter, All-map, All-append_left, length, contains, Bool-cases, ◌==◌, eq_iff,
}
use sidewisp_plugin.Prelude.Table.{find, find-filter, find-upsert, find_selected, IsKeyed}
use sidewisp_plugin.Delivery.Spool.{Event, Row, Tables, Item, event, Sqlite, Spool, Clock}
use sidewisp_plugin.Delivery.Spool.Quota
use sidewisp_plugin.Delivery.Spool.Quota.{
  is_expired, delete_acknowledged, commit, compact, assert_quota,
}
use sidewisp_plugin.Delivery.Spool.Queue
use sidewisp_plugin.Delivery.Spool.Queue.{
  row_id, letter_id, enqueued, insert_events, batch_bytes, ack_events,
}
use sidewisp_plugin.Delivery.Spool.Coalesce
use sidewisp_plugin.Delivery.Spool.Quarantine
use sidewisp_plugin.Delivery.Spool.Quarantine.{
  is_foreign, is_archived, foreign_items, save_items, without_foreign, move_foreign, has_foreign,
}
use sidewisp_plugin.Delivery.Spool.Rows.{
  find_row, find_row-id, insert_events_keeps, ack_events_keeps, ack_events-IsKeyed,
}
use sidewisp_plugin.Delivery.Spool.Keys.{AreKeyed, run-AreKeyed}
use sidewisp_plugin.Delivery.Spool.Archive.{save_items_saves, save_items_keeps}
use sidewisp_plugin.Delivery.Spool.Operation.{
  Operation, enqueue_source_batch, advance_cursor, acknowledge, dead_letter,
  coalesce_runtime_diagnostic, acknowledge_runtime_diagnostic, coalesce_usage_batch,
  acknowledge_usage_batch, quarantine_other_installations, prune, run, run_all,
}

-- How an operation that ends in `s` can have taken the waiting row `r` with id `k` off the queue.
abbrev pub Left : Operation → Spool → String → Row → Type 0
Left (acknowledge clock ids) s k r = contains k ids ≡ true
Left (dead_letter now id reason) s k r =
    find letter_id k s.tables.dead_letters
    ≡ some (record { event_id = k; reason = reason; created_at = now })
Left (quarantine_other_installations clock active) s k r =
    (is_foreign active r ≡ true) × (is_archived (event r) s.archive ≡ true)
Left _ s k r = ⊥

abbrev pub KeptOrLeft : Sqlite → Operation → Spool → String → Row → Type 0
KeptOrLeft db op s k r =
    (find_row k (run db op s).tables.events ≡ some r) ⊎ Left op (run db op s) k r

-- The row of id `k` waits.
pub record Waits (s : Spool) (k : String) (r : Row) : Type 0 where
  pub keyed : AreKeyed s.tables
  pub stored : find_row k s.tables.events ≡ some r
  pub unacked : r.acked_at ≡ none

module _ (now retention : ℕ) (t : Tables) (k : String) (r : Row) where
  pub delete_acknowledged_keeps :
      IsKeyed row_id t.events
      → find_row k t.events ≡ some r
      → r.acked_at ≡ none
      → find_row k (delete_acknowledged now retention t).0.events ≡ some r
  unfolding delete_acknowledged
  delete_acknowledged_keeps keyed h u =
      ground (arith, find-filter row_id k (λ q. not (is_expired now retention q)) t.events keyed)

module _ (db : Sqlite) (s : Spool) (k : String) (r : Row) (w : Waits s k r) where
  prune_keeps : (now : ℕ) → find_row k (Quota.prune db now s).0.tables.events ≡ some r
  unfolding Quota.prune
  prune_keeps now =
      ground (arith, delete_acknowledged_keeps now s.retention_ms s.tables k r w.keyed.events)

  assert_quota_keeps :
      (now extra : ℕ) → find_row k (assert_quota db now extra s).0.tables.events ≡ some r
  unfolding assert_quota
  assert_quota_keeps now extra = ground (arith, prune_keeps now)

  enqueue_keeps :
      (source cursor : String) (clock : Clock) (es : List Event) (callback : Bool)
      → find_row k (Queue.enqueue_source_batch db source cursor clock es callback s).0.tables.events
        ≡ some r
  unfolding Queue.enqueue_source_batch
  enqueue_keeps source cursor clock [] callback = w.stored
  enqueue_keeps source cursor clock (e ∷ es) callback =
      let extra = batch_bytes (e ∷ es) in
      let (s', result) = assert_quota db (clock 0) extra s in
      ground (
        arith,
        assert_quota_keeps (clock 0) extra,
        insert_events_keeps source cursor clock 1 (e ∷ es) s'.tables.events k r,
      )

  acknowledge_keeps :
      (clock : Clock) (ids : List String)
      → contains k ids ≡ false
      → find_row k (Queue.acknowledge db clock ids s).0.tables.events ≡ some r
  unfolding Queue.acknowledge
  acknowledge_keeps clock ids h =
      let rows = (ack_events clock 0 ids s.tables.events).0 in
      ground (
        arith,
        ack_events_keeps clock 0 ids s.tables.events k h,
        ack_events-IsKeyed clock 0 ids s.tables.events w.keyed.events,
        delete_acknowledged_keeps (clock (length ids)) s.retention_ms
            (record s.tables { events = rows }) k r,
      )

module _ (db : Sqlite) (clock : Clock) (active : String) (s : Spool) (k : String) (r : Row) where
  -- The archive after the move holds every foreign row.
  pub move_foreign_archives :
      find_row k s.tables.events ≡ some r
      → is_foreign active r ≡ true
      → is_archived (event r) (move_foreign db clock active s).archive ≡ true
  unfolding move_foreign
  move_foreign_archives h f =
      let archived = λ (x : Item).
        is_archived x (save_items clock 0 (foreign_items active s.tables) s.archive) ≡ true in
      find_selected row_id (λ q. archived (event q)) (is_foreign active) k s.tables.events r
        (All-map archived event (filter (is_foreign active) s.tables.events) (
          All-append_left archived (map event (filter (is_foreign active) s.tables.events)) _
            (save_items_saves clock 0 (foreign_items active s.tables) s.archive)))
        h f

  pub move_foreign_keeps :
      IsKeyed row_id s.tables.events
      → find_row k s.tables.events ≡ some r
      → is_foreign active r ≡ false
      → find_row k (move_foreign db clock active s).tables.events ≡ some r
  unfolding move_foreign
  move_foreign_keeps keyed h f =
      ground (arith, find-filter row_id k (λ q. not (is_foreign active q)) s.tables.events keyed)

module _ (db : Sqlite) (s : Spool) (k : String) (r : Row) (w : Waits s k r) where
  quarantine-KeptOrLeft :
      (clock : Clock) (active : String)
      → KeptOrLeft db (quarantine_other_installations clock active) s k r
  unfolding run Quarantine.quarantine_other_installations
  quarantine-KeptOrLeft clock active = elim (Bool-cases (is_foreign active r)) [
    | inl foreign ↦
        ground (arith, move_foreign_archives db clock active s k r w.stored foreign, w.stored)
    | inr own ↦ ground (arith, move_foreign_keeps db clock active s k r w.keyed.events w.stored own)
  ]

-- In a spool with distinct keys, an operation leaves a waiting event where it is, with nothing of
-- its row changed, unless it is an acknowledgement that names the event, or puts the event among
-- the dead letters with the reason given, or moves an event of another installation to the
-- archive, where it then is.
pub run-KeptOrLeft :
    (db : Sqlite) (op : Operation) (s : Spool) (k : String) (r : Row)
    → Waits s k r
    → KeptOrLeft db op s k r
unfolding run
run-KeptOrLeft db (enqueue_source_batch source cursor clock es callback) s k r w =
    inl (enqueue_keeps db s k r w source cursor clock es callback)
run-KeptOrLeft db (advance_cursor source value now) s k r w =
    inl (unfold Queue.advance_cursor in w.stored)
run-KeptOrLeft db (acknowledge clock ids) s k r w = elim (Bool-cases (contains k ids)) [
  | inl named ↦ inr named
  | inr other ↦ inl (acknowledge_keeps db s k r w clock ids other)
]
run-KeptOrLeft db (dead_letter now id reason) s k r w = elim (Bool-cases (id == k)) [
  | inl same ↦ inr (
      unfold Queue.dead_letter in
      ground (
        arith,
        find-upsert letter_id k (record { event_id = id; reason = reason; created_at = now })
            s.tables.dead_letters,
        eq_iff id k,
      ))
  | inr other ↦ inl (
      unfold Queue.dead_letter in
      ground (
        arith,
        find-filter row_id k (λ q. not (q.event_id == id)) s.tables.events w.keyed.events,
        find_row-id k s.tables.events r w.stored,
        eq_iff r.event_id id,
        eq_iff id k,
      ))
]
run-KeptOrLeft db (coalesce_runtime_diagnostic installation snapshot payload now) s k r w = inl (
    unfold Coalesce.coalesce_runtime_diagnostic in
    ground (arith, assert_quota_keeps db s k r w now (len payload)))
run-KeptOrLeft db (acknowledge_runtime_diagnostic installation snapshot) s k r w = inl w.stored
run-KeptOrLeft db (coalesce_usage_batch installation batch payload now) s k r w = inl (
    unfold Coalesce.coalesce_usage_batch in
    ground (arith, assert_quota_keeps db s k r w now (len payload)))
run-KeptOrLeft db (acknowledge_usage_batch installation batch) s k r w = inl w.stored
run-KeptOrLeft db (quarantine_other_installations clock active) s k r w =
    quarantine-KeptOrLeft db s k r w clock active
run-KeptOrLeft db (prune now) s k r w = inl (prune_keeps db s k r w now)

-- The operation of a run by which the row left the queue, with what stands before and after it.
pub record LeftBy (db : Sqlite) (ops : List Operation) (s : Spool) (k : String) (r : Row)
    : Type 0 where
  pub before : List Operation
  pub op : Operation
  pub after : List Operation
  pub split : ops ≡ before ++ op ∷ after
  pub left : Left op (run db op (run_all db before s)) k r

-- Over any run of operations, a waiting event is still there at the end with its row unchanged, or
-- one of the operations acknowledged it, made it a dead letter, or archived it.
pub run_all-kept :
    (db : Sqlite) (ops : List Operation) (s : Spool) (k : String) (r : Row)
    → Waits s k r
    → (find_row k (run_all db ops s).tables.events ≡ some r) ⊎ LeftBy db ops s k r
unfolding run_all
run_all-kept db [] s k r w = inl w.stored
run_all-kept db (op ∷ ops) s k r w = elim (run-KeptOrLeft db op s k r w) [
  | inr left ↦ inr (record { before = []; op = op; after = ops; split = refl; left = left })
  | inl stays ↦
      elim (run_all-kept db ops (run db op s) k r
        (record { keyed = run-AreKeyed db op s w.keyed; stored = stays; unacked = w.unacked })) [
          | inl end ↦ inl end
          | inr l ↦ inr (record {
            before = op ∷ l.before;
            op = l.op;
            after = l.after;
            split = ap (◌∷◌ op) l.split;
            left = l.left;
          })
        ]
]

-- What the archive holds, it holds after every operation.
pub run_archive_keeps :
    (db : Sqlite) (op : Operation) (s : Spool) (x : Item)
    → is_archived x s.archive ≡ true
    → is_archived x (run db op s).archive ≡ true
unfolding run
run_archive_keeps db (quarantine_other_installations clock active) s x h =
    ground (arith, save_items_keeps clock 0 x (foreign_items active s.tables) s.archive h)
run_archive_keeps db (enqueue_source_batch source cursor clock [] callback) s x h = h
run_archive_keeps db _ s x h = ground arith
