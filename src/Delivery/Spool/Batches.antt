-- ===== src/Delivery/Spool/Batches.antt =====
-- src/delivery/spool.js: `enqueueSourceBatch` as a transaction under a quota, and acknowledgement.
use sidewisp_plugin.Prelude.{
  ℕ, suc, ◌+◌, ◌≤◌, String, ◌≡◌, refl, ◌⊎◌, inl, Bool, true, false, not, none, some, List, [], ◌∷◌,
  arith, is_some, length, contains, All, eq_refl,
}
use sidewisp_plugin.Prelude.Table.{find-upsert, find-filter}
use sidewisp_plugin.Delivery.Spool.{Event, Row, Sqlite, Spool, Clock, Result, ok, throw}
use sidewisp_plugin.Delivery.Spool.Quota
use sidewisp_plugin.Delivery.Spool.Quota.{
  is_expired, delete_acknowledged, commit, compact, assert_quota,
}
use sidewisp_plugin.Delivery.Spool.Queue.{
  row_id, cursor_id, enqueued, set_cursor, batch_bytes, write_batch, enqueue_source_batch, cursor,
  ack_events, acknowledge,
}
use sidewisp_plugin.Delivery.Spool.Rows.{
  find_row, insert_events_stores, ack_events_acks, ack_events-IsKeyed,
}
use sidewisp_plugin.Delivery.Spool.Keys.{AreKeyed}

-- The spool that `assertQuota` leaves: the same, or one that has lost expired rows.
abbrev pub AfterQuota : Sqlite → ℕ → Spool → Spool → Type 0
AfterQuota db now s q = (q ≡ s) ⊎ (q ≡ (Quota.prune db now s).0)

-- What `enqueueSourceBatch` leaves, on success and on each of its errors.
abbrev pub Outcome :
    Sqlite
    → (source cursor : String) → Clock
    → List Event
    → Spool
    → Spool
    → Result (Unit {0})
    → Type 0
Outcome db source value clock events s s' (ok _) =
    (q : Spool) × AfterQuota db (clock 0) s q
    × (q.files.disk_usage + batch_bytes events ≤ q.max_bytes)
    × (s' ≡ commit db (enqueued source value clock events q.tables) q)
    × All (λ e. is_some (find_row e.event_id s'.tables.events) ≡ true) events
    × (cursor source s' ≡ some value)
Outcome db source value clock events s s' (throw e) = AfterQuota db (clock 0) s s'

quota-AfterQuota :
    (db : Sqlite) (now extra : ℕ) (s : Spool) → AfterQuota db now s (assert_quota db now extra s).0
unfolding assert_quota
quota-AfterQuota db now extra s = ground arith

quota_fits :
    (db : Sqlite) (now extra : ℕ) (s : Spool)
    → (assert_quota db now extra s).1 ≡ ok tt
    → (assert_quota db now extra s).0.files.disk_usage + extra
      ≤ (assert_quota db now extra s).0.max_bytes
unfolding assert_quota
quota_fits db now extra s h = ground arith

cursor-commit :
    (db : Sqlite) (source value : String) (clock : Clock) (events : List Event) (q : Spool)
    → cursor source (commit db (enqueued source value clock events q.tables) q) ≡ some value
unfolding cursor commit enqueued set_cursor
cursor-commit db source value clock events q = ground (
  arith,
  find-upsert cursor_id source
      (record { source = source; value = value; updated_at = clock (suc (length events)) })
      q.tables.cursors,
  eq_refl source,
)

stored-commit :
    (db : Sqlite) (source value : String) (clock : Clock) (events : List Event) (q : Spool)
    → All
        (λ e.
          is_some (
            find_row e.event_id
              (commit db (enqueued source value clock events q.tables) q).tables.events)
          ≡ true)
        events
unfolding commit enqueued
stored-commit db source value clock events q =
    insert_events_stores source value clock 1 events q.tables.events

module _ (db : Sqlite) (source value : String) (clock : Clock) where
  -- When `enqueueSourceBatch` returns, the batch fitted into the quota, every event of it is
  -- stored under its id, and the cursor of its source is the new one, in one commit. When it
  -- throws, on an empty batch, by the quota or by the callback, the spool is as it was, but for
  -- expired rows that the quota may have removed.
  pub enqueue-Outcome :
      (events : List Event) (callback : Bool) (s : Spool)
      → Outcome db source value clock events s
          (enqueue_source_batch db source value clock events callback s).0
          (enqueue_source_batch db source value clock events callback s).1
  unfolding enqueue_source_batch
  enqueue-Outcome [] callback s = inl refl
  enqueue-Outcome (e ∷ es) callback s =
      outcome callback (assert_quota db (clock 0) (batch_bytes (e ∷ es)) s)
        (quota-AfterQuota db (clock 0) (batch_bytes (e ∷ es)) s)
        (quota_fits db (clock 0) (batch_bytes (e ∷ es)) s)
    where
      outcome :
          (callback : Bool) (p : Spool × Result (Unit {0}))
          → AfterQuota db (clock 0) s p.0
          → (p.1 ≡ ok tt → p.0.files.disk_usage + batch_bytes (e ∷ es) ≤ p.0.max_bytes)
          → Outcome db source value clock
              (e ∷ es)
              s
              (write_batch db source value clock (e ∷ es) callback p).0
              (write_batch db source value clock (e ∷ es) callback p).1
      outcome callback (q, throw x) a f = a
      outcome false (q, ok _) a f = a
      outcome true (q, ok _) a f = (
        q,
        a,
        f refl,
        refl,
        stored-commit db source value clock (e ∷ es) q,
        cursor-commit db source value clock (e ∷ es) q,
      )

-- After an acknowledgement that names a waiting event, on a spool that keeps acknowledged rows for
-- no time and with a clock that does not go back, the row of the event is gone.
pub find-acknowledge :
    (db : Sqlite) (clock : Clock) (ids : List String) (s : Spool) (k : String) (r : Row)
    → AreKeyed s.tables
    → ((i j : ℕ) → i ≤ j → clock i ≤ clock j)
    → s.retention_ms ≡ 0
    → find_row k s.tables.events ≡ some r
    → r.acked_at ≡ none
    → contains k ids ≡ true
    → find_row k (acknowledge db clock ids s).0.tables.events ≡ none
unfolding acknowledge delete_acknowledged
find-acknowledge db clock ids s k r keyed mono zero_retention h u c =
    let (j, low, high, found) = ack_events_acks clock 0 ids s.tables.events k r h u c in
    ground (
      arith,
      found,
      mono j (length ids),
      find-filter row_id k (λ q. not (is_expired (clock (length ids)) s.retention_ms q))
          (ack_events clock 0 ids s.tables.events).0
          (ack_events-IsKeyed clock 0 ids s.tables.events keyed.events),
    )
