-- ===== src/Delivery/Diagnostics/Latest.antt =====
-- src/delivery/runtime-diagnostics.js: the latest snapshot is kept until the server has it.
use sidewisp_plugin.Prelude.{
  ℕ, ◌+◌, ◌*◌, ◌<◌, min, ◌≡◌, refl, ap, ◌∙◌, inl, inr, String, Bool, true, false, not, ◌&&◌, ◌||◌,
  ◌==◌, Option, none, some, arith, leb, ltb, eqb, if◌then◌else◌, eq_iff, eq_refl, Bool-cases,
}
use sidewisp_plugin.Prelude.Table.{find, guarded, IsKeyed, find-filter}
use sidewisp_plugin.Delivery.Spool.{PendingRow, Sqlite, Spool, Result, ok, throw}
use sidewisp_plugin.Delivery.Spool.Coalesce.{
  pending_id, document, is_document, coalesce_runtime_diagnostic, pending_runtime_diagnostic,
  acknowledge_runtime_diagnostic,
}
use sidewisp_plugin.Delivery.Spool.Latest.{
  is_pending_id, find_pending-id, acknowledge-latest, pending-coalesce,
}
use sidewisp_plugin.Delivery.Diagnostics.{
  Credential, Limits, Snapshot, sent, Delivery, Step, threw, returned, is_same, is_due, queued,
  queue, collect, Reply, network_error, response, finish_retry, invalid_ack, disabled, rejected,
  credential_rejected, acknowledge, settle,
}

guarded-other :
    (installation id other : String) (o : Option PendingRow)
    → (installation == other) ≡ false
    → ((r : PendingRow) → o ≡ some r → r.installation_id ≡ other)
    → guarded (λ r. not (is_document installation id r)) o ≡ o
guarded-other installation id other none n h = refl
guarded-other installation id other (some r) n h =
    ground (arith, h r refl, eq_iff r.installation_id installation, eq_iff installation other)

acknowledge-other :
    (db : Sqlite) (installation id other : String) (s : Spool)
    → IsKeyed pending_id s.tables.diagnostics
    → (installation == other) ≡ false
    → pending_runtime_diagnostic other (acknowledge_runtime_diagnostic db installation id s).0
      ≡ pending_runtime_diagnostic other s
unfolding acknowledge_runtime_diagnostic pending_runtime_diagnostic
acknowledge-other db installation id other s keyed n =
    let t = s.tables.diagnostics in
    ap document (
      find-filter pending_id other (λ r. not (is_document installation id r)) t keyed
      ∙ guarded-other installation id other (find pending_id other t) n (find_pending-id other t))

-- The state in which a step ends.
abbrev pub after : Step → Delivery
after (threw d) = d
after (returned d) = d

-- The reply says that the server has the snapshot `id`.
abbrev pub is_receipt : String → Reply → Bool
is_receipt id (response code (some (some ack))) = ack == id && leb 200 code && ltb code 300
is_receipt id _ = false

-- The reply takes the pending snapshot of `other`: it is a receipt for the snapshot `id`, the request was for this
-- installation, and no newer snapshot has replaced the one that was sent.
abbrev pub is_taken : (installation id other : String) → Reply → Delivery → Bool
is_taken installation id other r d =
    is_receipt id r
    && installation == other
    && is_pending_id id (pending_runtime_diagnostic other d.spool)

-- What is pending after the reply, and when the delivery says that the snapshot was sent
pub record IsSettled (installation id other : String) (r : Reply) (d t : Delivery) : Type 0 where
  pub pending : pending_runtime_diagnostic other t.spool ≡ (
      if is_taken installation id other r d then none else pending_runtime_diagnostic other d.spool)
  pub reported : is_receipt id r ≡ true → (t.last_result ≡ sent id) × (t.retry_attempt ≡ 0)

removed :
    (db : Sqlite) (installation id other : String) (d : Delivery)
    → IsKeyed pending_id d.spool.tables.diagnostics
    → pending_runtime_diagnostic other (acknowledge_runtime_diagnostic db installation id d.spool).0
      ≡ (if installation == other && is_pending_id id (pending_runtime_diagnostic other d.spool)
          then none
          else pending_runtime_diagnostic other d.spool)
removed db installation id other d keyed = elim (Bool-cases (installation == other)) [
  | inl same ↦
      let q : installation ≡ other = (eq_iff installation other).0 same in
      rw (q, eq_refl other) (acknowledge-latest db other id d.spool keyed).1
  | inr different ↦
      rw different (acknowledge-other db installation id other d.spool keyed different)
]

refused-IsSettled :
    (installation id other : String) (r : Reply) (d t : Delivery)
    → is_receipt id r ≡ false
    → t.spool ≡ d.spool
    → IsSettled installation id other r d t
refused-IsSettled installation id other r d t h e = record {
  pending = rw (h, e) refl;
  reported = λ k. ground arith;
}

acknowledge-IsSettled :
    (db : Sqlite) (installation id other : String) (code : ℕ) (ack : Option (Option String))
    (d : Delivery)
    → IsKeyed pending_id d.spool.tables.diagnostics
    → (leb 200 code && ltb code 300) ≡ true
    → IsSettled installation id other
        (response code ack)
        d
        (after (acknowledge db installation id ack d))
acknowledge-IsSettled db installation id other code none d keyed fine =
    refused-IsSettled installation id other (response code none) d d refl refl
acknowledge-IsSettled db installation id other code (some none) d keyed fine =
    refused-IsSettled installation id other (response code (some none)) d _ refl refl
acknowledge-IsSettled db installation id other code (some (some ack)) d keyed fine =
    by_match (ack == id) refl
  where
    t : Delivery
    t = record d {
      spool = (acknowledge_runtime_diagnostic db installation id d.spool).0;
      retry_attempt = 0;
      last_result = sent id;
    }

    by_match :
        (b : Bool)
        → (ack == id) ≡ b
        → IsSettled installation id other (response code (some (some ack))) d (
            after (if not b then returned (record d { last_result = invalid_ack }) else returned t))
    by_match false q =
        refused-IsSettled installation id other (response code (some (some ack))) d
          (record d { last_result = invalid_ack }) (ground (arith, q)) refl
    by_match true q = record {
      pending = rw (q, fine) (removed db installation id other d keyed);
      reported = λ k. (refl, refl);
    }

-- Whatever the server replies to an upload, and whatever the spool holds when the reply comes, the
-- pending snapshot of every installation is removed just when the reply is a success that acknowledges the
-- snapshot that was sent, the request was for this installation, and the sent snapshot is still its pending one;
-- otherwise what is pending stays. Every such success is reported as sent. The table of pending snapshots has
-- distinct keys.
pub settle-IsSettled :
    (db : Sqlite) (installation id other : String) (r : Reply) (d : Delivery)
    → IsKeyed pending_id d.spool.tables.diagnostics
    → IsSettled installation id other r d (after (settle db installation id r d))
unfolding settle
settle-IsSettled db installation id other network_error d keyed =
    refused-IsSettled installation id other network_error d (finish_retry d) refl refl
settle-IsSettled db installation id other (response code ack) d keyed =
    by_code (eqb code 401 || eqb code 403) (eqb code 429 || leb 500 code)
      (leb 200 code && ltb code 300) refl refl refl
  where
    no_receipt :
        (o : Option (Option String))
        → (leb 200 code && ltb code 300) ≡ false
        → is_receipt id (response code o) ≡ false
    no_receipt none h = refl
    no_receipt (some none) h = refl
    no_receipt (some (some a)) h = ground arith

    by_code :
        (refused later fine : Bool)
        → (eqb code 401 || eqb code 403) ≡ refused
        → (eqb code 429 || leb 500 code) ≡ later
        → (leb 200 code && ltb code 300) ≡ fine
        → IsSettled installation id other (response code ack) d (
            after (
              if refused
              then returned (record d { last_result = credential_rejected })
              else if later
              then returned (finish_retry d)
              else if not fine
              then returned (record d { last_result = rejected })
              else acknowledge db installation id ack d))
    by_code true later fine h k g =
        refused-IsSettled installation id other (response code ack) d _
          (no_receipt ack (ground arith)) refl
    by_code false true fine h k g =
        refused-IsSettled installation id other (response code ack) d _
          (no_receipt ack (ground arith)) refl
    by_code false false false h k g =
        refused-IsSettled installation id other (response code ack) d _ (no_receipt ack g) refl
    by_code false false true h k g =
        acknowledge-IsSettled db installation id other code ack d keyed g

-- The snapshot that was collected is pending, or the one that was queued last has its content and is
-- younger than the refresh time, and nothing that is pending has changed.
pub data IsCurrent (l : Limits) (now : ℕ) (x : Snapshot) (d t : Delivery) : Type 0 where
  renewed :
      pending_runtime_diagnostic x.installation t.spool ≡ some (x.snapshot_id, x.payload)
      → IsCurrent l now x d t
  unchanged :
      t ≡ d
      → is_same d.last_fingerprint x.fingerprint ≡ true
      → now < d.last_queued_at + min l.max_refresh_ms (min l.interval_ms (x.ttl_seconds * 1000))
      → IsCurrent l now x d t

abbrev pub ReturnsCurrent : Limits → ℕ → Snapshot → Delivery → Step → Type 0
ReturnsCurrent l now x d (threw t) =
    pending_runtime_diagnostic x.installation t.spool
    ≡ pending_runtime_diagnostic x.installation d.spool
ReturnsCurrent l now x d (returned t) = IsCurrent l now x d t

-- With an active credential, a collection that returns leaves the collected snapshot pending for its
-- installation, or has found that the snapshot that was queued last has the same content and is
-- younger than the refresh time; one that the spool's quota refuses leaves what was pending.
pub collect-ReturnsCurrent :
    (db : Sqlite) (l : Limits) (now : ℕ) (k : Credential) (x : Snapshot) (d : Delivery)
    → k.active ≡ true
    → ReturnsCurrent l now x d (collect db l now (some k) (some x) d)
unfolding collect
collect-ReturnsCurrent db l now k x d active = by_status k.active active
  where
    by_queue :
        (r : Spool × Result (Unit {0}))
        → (pending_runtime_diagnostic x.installation r.0 ≡ (elim r.1 [
          | ok _ ↦
              if x.installation == x.installation
              then some (x.snapshot_id, x.payload)
              else pending_runtime_diagnostic x.installation d.spool
          | throw _ ↦ pending_runtime_diagnostic x.installation d.spool
        ]))
        → ReturnsCurrent l now x d (queued now x d r)
    by_queue (s, ok u) h = renewed (h ∙ rw (eq_refl x.installation) refl)
    by_queue (s, throw e) h = h

    by_age :
        (b : Bool)
        → is_due l now x d ≡ b
        → ReturnsCurrent l now x d (
            if b
            then queued now x d
                (coalesce_runtime_diagnostic db x.installation x.snapshot_id x.payload now d.spool)
            else returned d)
    by_age true q =
        by_queue (coalesce_runtime_diagnostic db x.installation x.snapshot_id x.payload now d.spool)
          (pending-coalesce db x.installation x.snapshot_id x.payload x.installation now d.spool)
    by_age false q = unfold is_due in unchanged refl (ground (arith, q)) (ground (arith, q))

    by_status :
        (b : Bool)
        → b ≡ true
        → ReturnsCurrent l now x d
            (if not b then returned (record d { last_result = disabled }) else queue db l now x d)
    by_status true q = by_age (is_due l now x d) refl
    by_status false q = absurd (ground (arith, q))
