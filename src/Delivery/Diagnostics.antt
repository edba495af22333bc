-- ===== src/Delivery/Diagnostics.antt =====
-- src/delivery/runtime-diagnostics.js: `collect` and `upload` of the diagnostics delivery, on the spool.
pub mod Latest
use sidewisp_plugin.Prelude.{
  ℕ, ◌+◌, ◌*◌, min, String, Bool, true, false, not, ◌&&◌, ◌||◌, ◌==◌, Option, none, some, leb, ltb,
  eqb, if◌then◌else◌,
}
use sidewisp_plugin.Delivery.Spool.{Sqlite, Spool, Result, ok, throw}
use sidewisp_plugin.Delivery.Spool.Coalesce.{
  coalesce_runtime_diagnostic, pending_runtime_diagnostic, acknowledge_runtime_diagnostic,
}

pub record Credential : Type 0 where
  pub installation_id : String
  pub active : Bool

pub record Limits : Type 0 where
  pub interval_ms : ℕ
  pub max_refresh_ms : ℕ

-- What the adapter collects: the snapshot's JSON text, three of its fields, and the digest that
-- `contentFingerprint` computes from it.
pub record Snapshot : Type 0 where
  pub snapshot_id : String
  pub installation : String
  pub ttl_seconds : ℕ
  pub payload : String
  pub fingerprint : String

pub data Status : Type 0 where
  not_started disabled idle retry credential_rejected rejected invalid_ack : Status
  sent : String → Status

pub record Delivery : Type 0 where
  pub spool : Spool
  pub last_fingerprint : Option String
  pub last_queued_at : ℕ
  pub retry_attempt : ℕ
  pub last_result : Status

-- A step that throws leaves the state that it had reached.
pub data Step : Type 0 where
  threw returned : Delivery → Step

abbrev pub is_same : Option String → String → Bool
is_same none s = false
is_same (some t) s = t == s

-- `fingerprint !== lastFingerprint || now() - lastQueuedAt >= Math.min(…)`
unfoldable pub is_due : Limits → ℕ → Snapshot → Delivery → Bool
is_due l now x d =
    not (is_same d.last_fingerprint x.fingerprint)
    || leb (d.last_queued_at + min l.max_refresh_ms (min l.interval_ms (x.ttl_seconds * 1000))) now

abbrev pub queued : ℕ → Snapshot → Delivery → Spool × Result (Unit {0}) → Step
queued now x d (s, throw e) = threw (record d { spool = s })
queued now x d (s, ok _) =
    returned (record d { spool = s; last_fingerprint = some x.fingerprint; last_queued_at = now })

abbrev pub queue : Sqlite → Limits → ℕ → Snapshot → Delivery → Step
queue db l now x d =
    if is_due l now x d
    then queued now x d
        (coalesce_runtime_diagnostic db x.installation x.snapshot_id x.payload now d.spool)
    else returned d

abbrev pub collected : Sqlite → Limits → ℕ → Option Snapshot → Delivery → Step
collected db l now none d = threw d
collected db l now (some x) d = queue db l now x d

-- `collect`; the adapter's snapshot is none where it throws.
unfoldable pub collect : Sqlite → Limits → ℕ → Option Credential → Option Snapshot → Delivery → Step
unfolding is_due coalesce_runtime_diagnostic
collect db l now none x d = returned (record d { last_result = disabled })
collect db l now (some k) x d =
    if not k.active then returned (record d { last_result = disabled }) else collected db l now x d

-- A response's acknowledgement is none where its body is no JSON, and holds none where it names no
-- snapshot.
pub data Reply : Type 0 where
  network_error : Reply
  response : (code : ℕ) → (ack : Option (Option String)) → Reply

-- `retryAttempt = Math.min(retryAttempt + 1, 20)`
abbrev pub finish_retry : Delivery → Delivery
finish_retry d = record d { retry_attempt = min (d.retry_attempt + 1) 20; last_result = retry }

abbrev pub acknowledge : Sqlite → String → String → Option (Option String) → Delivery → Step
acknowledge db installation id none d = threw d
acknowledge db installation id (some ack) d =
    if not (is_same ack id)
    then returned (record d { last_result = invalid_ack })
    else returned (record d {
      spool = (acknowledge_runtime_diagnostic db installation id d.spool).0;
      retry_attempt = 0;
      last_result = sent id;
    })

-- `upload` from the reply on, for the snapshot `id` that was sent.
unfoldable pub settle : Sqlite → String → String → Reply → Delivery → Step
unfolding acknowledge_runtime_diagnostic
settle db installation id network_error d = returned (finish_retry d)
settle db installation id (response code ack) d =
    if eqb code 401 || eqb code 403
    then returned (record d { last_result = credential_rejected })
    else if eqb code 429 || leb 500 code
    then returned (finish_retry d)
    else if not (leb 200 code && ltb code 300)
    then returned (record d { last_result = rejected })
    else acknowledge db installation id ack d

-- `meanwhile` is what happens to the spool while the request is under way.
abbrev pub send :
    Sqlite
    → String
    → (String → String → Reply)
    → (Spool → Spool)
    → Option (String × String)
    → Delivery
    → Step
send db installation server meanwhile none d =
    returned (record d { retry_attempt = 0; last_result = idle })
send db installation server meanwhile (some (id, payload)) d =
    settle db installation id (server installation payload) (record d { spool = meanwhile d.spool })

unfoldable pub upload :
    Sqlite → Option Credential → (String → String → Reply) → (Spool → Spool) → Delivery → Step
unfolding pending_runtime_diagnostic settle
upload db none server meanwhile d = returned (record d { last_result = disabled })
upload db (some k) server meanwhile d =
    if not k.active
    then returned (record d { last_result = disabled })
    else send db k.installation_id server meanwhile
        (pending_runtime_diagnostic k.installation_id d.spool) d
