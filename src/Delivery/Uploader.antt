-- ===== src/Delivery/Uploader.antt =====
-- src/delivery/uploader.js: one send of the uploader, from the credential to the spool's
-- acknowledgement.
pub mod Send
pub mod Drain
pub mod Isolation
pub mod Trace
pub mod Steps
pub mod Safety
pub mod Retries
use sidewisp_plugin.Prelude.{
  ℕ, ◌+◌, ◌-◌, ◌*◌, ◌/◌, min, String, len, Bool, true, false, not, ◌&&◌, ◌||◌, Option, none, some,
  List, [], ◌∷◌, map, ltb, leb, eqb, if◌then◌else◌, filter, any, length, contains, ◌==◌, holds_text,
}
use sidewisp_plugin.Delivery.Spool.{Event, Sqlite, Spool, Clock, Result, ok, throw}
use sidewisp_plugin.Delivery.Spool.Queue.{acknowledge, dead_letter}
use sidewisp_plugin.Delivery.Spool.Pending.{Entry, pending}
use sidewisp_plugin.Delivery.Spool.Quarantine.{quarantine_other_installations}

pub record Credential : Type 0 where
  pub installation_id : String
  pub active : Bool

-- The limits that `createUploader` was given.
pub record Limits : Type 0 where
  pub max_batch : ℕ
  pub max_body_bytes : ℕ
  pub max_backoff_ms : ℕ

pub data Status : Type 0 where
  not_started disabled dead_lettered idle retry credential_rejected rejected sent backpressure :
      Status

pub record Outcome : Type 0 where
  pub status : Status
  pub sent_count : ℕ
  pub remaining : ℕ
  pub retry_after_ms : Option ℕ
  pub transport_code : Option String

pub record Uploader : Type 0 where
  pub spool : Spool
  pub attempt : ℕ
  pub healthy_installation : Option String
  pub last_delivered_at : Option ℕ
  pub last_result : Outcome
  pub refreshes : ℕ

-- What is sent: the batch, under the credential of an installation.
pub record Request : Type 0 where
  pub installation_id : String
  pub events : List Event

-- An item of `result.rejected`: its `eventId`, and its `code` where that is a string.
pub record Rejection : Type 0 where
  pub event_id : String
  pub code : Option String

-- The JSON body of a successful response; `none` stands for a field that is not an array.
pub record Body : Type 0 where
  pub acknowledged : Option (List String)
  pub rejections : Option (List Rejection)

-- What `fetchImpl` does: it throws, or it gives a response. `retry_after` is the header, if it is
-- a positive number of seconds; `body` is `none` where `response.json()` throws.
pub data Reply : Type 0 where
  network_error : String → Reply
  response : (code : ℕ) → (retry_after : Option ℕ) → Option Body → Reply

-- The surroundings of one send: the current credential, the clock, and the server.
pub record World : Type 0 where
  pub credential : Option Credential
  pub clock : Clock
  pub server : Request → Reply

-- `spool.pending(1).length`
unfoldable pub backlog : Spool → ℕ
unfolding pending
backlog s = elim (pending 1 none s) [ ok entries ↦ length entries | throw _ ↦ 0 ]

abbrev pub outcome : Status → (sent_count remaining : ℕ) → Outcome
outcome status sent_count remaining = record {
  status = status;
  sent_count = sent_count;
  remaining = remaining;
  retry_after_ms = none;
  transport_code = none;
}

abbrev pub is_delivery : Status → Bool
is_delivery sent = true
is_delivery idle = true
is_delivery _ = false

-- `finish`
abbrev pub finish : Outcome → Uploader → Uploader × Option Outcome
finish o u = (
  record u {
    last_delivered_at = if is_delivery o.status then u.last_delivered_at else none;
    last_result = o;
  },
  some o,
)

-- `row.event.installationId && row.event.installationId !== credential.installationId`
abbrev pub is_stale : String → Event → Bool
is_stale installation e = elim e.installation_id [
  | none ↦ false
  | some id ↦ not (id == "") && not (id == installation)
]

-- The loop that makes dead letters of what another binding has queued.
unfoldable pub drop_stale : Sqlite → Clock → String → List Entry → Spool → Spool
drop_stale db clock installation [] s = s
drop_stale db clock installation ((id, e) ∷ rows) s =
    drop_stale db clock installation rows
      (if is_stale installation e then dead_letter db (clock 0) id "previous-installation" s else s)

unfoldable pub own_entries : String → List Entry → List Entry
own_entries installation = filter (λ row. not (is_stale installation row.1))

-- The bytes of `{"schema":"sidewisp.telemetry-batch.v1","events":[…]}`: 52 for the frame, and
-- the events' texts with a comma between each two.
unfoldable pub body_bytes : List Entry → ℕ
body_bytes [] = 52
body_bytes (row ∷ []) = 52 + len row.1.json
body_bytes (row ∷ row' ∷ rows) = len row.1.json + 1 + body_bytes (row' ∷ rows)

-- What is left to do once the batch is chosen.
pub data Prepared : Type 0 where
  failed : Uploader → Prepared
  finished : Outcome → Uploader → Prepared
  batch : String → Entry → List Entry → Uploader → Prepared

abbrev pub prepare_batch : Sqlite → Limits → Clock → String → List Entry → Uploader → Prepared
prepare_batch db limits clock installation [] u =
    let remaining = backlog u.spool in
    finished (outcome (if ltb 0 remaining then dead_lettered else idle) 0 remaining)
      (record u { attempt = 0 })
prepare_batch db limits clock installation (row ∷ rows) u =
    if ltb limits.max_body_bytes (body_bytes (row ∷ rows))
    then (let s = dead_letter db (clock 1) row.0 "batch-event-too-large" u.spool in
        finished (outcome dead_lettered 0 (backlog s)) (record u { spool = s }))
    else batch installation row rows u

abbrev pub prepare_queued :
    Sqlite → Limits → Clock → String → Result (List Entry) → Uploader → Prepared
prepare_queued db limits clock installation (throw e) u = failed u
prepare_queued db limits clock installation (ok queued) u =
    prepare_batch db limits clock installation (own_entries installation queued)
      (record u { spool = drop_stale db clock installation queued u.spool })

abbrev pub prepare_quarantined :
    Sqlite → Limits → Clock → String → Spool × Result ℕ → Uploader → Prepared
prepare_quarantined db limits clock installation (s, throw e) u = failed (record u { spool = s })
prepare_quarantined db limits clock installation (s, ok _) u =
    prepare_queued db limits clock installation
      (pending limits.max_batch
        (if holds_text u.healthy_installation installation then none else some installation) s)
      (record u { spool = s })

abbrev pub prepare_with : Sqlite → Limits → Clock → Option Credential → Uploader → Prepared
prepare_with db limits clock none u = finished (outcome disabled 0 (backlog u.spool)) u
prepare_with db limits clock (some credential) u =
    if credential.active
    then prepare_quarantined db limits clock credential.installation_id
        (quarantine_other_installations db clock credential.installation_id u.spool) u
    else finished (outcome disabled 0 (backlog u.spool)) u

-- `performSend` up to the request.
unfoldable pub prepare : Sqlite → Limits → World → Uploader → Prepared
unfolding backlog drop_stale own_entries body_bytes pending quarantine_other_installations
    dead_letter
prepare db limits w u = prepare_with db limits w.clock w.credential u
