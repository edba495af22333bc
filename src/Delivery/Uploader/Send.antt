-- ===== src/Delivery/Uploader/Send.antt =====
-- src/delivery/uploader.js: `performSend`, from the request on.
use sidewisp_plugin.Prelude.{
  ℕ, ◌+◌, ◌*◌, min, String, Bool, not, ◌&&◌, ◌||◌, Option, none, some, List, [], ◌∷◌, map, ltb, leb,
  eqb, if◌then◌else◌, filter, any, length, contains, ◌==◌, holds_text,
}
use mathlib.Core.Option
use sidewisp_plugin.Delivery.Spool.{Event, Sqlite, Spool}
use sidewisp_plugin.Delivery.Spool.Queue.{acknowledge, dead_letter}
use sidewisp_plugin.Delivery.Spool.Pending.{Entry}
use sidewisp_plugin.Delivery.Uploader.{
  Limits, retry, credential_rejected, rejected, sent, Outcome, Uploader, Rejection, Body, Reply,
  network_error, response, World, backlog, outcome, finish, Prepared, failed, finished, batch,
  prepare,
}

abbrev pub entry_id : Entry → String
entry_id row = row.0

abbrev pub entry_event : Entry → Event
entry_event row = row.1

abbrev pub or_empty {ℓ} : {A : Type ℓ} → Option (List A) → List A
or_empty none = []
or_empty (some xs) = xs

-- The acknowledged ids that were in the batch.
unfoldable pub accepted : List Entry → Body → List String
accepted rows body = filter (λ id. contains id (map entry_id rows)) (or_empty body.acknowledged)

-- An accepted health snapshot of the installation.
abbrev pub is_health_receipt : String → List String → Entry → Bool
is_health_receipt installation ids row =
    contains row.0 ids
    && (row.1.type == "health.snapshot" && holds_text row.1.installation_id installation)

-- `sentIds.has(rejected.eventId) && typeof rejected.code === "string"`, and the dead letter.
abbrev pub reject : Sqlite → ℕ → List Entry → Rejection → Spool → Spool
reject db now rows r s = elim r.code [
  | none ↦ s
  | some code ↦
      if contains r.event_id (map entry_id rows) then dead_letter db now r.event_id code s else s
]

unfoldable pub reject_all : Sqlite → ℕ → List Entry → List Rejection → Spool → Spool
unfolding dead_letter
reject_all db now rows [] s = s
reject_all db now rows (r ∷ rs) s = reject_all db now rows rs (reject db now rows r s)

-- A response with a body.
unfoldable pub receive :
    Sqlite → World → String → List Entry → Body → Uploader → Uploader × Option Outcome
unfolding accepted acknowledge reject_all backlog
receive db w installation rows body u =
    let ids = accepted rows body in
    let s = (acknowledge db w.clock ids u.spool).0 in
    let s' = reject_all db (w.clock 0) rows (or_empty body.rejections) s in
    finish (outcome sent (length ids) (backlog s')) (record u {
      spool = s';
      attempt = 0;
      healthy_installation =
          if any (is_health_receipt installation ids) rows
          then some installation
          else u.healthy_installation;
      last_delivered_at = if ltb 0 (length ids) then some (w.clock 0) else u.last_delivered_at;
    })

abbrev pub received :
    Sqlite → World → String → List Entry → Option Body → Uploader → Uploader × Option Outcome
received db w installation rows none u = (u, none)
received db w installation rows (some body) u = receive db w installation rows body u

unfoldable pub settle :
    Sqlite → Limits → World → String → List Entry → Reply → Uploader → Uploader × Option Outcome
unfolding receive
settle db limits w installation rows (network_error code) u =
    finish (record (outcome retry 0 (length rows)) { transport_code = some code }) u
settle db limits w installation rows (response code retry_after body) u =
    if eqb code 401 || eqb code 403
    then finish (outcome credential_rejected 0 (length rows))
        (record u { refreshes = u.refreshes + 1 })
    else if eqb code 429 || leb 500 code
    then finish
        (record (outcome retry 0 (length rows)) {
          retry_after_ms =
              Option.map (λ seconds. min limits.max_backoff_ms (seconds * 1000)) retry_after;
        })
        u
    else if not (leb 200 code && leb code 299)
    then finish (outcome rejected 0 (length rows)) u
    else received db w installation rows body u

abbrev pub perform_prepared : Sqlite → Limits → World → Prepared → Uploader × Option Outcome
perform_prepared db limits w (failed u) = (u, none)
perform_prepared db limits w (finished o u) = finish o u
perform_prepared db limits w (batch installation row rows u) =
    settle db limits w installation (row ∷ rows)
      (w.server (record { installation_id = installation; events = map entry_event (row ∷ rows) }))
      u

-- `performSend`: the new state, and the outcome unless it throws.
unfoldable pub perform_send : Sqlite → Limits → World → Uploader → Uploader × Option Outcome
unfolding prepare settle
perform_send db limits w u = perform_prepared db limits w (prepare db limits w u)
