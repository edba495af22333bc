-- ===== src/Delivery/Uploader/Safety.antt =====
-- src/delivery/uploader.js: a send loses no event.
use sidewisp_plugin.Prelude.{
  ℕ, ◌+◌, String, ◌≡◌, refl, sym, inl, inr, Bool, true, false, ◌||◌, ◌&&◌, Option, none, some, List,
  [], ◌∷◌, map, arith, eqb, leb, filter, contains, if◌then◌else◌, Bool-cases, length,
}
use sidewisp_plugin.Delivery.Spool.{Row, Sqlite, Spool}
use sidewisp_plugin.Delivery.Spool.Pending.{Entry}
use mathlib.Core.Path.{subst}
use sidewisp_plugin.Delivery.Spool.Fate.{Waits}
use sidewisp_plugin.Delivery.Uploader.{
  Limits, Uploader, Outcome, Status, retry, credential_rejected, rejected, Body, Reply,
  network_error, response, World, Prepared, failed, finished, batch, prepare,
}
use sidewisp_plugin.Delivery.Uploader.Send.{
  entry_id, entry_event, or_empty, accepted, receive, received, settle, perform_prepared,
  perform_send,
}
use sidewisp_plugin.Delivery.Uploader.Trace.{
  IsTrace, IsTrace-refl, IsTrace-trans, Accounted, trace-Accounted,
}
use sidewisp_plugin.Delivery.Uploader.Steps.{
  spool_of, acknowledge-IsTrace, reject_all-IsTrace, prepare_with-IsTrace,
}

-- The ids that the server acknowledges in its reply to a request.
abbrev pub reply_acks : Reply → List String
reply_acks (network_error code) = []
reply_acks (response code retry_after none) = []
reply_acks (response code retry_after (some body)) = or_empty body.acknowledged

abbrev pub prepared_acks : World → Prepared → List String
prepared_acks w (failed u) = []
prepared_acks w (finished o u) = []
prepared_acks w (batch installation row rows u) =
    reply_acks
      (w.server (record { installation_id = installation; events = map entry_event (row ∷ rows) }))

contains-filter :
    (k : String) (p : String → Bool) (ids : List String)
    → contains k (filter p ids) ≡ true
    → contains k ids ≡ true
contains-filter k p [] h = h
contains-filter k p (id ∷ ids) h = ground (arith, contains-filter k p ids)

receive-IsTrace :
    (db : Sqlite) (w : World) (installation : String) (rows : List Entry) (body : Body)
    (u : Uploader)
    → IsTrace db
        (or_empty body.acknowledged)
        u.spool
        (receive db w installation rows body u).0.spool
unfolding receive
receive-IsTrace db w installation rows body u =
    let ids = or_empty body.acknowledged in
    IsTrace-trans db ids
      (acknowledge-IsTrace db ids w.clock (accepted rows body) u.spool
        (λ k h. contains-filter k (λ id. contains id (map entry_id rows)) ids h))
      (reject_all-IsTrace db ids (w.clock 0) rows (or_empty body.rejections) _)

received-IsTrace :
    (db : Sqlite) (w : World) (installation : String) (rows : List Entry) (code : ℕ)
    (retry_after : Option ℕ) (body : Option Body) (u : Uploader)
    → IsTrace db
        (reply_acks (response code retry_after body))
        u.spool
        (received db w installation rows body u).0.spool
received-IsTrace db w installation rows code retry_after none u = IsTrace-refl db [] u.spool
received-IsTrace db w installation rows code retry_after (some body) u =
    receive-IsTrace db w installation rows body u

-- The codes at which a response is read.
abbrev pub is_ok : ℕ → Bool
is_ok code = leb 200 code && leb code 299

abbrev pub IsRefusal : Reply → Type 0
IsRefusal (network_error code) = Unit
IsRefusal (response code retry_after body) = is_ok code ≡ false

-- What a send reports for a reply that is no success.
abbrev pub refused_status : Reply → Status
refused_status (network_error code) = retry
refused_status (response code retry_after body) =
    if eqb code 401 || eqb code 403
    then credential_rejected
    else if eqb code 429 || leb 500 code
    then retry
    else rejected

abbrev pub status_of : Option Outcome → Option Status
status_of none = none
status_of (some o) = some o.status

-- A network error, or a response that is no success, leaves the spool and the counter of attempts
-- as they were, takes back the time of the last delivery, and is reported, with nothing sent, as
-- a refused credential for 401 and 403, as a retry for a network error, 429 and 500 or more, and
-- as a rejection otherwise. The credential is refreshed for 401 and 403 only.
pub settle_refused :
    (db : Sqlite) (limits : Limits) (w : World) (installation : String) (rows : List Entry)
    (reply : Reply) (u : Uploader)
    → IsRefusal reply
    → let (u', o) = settle db limits w installation rows reply u in
      (u'.spool ≡ u.spool)
      × (u'.attempt ≡ u.attempt)
      × (u'.last_delivered_at ≡ none)
      × (u'.last_result.sent_count ≡ 0)
      × (u'.last_result.remaining ≡ length rows)
      × (status_of o ≡ some (refused_status reply))
      × (u'.refreshes ≡ (elim (refused_status reply) [
        | credential_rejected ↦ u.refreshes + 1
        | _ ↦ u.refreshes
      ]))
unfolding settle
settle_refused db limits w installation rows (network_error code) u h =
    (refl, refl, refl, refl, refl, refl, refl)
settle_refused db limits w installation rows (response code retry_after body) u h = ground arith

settle-received :
    (db : Sqlite) (limits : Limits) (w : World) (installation : String) (rows : List Entry)
    (code : ℕ) (retry_after : Option ℕ) (body : Option Body) (u : Uploader)
    → is_ok code ≡ true
    → (settle db limits w installation rows (response code retry_after body) u).0.spool
      ≡ (received db w installation rows body u).0.spool
unfolding settle
settle-received db limits w installation rows code retry_after body u h = ground arith

settle-IsTrace :
    (db : Sqlite) (limits : Limits) (w : World) (installation : String) (rows : List Entry)
    (reply : Reply) (u : Uploader)
    → IsTrace db (reply_acks reply) u.spool (settle db limits w installation rows reply u).0.spool
settle-IsTrace db limits w installation rows (network_error code) u =
    unfold settle in IsTrace-refl db [] u.spool
settle-IsTrace db limits w installation rows (response code retry_after body) u =
    elim (Bool-cases (is_ok code)) [
      | inl fine ↦
          subst (IsTrace db (reply_acks (response code retry_after body)) u.spool)
            (sym (settle-received db limits w installation rows code retry_after body u fine))
            (received-IsTrace db w installation rows code retry_after body u)
      | inr refused ↦
          subst (IsTrace db (reply_acks (response code retry_after body)) u.spool)
            (sym
              (settle_refused db limits w installation rows (response code retry_after body) u
                refused).0)
            (IsTrace-refl db _ u.spool)
    ]

perform_prepared-IsTrace :
    (db : Sqlite) (limits : Limits) (w : World) (s : Spool) (p : Prepared)
    → IsTrace db (prepared_acks w p) s (spool_of p)
    → IsTrace db (prepared_acks w p) s (perform_prepared db limits w p).0.spool
perform_prepared-IsTrace db limits w s (failed u) t = t
perform_prepared-IsTrace db limits w s (finished o u) t = t
perform_prepared-IsTrace db limits w s (batch installation row rows u) t =
    IsTrace-trans db _ t (settle-IsTrace db limits w installation (row ∷ rows) _ u)

-- Every event that waits before a send is accounted for after it, whatever the server replies and
-- also if the send throws: it waits still with its row unchanged, or the server acknowledged its
-- id in this reply, or it is among the dead letters, or the archive holds its row.
pub perform_send-Accounted :
    (db : Sqlite) (limits : Limits) (w : World) (u : Uploader) (k : String) (r : Row)
    → Waits u.spool k r
    → Accounted (prepared_acks w (prepare db limits w u)) k r (perform_send db limits w u).0.spool
perform_send-Accounted db limits w u k r waits =
    trace-Accounted db (prepared_acks w (prepare db limits w u)) u.spool
      (perform_send db limits w u).0.spool k r waits
      (unfold perform_send in
        perform_prepared-IsTrace db limits w u.spool (prepare db limits w u)
          (unfold prepare in prepare_with-IsTrace db _ limits w.clock w.credential u))
