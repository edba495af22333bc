-- ===== src/Delivery/Uploader/Steps.antt =====
-- src/delivery/uploader.js: each part of a send is a run of spool operations.
use sidewisp_plugin.Prelude.{
  ℕ, String, ◌≡◌, inl, inr, Bool, true, false, Option, none, some, List, [], ◌∷◌, map, ltb,
  contains, Bool-cases,
}
use sidewisp_plugin.Delivery.Spool.{Sqlite, Spool, Clock, Result, ok, throw}
use sidewisp_plugin.Delivery.Spool.Pending.{Entry}
use sidewisp_plugin.Delivery.Spool.Quarantine
use sidewisp_plugin.Delivery.Spool.Queue
use sidewisp_plugin.Delivery.Spool.Operation.{
  dead_letter, acknowledge, quarantine_other_installations, run,
}
use sidewisp_plugin.Delivery.Uploader.{
  Credential, Limits, Uploader, Rejection, Prepared, failed, finished, batch, is_stale, own_entries,
  body_bytes, drop_stale, prepare_batch, prepare_queued, prepare_quarantined, prepare_with,
}
use sidewisp_plugin.Delivery.Uploader.Send.{entry_id, reject, reject_all}
use sidewisp_plugin.Delivery.Uploader.Trace.{IsTrace, IsTrace-refl, IsTrace-step, IsTrace-trans}

-- The spool of a prepared send.
abbrev pub spool_of : Prepared → Spool
spool_of (failed u) = u.spool
spool_of (finished o u) = u.spool
spool_of (batch installation row rows u) = u.spool

module _ (db : Sqlite) (ids : List String) where
  letter-IsTrace :
      (now : ℕ) (id reason : String) (s : Spool)
      → IsTrace db ids s (Queue.dead_letter db now id reason s)
  unfolding run
  letter-IsTrace now id reason s = IsTrace-step db ids (dead_letter now id reason) s tt

  quarantine-IsTrace :
      (clock : Clock) (active : String) (s : Spool)
      → IsTrace db ids s (Quarantine.quarantine_other_installations db clock active s).0
  unfolding run
  quarantine-IsTrace clock active s =
      IsTrace-step db ids (quarantine_other_installations clock active) s tt

  pub acknowledge-IsTrace :
      (clock : Clock) (named : List String) (s : Spool)
      → ((k : String) → contains k named ≡ true → contains k ids ≡ true)
      → IsTrace db ids s (Queue.acknowledge db clock named s).0
  unfolding run
  acknowledge-IsTrace clock named s h = IsTrace-step db ids (acknowledge clock named) s h

  drop_stale-IsTrace :
      (clock : Clock) (installation : String) (rows : List Entry) (s : Spool)
      → IsTrace db ids s (drop_stale db clock installation rows s)
  unfolding drop_stale
  drop_stale-IsTrace clock installation [] s = IsTrace-refl db ids s
  drop_stale-IsTrace clock installation ((id, e) ∷ rows) s =
      elim (Bool-cases (is_stale installation e)) [
        | inl stale ↦ rw stale (
            IsTrace-trans db ids (letter-IsTrace (clock 0) id "previous-installation" s) (
              drop_stale-IsTrace clock installation rows
                (Queue.dead_letter db (clock 0) id "previous-installation" s)))
        | inr own ↦ rw own (drop_stale-IsTrace clock installation rows s)
      ]

  reject_code-IsTrace :
      (now : ℕ) (rows : List Entry) (id : String) (code : Option String) (s : Spool)
      → IsTrace db ids s (reject db now rows (record { event_id = id; code = code }) s)
  reject_code-IsTrace now rows id none s = IsTrace-refl db ids s
  reject_code-IsTrace now rows id (some code) s =
      elim (Bool-cases (contains id (map entry_id rows))) [
        | inl known ↦ rw known (letter-IsTrace now id code s)
        | inr unknown ↦ rw unknown (IsTrace-refl db ids s)
      ]

  pub reject_all-IsTrace :
      (now : ℕ) (rows : List Entry) (rs : List Rejection) (s : Spool)
      → IsTrace db ids s (reject_all db now rows rs s)
  unfolding reject_all
  reject_all-IsTrace now rows [] s = IsTrace-refl db ids s
  reject_all-IsTrace now rows (r ∷ rs) s =
      IsTrace-trans db ids (reject_code-IsTrace now rows r.event_id r.code s)
        (reject_all-IsTrace now rows rs (reject db now rows r s))

  prepare_batch-IsTrace :
      (limits : Limits) (clock : Clock) (installation : String) (rows : List Entry) (u : Uploader)
      → IsTrace db ids u.spool (spool_of (prepare_batch db limits clock installation rows u))
  prepare_batch-IsTrace limits clock installation [] u = IsTrace-refl db ids u.spool
  prepare_batch-IsTrace limits clock installation (row ∷ rows) u =
      elim (Bool-cases (ltb limits.max_body_bytes (body_bytes (row ∷ rows)))) [
        | inl large ↦ rw large (letter-IsTrace (clock 1) row.0 "batch-event-too-large" u.spool)
        | inr fits ↦ rw fits (IsTrace-refl db ids u.spool)
      ]

  prepare_queued-IsTrace :
      (limits : Limits) (clock : Clock) (installation : String) (r : Result (List Entry))
      (u : Uploader)
      → IsTrace db ids u.spool (spool_of (prepare_queued db limits clock installation r u))
  prepare_queued-IsTrace limits clock installation (throw e) u = IsTrace-refl db ids u.spool
  prepare_queued-IsTrace limits clock installation (ok queued) u =
      IsTrace-trans db ids (drop_stale-IsTrace clock installation queued u.spool) (
        prepare_batch-IsTrace limits clock installation (own_entries installation queued)
          (record u { spool = drop_stale db clock installation queued u.spool }))

  prepare_quarantined-IsTrace :
      (limits : Limits) (clock : Clock) (installation : String) (p : Spool × Result ℕ)
      (u : Uploader)
      → IsTrace db ids u.spool p.0
      → IsTrace db ids u.spool (spool_of (prepare_quarantined db limits clock installation p u))
  prepare_quarantined-IsTrace limits clock installation (s, throw e) u h = h
  prepare_quarantined-IsTrace limits clock installation (s, ok n) u h =
      IsTrace-trans db ids h
        (prepare_queued-IsTrace limits clock installation _ (record u { spool = s }))

  prepare_active-IsTrace :
      (limits : Limits) (clock : Clock) (installation : String) (active : Bool) (u : Uploader)
      → IsTrace db ids u.spool (
          spool_of (
            prepare_with db limits clock
              (some (record { installation_id = installation; active = active }))
              u))
  prepare_active-IsTrace limits clock installation true u =
      prepare_quarantined-IsTrace limits clock installation _ u
        (quarantine-IsTrace clock installation u.spool)
  prepare_active-IsTrace limits clock installation false u = IsTrace-refl db ids u.spool

  pub prepare_with-IsTrace :
      (limits : Limits) (clock : Clock) (c : Option Credential) (u : Uploader)
      → IsTrace db ids u.spool (spool_of (prepare_with db limits clock c u))
  prepare_with-IsTrace limits clock none u = IsTrace-refl db ids u.spool
  prepare_with-IsTrace limits clock (some c) u =
      prepare_active-IsTrace limits clock c.installation_id c.active u
