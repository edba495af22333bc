-- ===== src/Delivery/Uploader/Isolation.antt =====
-- src/delivery/uploader.js: the batch that a send offers to the server.
use sidewisp_plugin.Prelude.{
  ℕ, ◌≤◌, String, ◌≡◌, refl, Bool, true, false, not, Option, none, some, List, [], ◌∷◌, arith, ltb,
  length, All, All-filter_self, All-map_prop, length-filter-le, Bool-cases, inl, inr,
}
use sidewisp_plugin.Delivery.Spool.{Sqlite, Spool, Clock, Result, ok, throw}
use sidewisp_plugin.Delivery.Spool.Pending.{Entry}
use sidewisp_plugin.Delivery.Spool.Order.{pending-length}
use sidewisp_plugin.Delivery.Uploader.{
  Credential, Limits, Uploader, World, Prepared, failed, finished, batch, is_stale, own_entries,
  body_bytes, prepare_batch, prepare_queued, prepare_quarantined, prepare_with, prepare,
}

-- A batch of at most `max_batch` events, each of the installation or of none, and of at most
-- `max_body_bytes` bytes.
pub record IsOwnBatch (limits : Limits) (installation : String) (rows : List Entry) : Type 0 where
  pub own : All (λ row. is_stale installation row.1 ≡ false) rows
  pub bounded : length rows ≤ limits.max_batch
  pub fits : body_bytes rows ≤ limits.max_body_bytes

-- A prepared batch is the credential's, and keeps the limits.
abbrev pub IsSafe : Limits → Option Credential → Prepared → Type 0
IsSafe limits c (failed u) = Unit
IsSafe limits c (finished o u) = Unit
IsSafe limits c (batch installation row rows u) =
    (c ≡ some (record { installation_id = installation; active = true }))
    × IsOwnBatch limits installation (row ∷ rows)

own_entries-own :
    (installation : String) (rows : List Entry)
    → All (λ row. is_stale installation row.1 ≡ false) (own_entries installation rows)
unfolding own_entries
own_entries-own installation rows =
    All-map_prop _ _ (own_entries installation rows) (λ row h. ground arith)
      (All-filter_self (λ row. not (is_stale installation row.1)) rows)

length-own_entries :
    (installation : String) (rows : List Entry)
    → length (own_entries installation rows) ≤ length rows
unfolding own_entries
length-own_entries installation rows = length-filter-le _ rows

module _ (db : Sqlite) (limits : Limits) (clock : Clock) (installation : String) where
  abbrev mine : Option Credential
  mine = some (record { installation_id = installation; active = true })

  prepare_batch-IsSafe :
      (rows : List Entry) (u : Uploader)
      → All (λ row. is_stale installation row.1 ≡ false) rows
      → length rows ≤ limits.max_batch
      → IsSafe limits mine (prepare_batch db limits clock installation rows u)
  prepare_batch-IsSafe [] u own bounded = tt
  prepare_batch-IsSafe (row ∷ rows) u own bounded =
      elim (Bool-cases (ltb limits.max_body_bytes (body_bytes (row ∷ rows)))) [
        | inl large ↦ rw large tt
        | inr fits ↦ rw fits (refl, record { own = own; bounded = bounded; fits = ground arith })
      ]

  prepare_queued-IsSafe :
      (r : Result (List Entry)) (u : Uploader)
      → ((rows : List Entry) → r ≡ ok rows → length rows ≤ limits.max_batch)
      → IsSafe limits mine (prepare_queued db limits clock installation r u)
  prepare_queued-IsSafe (throw e) u h = tt
  prepare_queued-IsSafe (ok rows) u h =
      prepare_batch-IsSafe (own_entries installation rows) _ (own_entries-own installation rows)
        (omega (arith, length-own_entries installation rows, h rows refl))

  prepare_quarantined-IsSafe :
      (p : Spool × Result ℕ) (u : Uploader)
      → IsSafe limits mine (prepare_quarantined db limits clock installation p u)
  prepare_quarantined-IsSafe (s, throw e) u = tt
  prepare_quarantined-IsSafe (s, ok n) u =
      prepare_queued-IsSafe _ _ (λ rows h. pending-length limits.max_batch _ s rows h)

prepare_active-IsSafe :
    (db : Sqlite) (limits : Limits) (clock : Clock) (installation : String) (active : Bool)
    (u : Uploader)
    → let c : Option Credential =
        some (record { installation_id = installation; active = active }) in
      IsSafe limits c (prepare_with db limits clock c u)
prepare_active-IsSafe db limits clock installation true u =
    prepare_quarantined-IsSafe db limits clock installation _ u
prepare_active-IsSafe db limits clock installation false u = tt

prepare_with-IsSafe :
    (db : Sqlite) (limits : Limits) (clock : Clock) (c : Option Credential) (u : Uploader)
    → IsSafe limits c (prepare_with db limits clock c u)
prepare_with-IsSafe db limits clock none u = tt
prepare_with-IsSafe db limits clock (some c) u =
    prepare_active-IsSafe db limits clock c.installation_id c.active u

-- A send offers the server a batch only under an active credential, and the batch holds only
-- events that belong to the credential's installation or to none, no more of them than the limit
-- of the batch, in a body no longer than the limit of the body.
pub prepare-IsSafe :
    (db : Sqlite) (limits : Limits) (w : World) (u : Uploader)
    → IsSafe limits w.credential (prepare db limits w u)
unfolding prepare
prepare-IsSafe db limits w u = prepare_with-IsSafe db limits w.clock w.credential u
