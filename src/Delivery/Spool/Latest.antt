-- ===== src/Delivery/Spool/Latest.antt =====
-- src/delivery/spool.js: the two tables of coalesced documents keep the latest one of each
-- installation.
use sidewisp_plugin.Prelude.{
  ℕ, String, len, ◌≡◌, refl, ap, ◌∙◌, Bool, false, not, Option, none, some, List, arith,
  if◌then◌else◌, ◌==◌, eq_iff, [], ◌∷◌,
}
use sidewisp_plugin.Prelude.Table.{
  find, guarded, IsKeyed, find-upsert, find-filter, length-filter_key,
}
use sidewisp_plugin.Delivery.Spool.{PendingRow, Sqlite, Spool, ok, throw}
use sidewisp_plugin.Delivery.Spool.Quota.{assert_quota}
use sidewisp_plugin.Delivery.Spool.Coalesce.{
  pending_id, new_pending, document, coalesce_runtime_diagnostic, pending_runtime_diagnostic,
  acknowledge_runtime_diagnostic, is_document,
}

quota_diagnostics :
    (db : Sqlite) (now extra : ℕ) (s : Spool)
    → (assert_quota db now extra s).0.tables.diagnostics ≡ s.tables.diagnostics
unfolding assert_quota
quota_diagnostics db now extra s = ground arith

-- After a snapshot was coalesced, it is what is pending for its installation; what is pending for
-- any other installation is as before. When the quota refused it, nothing pending has changed.
pub pending-coalesce :
    (db : Sqlite) (installation snapshot payload other : String) (now : ℕ) (s : Spool)
    → let (s', r) = coalesce_runtime_diagnostic db installation snapshot payload now s in
      pending_runtime_diagnostic other s' ≡ (elim r [
        | ok _ ↦
            if installation == other
            then some (snapshot, payload)
            else pending_runtime_diagnostic other s
        | throw _ ↦ pending_runtime_diagnostic other s
      ])
unfolding coalesce_runtime_diagnostic pending_runtime_diagnostic
pending-coalesce db installation snapshot payload other now s =
    let (s', r) = assert_quota db now (len payload) s in
    ground (
      arith,
      quota_diagnostics db now (len payload) s,
      find-upsert pending_id other (new_pending installation snapshot payload now)
          s'.tables.diagnostics,
    )

pub find_pending-id :
    (k : String) (t : List PendingRow) (r : PendingRow)
    → find pending_id k t ≡ some r
    → r.installation_id ≡ k
unfolding find
find_pending-id k [] r h = cc
find_pending-id k (q ∷ t) r h = ground (arith, eq_iff q.installation_id k, find_pending-id k t r)

-- Whether the id of the pending document is this one.
abbrev pub is_pending_id : String → Option (String × String) → Bool
is_pending_id item none = false
is_pending_id item (some d) = d.0 == item

document-guarded :
    (k item : String) (o : Option PendingRow)
    → ((r : PendingRow) → o ≡ some r → r.installation_id ≡ k)
    → document (guarded (λ r. not (is_document k item r)) o)
      ≡ (if is_pending_id item (document o) then none else document o)
document-guarded k item none h = refl
document-guarded k item (some r) h = ground (arith, h r refl, eq_iff r.installation_id k)

-- With distinct keys, an acknowledgement removes the pending snapshot of the installation and
-- reports so exactly when it names that snapshot: one for an older snapshot removes nothing.
pub acknowledge-latest :
    (db : Sqlite) (installation snapshot : String) (s : Spool)
    → IsKeyed pending_id s.tables.diagnostics
    → let (s', removed) = acknowledge_runtime_diagnostic db installation snapshot s in
      let current = is_pending_id snapshot (pending_runtime_diagnostic installation s) in
      (removed ≡ current)
      × (pending_runtime_diagnostic installation s'
          ≡ (if current then none else pending_runtime_diagnostic installation s))
unfolding acknowledge_runtime_diagnostic pending_runtime_diagnostic
acknowledge-latest db installation snapshot s keyed =
    let t = s.tables.diagnostics in
    (
      ground
          (arith, length-filter_key pending_id installation (λ r. r.item_id == snapshot) t keyed),
      ap document (
            find-filter pending_id installation (λ r. not (is_document installation snapshot r)) t
              keyed)
          ∙ document-guarded installation snapshot (find pending_id installation t)
              (find_pending-id installation t),
    )
