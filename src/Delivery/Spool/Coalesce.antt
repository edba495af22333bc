-- ===== src/Delivery/Spool/Coalesce.antt =====
-- src/delivery/spool.js: the two tables that hold one pending document for an installation, and
-- `prune`, `health` of the spool.
use sidewisp_plugin.Prelude.{
  ℕ, ◌*◌, String, len, Bool, not, ◌&&◌, Option, none, some, leb, eqb, if◌then◌else◌, filter, length,
  ◌==◌,
}
use sidewisp_plugin.Prelude.Table.{find, upsert}
use sidewisp_plugin.Delivery.Spool.{PendingRow, Sqlite, Spool, Result, ok, throw}
use sidewisp_plugin.Delivery.Spool.Quota.{commit, assert_quota}

abbrev pub pending_id : PendingRow → String
pending_id r = r.installation_id

abbrev pub new_pending : (installation item payload : String) → ℕ → PendingRow
new_pending installation item payload now = record {
  installation_id = installation;
  item_id = item;
  payload = payload;
  created_at = now;
}

abbrev write_diagnostic :
    Sqlite → PendingRow → Spool × Result (Unit {0}) → Spool × Result (Unit {0})
write_diagnostic db r (s, throw e) = (s, throw e)
write_diagnostic db r (s, ok _) = (
  commit db (record s.tables { diagnostics = upsert pending_id r s.tables.diagnostics }) s,
  ok tt,
)

abbrev write_usage : Sqlite → PendingRow → Spool × Result (Unit {0}) → Spool × Result (Unit {0})
write_usage db r (s, throw e) = (s, throw e)
write_usage db r (s, ok _) =
    (commit db (record s.tables { usage = upsert pending_id r s.tables.usage }) s, ok tt)

-- `now` is read by the quota, if it prunes, and by the row.
unfoldable pub coalesce_runtime_diagnostic :
    Sqlite → (installation snapshot payload : String) → ℕ → Spool → Spool × Result (Unit {0})
unfolding assert_quota upsert
coalesce_runtime_diagnostic db installation snapshot payload now s =
    write_diagnostic db (new_pending installation snapshot payload now)
      (assert_quota db now (len payload) s)

unfoldable pub coalesce_usage_batch :
    Sqlite → (installation batch payload : String) → ℕ → Spool → Spool × Result (Unit {0})
unfolding assert_quota upsert
coalesce_usage_batch db installation batch payload now s =
    write_usage db (new_pending installation batch payload now)
      (assert_quota db now (len payload) s)

-- The id and the document of a row.
abbrev pub document : Option PendingRow → Option (String × String)
document none = none
document (some r) = some (r.item_id, r.payload)

unfoldable pub pending_runtime_diagnostic : String → Spool → Option (String × String)
unfolding find
pending_runtime_diagnostic installation s =
    document (find pending_id installation s.tables.diagnostics)

unfoldable pub pending_usage_batch : String → Spool → Option (String × String)
unfolding find
pending_usage_batch installation s = document (find pending_id installation s.tables.usage)

abbrev pub is_document : (installation item : String) → PendingRow → Bool
is_document installation item r = r.installation_id == installation && r.item_id == item

-- `DELETE … WHERE installation_id=? AND snapshot_id=?`, and whether it removed one row.
unfoldable pub acknowledge_runtime_diagnostic :
    Sqlite → (installation snapshot : String) → Spool → Spool × Bool
unfolding commit
acknowledge_runtime_diagnostic db installation snapshot s = (
  commit db
      (record s.tables {
        diagnostics = filter (λ r. not (is_document installation snapshot r)) s.tables.diagnostics;
      })
      s,
  eqb (length (filter (is_document installation snapshot) s.tables.diagnostics)) 1,
)

unfoldable pub acknowledge_usage_batch :
    Sqlite → (installation batch : String) → Spool → Spool × Bool
unfolding commit
acknowledge_usage_batch db installation batch s = (
  commit db
      (record s.tables {
        usage = filter (λ r. not (is_document installation batch r)) s.tables.usage;
      })
      s,
  eqb (length (filter (is_document installation batch) s.tables.usage)) 1,
)

pub data Health : Type 0 where
  healthy degraded unhealthy : Health

-- `maxBytes * 0.8` as the exact fraction 4/5.
unfoldable pub health : Spool → Health
health s =
    if leb s.max_bytes s.files.disk_usage
    then unhealthy
    else if leb (4 * s.max_bytes) (5 * s.files.disk_usage)
    then degraded
    else healthy
