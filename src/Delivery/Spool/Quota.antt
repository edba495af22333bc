-- ===== src/Delivery/Spool/Quota.antt =====
-- src/delivery/spool.js: the removal of acknowledged rows, and the quota on disk.
use sidewisp_plugin.Prelude.{
  ℕ, ◌+◌, Bool, false, not, ◌||◌, none, some, ltb, leb, if◌then◌else◌, filter, length,
}
use sidewisp_plugin.Delivery.Spool.{Row, Tables, Sqlite, Spool, Result, ok, throw, spool_error}

-- `acked_at IS NOT NULL AND acked_at <= now - retentionMs`, without a subtraction.
abbrev pub is_expired : (now retention : ℕ) → Row → Bool
is_expired now retention r = elim r.acked_at [ none ↦ false | some t ↦ leb (t + retention) now ]

-- A committed change of the tables.
unfoldable pub commit : Sqlite → Tables → Spool → Spool
commit db t s = record s { tables = t; files = db.written t s.files }

unfoldable pub compact : Sqlite → Spool → Spool
compact db s = record s { files = db.compacted s.tables s.files }

-- `deleteAcknowledged`: the tables left, and the number of rows removed.
unfoldable pub delete_acknowledged : (now retention : ℕ) → Tables → Tables × ℕ
delete_acknowledged now retention t = (
  record t { events = filter (λ r. not (is_expired now retention r)) t.events },
  length (filter (is_expired now retention) t.events),
)

unfoldable pub prune : Sqlite → ℕ → Spool → Spool × ℕ
unfolding delete_acknowledged commit compact
prune db now s =
    let (t, pruned) = delete_acknowledged now s.retention_ms s.tables in
    let s' = commit db t s in
    (if ltb 0 pruned || ltb 0 s'.files.freelist then compact db s' else s', pruned)

-- `assertQuota`: the rows that it removes stay removed when it throws.
unfoldable pub assert_quota : Sqlite → (now extra : ℕ) → Spool → Spool × Result (Unit {0})
unfolding prune
assert_quota db now extra s =
    if leb (s.files.disk_usage + extra) s.max_bytes
    then (s, ok tt)
    else (let s' = (prune db now s).0 in
        if leb (s'.files.disk_usage + extra) s'.max_bytes
        then (s', ok tt)
        else (s', throw (spool_error "quota-exceeded")))
