-- ===== src/Delivery/Spool/Quarantine.antt =====
-- src/delivery/spool.js: `quarantineOtherInstallations`, and the part of `openSpool` that runs on
-- the opened database.
use sidewisp_plugin.Prelude.{
  ℕ, suc, String, Bool, true, false, not, ◌&&◌, ◌||◌, Option, none, some, List, [], ◌∷◌, ◌++◌, map,
  ltb, eqb, if◌then◌else◌, filter, any, length, ◌==◌,
}
use sidewisp_plugin.Delivery.Spool.{
  Row, PendingRow, Tables, Item, event, diagnostic, usage_batch, Archived, Sqlite, Spool, Clock,
  Result, ok, throw, type_error,
}
use sidewisp_plugin.Delivery.Spool.Quota.{commit, compact, delete_acknowledged}

-- `json_extract(payload, '$.installationId') IS NOT NULL AND … != ?`
abbrev pub is_foreign : String → Row → Bool
is_foreign active r = elim r.payload.installation_id [
  | none ↦ false
  | some installation ↦ not (installation == active)
]

-- `installation_id != ?`
abbrev pub is_foreign_pending : String → PendingRow → Bool
is_foreign_pending active r = not (r.installation_id == active)

-- The rows of the three statements, in the order of the loop.
unfoldable pub foreign_items : String → Tables → List Item
foreign_items active t =
    map event (filter (is_foreign active) t.events)
    ++ (map diagnostic (filter (is_foreign_pending active) t.diagnostics)
        ++ map usage_batch (filter (is_foreign_pending active) t.usage))

abbrev pub same_time : Option ℕ → Option ℕ → Bool
same_time none none = true
same_time none (some b) = false
same_time (some a) none = false
same_time (some a) (some b) = eqb a b

abbrev pub same_row : Row → Row → Bool
same_row a b =
    a.event_id == b.event_id
    && (a.payload.json == b.payload.json
        && (a.source == b.source
            && (a.cursor == b.cursor
                && (eqb a.created_at b.created_at && same_time a.acked_at b.acked_at))))

abbrev pub same_pending : PendingRow → PendingRow → Bool
same_pending a b =
    a.installation_id == b.installation_id
    && (a.item_id == b.item_id && (a.payload == b.payload && eqb a.created_at b.created_at))

-- The archive's primary key, kind, id and JSON text: two rows share it when their columns agree.
unfoldable pub same_item : Item → Item → Bool
same_item (event a) (event b) = same_row a b
same_item (diagnostic a) (diagnostic b) = same_pending a b
same_item (usage_batch a) (usage_batch b) = same_pending a b
same_item _ _ = false

abbrev pub is_archived : Item → List Archived → Bool
is_archived x archive = any (λ a. same_item x a.item) archive

-- `INSERT OR IGNORE INTO quarantined`
unfoldable pub save_item : ℕ → Item → List Archived → List Archived
unfolding same_item
save_item now x archive =
    if is_archived x archive
    then archive
    else archive ++ record { item = x; archived_at = now } ∷ []

-- Each item has its own reading of the clock.
unfoldable pub save_items : Clock → ℕ → List Item → List Archived → List Archived
unfolding save_item
save_items clock i [] archive = archive
save_items clock i (x ∷ xs) archive = save_items clock (suc i) xs (save_item (clock i) x archive)

unfoldable pub without_foreign : String → Tables → Tables
without_foreign active t = record t {
  events = filter (λ r. not (is_foreign active r)) t.events;
  diagnostics = filter (λ r. not (is_foreign_pending active r)) t.diagnostics;
  usage = filter (λ r. not (is_foreign_pending active r)) t.usage;
}

unfoldable pub has_foreign : String → Tables → Bool
has_foreign active t =
    any (is_foreign active) t.events
    || (any (is_foreign_pending active) t.diagnostics || any (is_foreign_pending active) t.usage)

-- The archive is written and committed before the live rows go.
unfoldable pub move_foreign : Sqlite → Clock → String → Spool → Spool
unfolding foreign_items save_items without_foreign commit compact
move_foreign db clock active s = compact db (
    commit db (without_foreign active s.tables)
      (record s { archive = save_items clock 0 (foreign_items active s.tables) s.archive }))

unfoldable pub quarantine_other_installations : Sqlite → Clock → String → Spool → Spool × Result ℕ
unfolding has_foreign move_foreign
quarantine_other_installations db clock active s =
    if active == ""
    then (s, throw (type_error "installationId is required"))
    else if not (has_foreign active s.tables)
    then (s, ok 0)
    else (move_foreign db clock active s, ok (length (foreign_items active s.tables)))

-- `if (installationId) quarantineOtherInstallations(installationId)`
abbrev quarantine_on_open : Sqlite → Clock → Option String → Spool → Spool
quarantine_on_open db clock none s = s
quarantine_on_open db clock (some active) s =
    if active == "" then s else (quarantine_other_installations db clock active s).0

-- The start of an open spool: quarantine, pruning, and compaction, which `configureCompaction`
-- has done already where `auto_vacuum` was not yet incremental.
unfoldable pub start :
    Sqlite → Clock → (now : ℕ) → Option String → (incremental : Bool) → Spool → Spool
unfolding quarantine_other_installations
start db clock now installation incremental s =
    let s' = quarantine_on_open db clock installation s in
    let (t, pruned) = delete_acknowledged now s'.retention_ms s'.tables in
    let s'' = commit db t s' in if not incremental || ltb 0 pruned then compact db s'' else s''
