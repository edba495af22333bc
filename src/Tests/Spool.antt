-- ===== src/Tests/Spool.antt =====
-- src/delivery/spool.js on a queue of two installations' events.
use sidewisp_plugin.Prelude.{
  ℕ, String, ◌≡◌, refl, ◌≢◌, ◌⊎◌, ◌≤◌, true, false, none, some, List, [], ◌∷◌, arith, eq_iff,
  if◌then◌else◌,
}
use sidewisp_plugin.Prelude.Table.{find}
use sidewisp_plugin.Prelude.Sort.{sort}
use sidewisp_plugin.Prelude.Texts.{text_leb}
use sidewisp_plugin.Delivery.Spool.{Event, Row, PendingRow, Sqlite, Spool, Clock, ok}
use sidewisp_plugin.Delivery.Spool.Queue
use sidewisp_plugin.Delivery.Spool.Pending.{pending}
use sidewisp_plugin.Delivery.Spool.Coalesce.{
  pending_runtime_diagnostic, acknowledge_runtime_diagnostic,
}
use sidewisp_plugin.Delivery.Spool.Quarantine
use sidewisp_plugin.Delivery.Spool.Operation.{
  Operation, enqueue_source_batch, acknowledge, quarantine_other_installations, run_all,
}
use sidewisp_plugin.Delivery.Spool.Rows.{find_row}
use sidewisp_plugin.Delivery.Spool.Keys.{AreKeyed}
use sidewisp_plugin.Delivery.Spool.Fate.{Waits, LeftBy, run_all-kept}
use sidewisp_plugin.Delivery.Spool.Order.{IsQueueHead, pending-IsQueueHead}
use sidewisp_plugin.Delivery.Spool.Latest.{is_pending_id, acknowledge-latest}
use sidewisp_plugin.Delivery.Spool.Batches.{Outcome, enqueue-Outcome, find-acknowledge}
use sidewisp_plugin.Delivery.Spool.Isolation.{IsIsolated, quarantine-IsIsolated}

-- Files that never grow.
abbrev pub flat : Sqlite
flat = record { written = λ t f. f; compacted = λ t f. f }

abbrev pub tick : Clock
tick i = i

abbrev pub started : Event
started = record {
  event_id = "e1";
  installation_id = some "inst-a";
  type = "turn.started";
  json = "{}";
}

abbrev pub health_event : Event
health_event = record {
  event_id = "e2";
  installation_id = some "inst-a";
  type = "health.snapshot";
  json = "{}";
}

abbrev pub foreign_event : Event
foreign_event = record {
  event_id = "e3";
  installation_id = some "inst-b";
  type = "turn.started";
  json = "{}";
}

abbrev pub row_of : Event → ℕ → Row
row_of e now = Queue.new_row "hooks" "c0" now e

abbrev snapshot_row : PendingRow
snapshot_row = record {
  installation_id = "inst-a";
  item_id = "snap-1";
  payload = "{}";
  created_at = 4;
}

abbrev pub two_installations : Spool
two_installations = record {
  tables = record {
    events = row_of started 1 ∷ row_of health_event 2 ∷ row_of foreign_event 3 ∷ [];
    cursors = [];
    dead_letters = [];
    diagnostics = snapshot_row ∷ [];
    usage = [];
  };
  files = record { disk_usage = 100; freelist = 0 };
  archive = [];
  max_bytes = 4096;
  retention_ms = 0;
  recovered_from_corruption = false;
}

pub two_installations-AreKeyed : AreKeyed two_installations.tables
unfolding find
two_installations-AreKeyed = record {
  events = (refl, (refl, (refl, tt)));
  cursors = tt;
  dead_letters = tt;
  diagnostics = (refl, tt);
  usage = tt;
}

pub started-Waits : Waits two_installations "e1" (row_of started 1)
unfolding find
started-Waits = record { keyed = two_installations-AreKeyed; stored = refl; unacked = refl }

abbrev script : List Operation
script =
    enqueue_source_batch "hooks" "c1" tick (started ∷ []) true
    ∷ quarantine_other_installations tick "inst-a"
    ∷ acknowledge tick ("e2" ∷ [])
    ∷ []

run_all-kept_example :
    (find_row "e1" (run_all flat script two_installations).tables.events ≡ some (row_of started 1))
    ⊎ LeftBy flat script two_installations "e1" (row_of started 1)
run_all-kept_example =
    run_all-kept flat script two_installations "e1" (row_of started 1) started-Waits

first_two :
    pending 2 (some "inst-a") two_installations ≡ ok (("e2", health_event) ∷ ("e1", started) ∷ [])
unfolding pending sort text_leb
first_two = refl

pending-IsQueueHead_example :
    (1 ≤ 2)
    × (2 ≤ 1000)
    × IsQueueHead 2 (some "inst-a") two_installations (("e2", health_event) ∷ ("e1", started) ∷ [])
pending-IsQueueHead_example =
    pending-IsQueueHead 2 (some "inst-a") two_installations
      (("e2", health_event) ∷ ("e1", started) ∷ []) first_two

acknowledge-latest_example :
    let (s', removed) = acknowledge_runtime_diagnostic flat "inst-a" "snap-0" two_installations in
    let current = is_pending_id "snap-0" (pending_runtime_diagnostic "inst-a" two_installations) in
    (removed ≡ current)
    × (pending_runtime_diagnostic "inst-a" s'
        ≡ (if current then none else pending_runtime_diagnostic "inst-a" two_installations))
acknowledge-latest_example =
    acknowledge-latest flat "inst-a" "snap-0" two_installations
      two_installations-AreKeyed.diagnostics

enqueue-Outcome_example :
    Outcome flat "hooks" "c1" tick
      (started ∷ [])
      two_installations
      (Queue.enqueue_source_batch flat "hooks" "c1" tick (started ∷ []) true two_installations).0
      (Queue.enqueue_source_batch flat "hooks" "c1" tick (started ∷ []) true two_installations).1
enqueue-Outcome_example =
    enqueue-Outcome flat "hooks" "c1" tick (started ∷ []) true two_installations

find-acknowledge_example :
    find_row "e1" (Queue.acknowledge flat tick ("e1" ∷ []) two_installations).0.tables.events ≡ none
unfolding find
find-acknowledge_example =
    find-acknowledge flat tick ("e1" ∷ []) two_installations "e1" (row_of started 1)
      two_installations-AreKeyed (λ i j h. h) refl refl refl refl

named : ◌≢◌ {A = String} "inst-a" ""
named = ground (arith, eq_iff "inst-a" "")

quarantine-IsIsolated_example :
    let (s', r) = Quarantine.quarantine_other_installations flat tick "inst-a" two_installations in
    IsIsolated "inst-a" two_installations s' r
quarantine-IsIsolated_example = quarantine-IsIsolated flat tick "inst-a" two_installations named
