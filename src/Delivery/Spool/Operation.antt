-- ===== src/Delivery/Spool/Operation.antt =====
-- src/delivery/spool.js: the operations of an open spool that change it, as one step function, and
-- the runs that they form.
use sidewisp_plugin.Prelude.{ℕ, String, Bool, List, [], ◌∷◌}
use sidewisp_plugin.Delivery.Spool.{Event, Sqlite, Spool, Clock}
use sidewisp_plugin.Delivery.Spool.Quota
use sidewisp_plugin.Delivery.Spool.Queue
use sidewisp_plugin.Delivery.Spool.Coalesce
use sidewisp_plugin.Delivery.Spool.Quarantine

pub data Operation : Type 0 where
  enqueue_source_batch : (source cursor : String) → Clock → List Event → Bool → Operation
  advance_cursor : (source value : String) → ℕ → Operation
  acknowledge : Clock → List String → Operation
  dead_letter : ℕ → (id reason : String) → Operation
  coalesce_runtime_diagnostic : (installation snapshot payload : String) → ℕ → Operation
  acknowledge_runtime_diagnostic : (installation snapshot : String) → Operation
  coalesce_usage_batch : (installation batch payload : String) → ℕ → Operation
  acknowledge_usage_batch : (installation batch : String) → Operation
  quarantine_other_installations : Clock → String → Operation
  prune : ℕ → Operation

-- The spool after an operation, whether it returned or threw.
unfoldable pub run : Sqlite → Operation → Spool → Spool
unfolding Queue.enqueue_source_batch Queue.advance_cursor Queue.acknowledge Queue.dead_letter
    Coalesce.coalesce_runtime_diagnostic Coalesce.acknowledge_runtime_diagnostic
    Coalesce.coalesce_usage_batch Coalesce.acknowledge_usage_batch
    Quarantine.quarantine_other_installations Quota.prune
run db (enqueue_source_batch source cursor clock events callback) s =
    (Queue.enqueue_source_batch db source cursor clock events callback s).0
run db (advance_cursor source value now) s = Queue.advance_cursor db source value now s
run db (acknowledge clock ids) s = (Queue.acknowledge db clock ids s).0
run db (dead_letter now id reason) s = Queue.dead_letter db now id reason s
run db (coalesce_runtime_diagnostic installation snapshot payload now) s =
    (Coalesce.coalesce_runtime_diagnostic db installation snapshot payload now s).0
run db (acknowledge_runtime_diagnostic installation snapshot) s =
    (Coalesce.acknowledge_runtime_diagnostic db installation snapshot s).0
run db (coalesce_usage_batch installation batch payload now) s =
    (Coalesce.coalesce_usage_batch db installation batch payload now s).0
run db (acknowledge_usage_batch installation batch) s =
    (Coalesce.acknowledge_usage_batch db installation batch s).0
run db (quarantine_other_installations clock active) s =
    (Quarantine.quarantine_other_installations db clock active s).0
run db (prune now) s = (Quota.prune db now s).0

unfoldable pub run_all : Sqlite → List Operation → Spool → Spool
unfolding run
run_all db [] s = s
run_all db (op ∷ ops) s = run_all db ops (run db op s)
