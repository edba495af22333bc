-- ===== src/OpenClaw/Lifecycle/ActiveWork.antt =====
-- src/adapters/openclaw/hooks.js: the lifecycle's operations beside `processDetailed`: the active work and
-- its restoration, the timers, `flushPending` and `cancelActiveRuns`.
use sidewisp_plugin.Prelude.{
  ℕ, suc, ◌+◌, length, String, Bool, true, false, not, ◌&&◌, ◌||◌, Option, none, some, List, [],
  ◌∷◌, ◌++◌, leb, if◌then◌else◌, is_some, filter, map,
}
use sidewisp_plugin.Prelude.Assoc.{lookup, modify}
use sidewisp_plugin.OpenClaw.Lifecycle.{
  Event, Key, task_key_of, run_key_of, Kind, task, run, Work, Config, Lifecycle, World, is_task,
  retarget, clear_pending, suppress,
}
use sidewisp_plugin.OpenClaw.Lifecycle.Registry.{
  find, has_record, assign, clear_current, track, current_task,
}
use sidewisp_plugin.OpenClaw.Lifecycle.Settlement.{attempt_pending}
use sidewisp_plugin.OpenClaw.Lifecycle.Admission.{set_current, bind_work}
use sidewisp_plugin.OpenClaw.Lifecycle.Finish.{is_found}

-- An entry of the active work. A run has a turn and a session only.
pub record ActiveEntry : Type 0 where
  pub kind : Kind
  pub session_id : Option String
  pub message_id : Option String
  pub turn_id : Option String
  pub outer_run_id : Option String
  pub internal_run_ids : List String
  pub started : Bool
  pub detached : Bool

abbrev pub entry_of : Work → ActiveEntry
entry_of w = record {
  kind = w.kind;
  session_id = w.session_id;
  message_id = w.message_id;
  turn_id = w.turn_id;
  outer_run_id = w.outer_run_id;
  internal_run_ids = w.internal_run_ids;
  started = w.started;
  detached = w.detached;
}

abbrev pub is_active : Work → Bool
is_active w = not w.terminal || not w.durable

-- `activeWork`, between steps, when no record is staged
unfoldable pub active_work : Lifecycle → List ActiveEntry
active_work l = map (λ r. entry_of r.1) (filter (λ r. is_active r.1) l.records)

abbrev pub only_task : {A : Type 0} → Kind → A → A → A
only_task task a b = a
only_task run a b = b

abbrev pub restored_work : ℕ → ActiveEntry → Work
restored_work now a = record {
  kind = a.kind;
  session_id = a.session_id;
  message_id = only_task a.kind a.message_id none;
  turn_id = a.turn_id;
  outer_run_id = only_task a.kind a.outer_run_id none;
  internal_run_ids = only_task a.kind a.internal_run_ids [];
  started = only_task a.kind a.started false;
  terminal = false;
  durable = false;
  pending = none;
  retryable = false;
  awaiting_final = false;
  confirmed = false;
  persist_attempts = 0;
  deadline = none;
  timer = none;
  start_event = none;
  terminal_event = none;
  resume_pending = only_task a.kind a.started true;
  resume_event = none;
  detached = only_task a.kind a.detached false;
  question_wait = false;
  updated_at = now;
}

abbrev pub restored_task : Config → Key → Work → Lifecycle × Bool → Lifecycle × ℕ
restored_task c key w (l, false) = (l, 0)
restored_task c key w (l, true) = (
  bind_work c key w w.internal_run_ids (if w.detached then l else set_current w.session_id key l),
  1,
)

abbrev pub restored_run : Lifecycle × Bool → Lifecycle × ℕ
restored_run (l, false) = (l, 0)
restored_run (l, true) = (l, 1)

abbrev pub restore_keyed : Config → ℕ → ActiveEntry → Kind → Option Key → Lifecycle → Lifecycle × ℕ
restore_keyed c now a kind none l = (l, 0)
restore_keyed c now a task (some key) l =
    if has_record key l || not a.detached && is_found (current_task a.session_id l)
    then (l, 0)
    else restored_task c key (restored_work now a) (track c key (restored_work now a) l)
restore_keyed c now a run (some key) l =
    if has_record key l then (l, 0) else restored_run (track c key (restored_work now a) l)

abbrev pub entry_key : ActiveEntry → Option Key
entry_key a = elim a.kind [
  | task ↦ task_key_of a.session_id a.message_id
  | run ↦ run_key_of a.session_id a.turn_id
]

abbrev pub restore_entry : Config → ℕ → ActiveEntry → Lifecycle → Lifecycle × ℕ
restore_entry c now a l = restore_keyed c now a a.kind (entry_key a) l

-- `restoreActiveWork`: the records, and the number of entries restored.
unfoldable pub restore_active_work : Config → ℕ → List ActiveEntry → Lifecycle → Lifecycle × ℕ
unfolding current_task track lookup
restore_active_work c now [] l = (l, 0)
restore_active_work c now (a ∷ entries) l =
    let step = restore_entry c now a l in
    let rest = restore_active_work c now entries step.0 in (rest.0, step.1 + rest.1)

abbrev pub is_due : ℕ → Work → Bool
is_due now w = elim w.timer [ none ↦ false | some t ↦ leb t now ]

abbrev pub fired : Work → Work
fired w = record w { timer = none }

abbrev pub fire_work : Config → World → Key → Option Work → Lifecycle → Lifecycle
fire_work c world key none l = l
fire_work c world key (some w) l =
    if is_due world.now w then (attempt_pending c world key (assign key fired l)).0 else l

-- The timer of a pending terminal, when its time has come.
unfoldable pub fire_timer : Config → World → Key → Lifecycle → Lifecycle
unfolding attempt_pending lookup modify
fire_timer c world key l = fire_work c world key (find key l) l

abbrev pub is_flushable : Work → Bool
is_flushable w = is_some w.pending && not w.awaiting_final && not w.terminal

abbrev pub flush_records : Config → World → List (Key × Work) → Lifecycle → Lifecycle
flush_records c world [] l = l
flush_records c world ((key, w) ∷ entries) l =
    flush_records c world entries (if is_flushable w then (attempt_pending c world key l).0 else l)

-- `flushPending`
unfoldable pub flush_pending : Config → World → Lifecycle → Lifecycle
unfolding attempt_pending
flush_pending c world l = flush_records c world l.records l

-- What `cancelActiveRuns` does with a record: nothing, an end without a terminal, or a terminal.
pub data Cancelling : Type 0 where
  spared closed cancelled_now : Cancelling

abbrev pub cancelling : Work → Cancelling
cancelling w =
    if w.terminal || is_some w.pending && not w.awaiting_final
    then spared
    else if is_task w && not w.started
    then closed
    else cancelled_now

abbrev pub withdrawn : Key → Work → Lifecycle → Lifecycle
withdrawn key w l = if w.awaiting_final then assign key clear_pending (suppress w.pending l) else l

abbrev pub closed_work : Work → Work
closed_work w = record w { terminal = true; durable = true }

abbrev pub cancelled_work : Event → Work → Work
cancelled_work e w = record w { terminal = true; durable = true; terminal_event = some e }

abbrev pub cancel_by :
    Cancelling
    → (make : Option String → Option String → Event) → Key
    → Work
    → Lifecycle
    → Lifecycle × List Event
cancel_by spared make key w l = (l, [])
cancel_by closed make key w l =
    (clear_current key w (assign key closed_work (withdrawn key w l)), [])
cancel_by cancelled_now make key w l =
    let made = make w.turn_id w.session_id in
    let e = if is_task w then retarget l.copies made w else made in
    let l' = clear_current key w (assign key (cancelled_work e) (withdrawn key w l)) in
    (record l' { copies = suc l'.copies }, e ∷ [])

abbrev pub cancel_records :
    (make : Option String → Option String → Event)
    → List (Key × Work)
    → Lifecycle
    → Lifecycle × List Event
cancel_records make [] l = (l, [])
cancel_records make ((key, w) ∷ entries) l =
    let step = cancel_by (cancelling w) make key w l in
    let rest = cancel_records make entries step.0 in (rest.0, step.1 ++ rest.1)

-- `cancelActiveRuns`
unfoldable pub cancel_active_runs :
    (make : Option String → Option String → Event) → Lifecycle → Lifecycle × List Event
unfolding modify
cancel_active_runs make l = cancel_records make l.records l

-- `status`, without the depth of the pending observations
pub record Counts : Type 0 where
  pub active_runs : ℕ
  pub pending_terminals : ℕ
  pub awaiting_finals : ℕ
  pub pending_timers : ℕ
  pub tracked_runs : ℕ
  pub pending_observations : ℕ

unfoldable pub counts : Lifecycle → Counts
unfolding active_work
counts l = record {
  active_runs = length (active_work l);
  pending_terminals = length (filter (λ r. is_some r.1.pending) l.records);
  awaiting_finals = length (filter (λ r. r.1.awaiting_final) l.records);
  pending_timers = length (filter (λ r. is_some r.1.timer) l.records);
  tracked_runs = length l.records;
  pending_observations = length l.inbound;
}
