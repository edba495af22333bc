-- ===== src/OpenClaw/Lifecycle/Turns.antt =====
-- src/adapters/openclaw/hooks.js: the branches of `processDetailed` for progress, for tools, and for the start
-- and the end of a run.
use sidewisp_plugin.Prelude.{
  ℕ, String, Bool, true, false, not, ◌&&◌, ◌||◌, Option, none, some, [], ◌∷◌, ◌++◌, if◌then◌else◌,
  is_some, any,
}
use sidewisp_plugin.Prelude.Assoc.{evict, lookup, modify, drop_key}
use sidewisp_plugin.OpenClaw.Lifecycle.{
  Event, Component, ask_user_wait, Key, same_key, run_key_of, Work, run, Inbound, Config, Lifecycle,
  World, Disposition, accepted, coalesced, touch, same_string, same_id, is_task, is_negative_type,
  is_final_reply, is_settled, is_started_type, retarget, resumed_start, clear_pending, suppress,
}
use sidewisp_plugin.OpenClaw.Lifecycle.Registry.{
  find, assign, get_for, track, bind, task_for_run, current_task, Found, nowhere, retired, found,
}
use sidewisp_plugin.OpenClaw.Lifecycle.Settlement.{defer_terminal, complete}
use sidewisp_plugin.OpenClaw.Lifecycle.Finish.{deferred_as, completed_with}

-- Whether activity suppresses the pending terminal of the work.
abbrev pub is_unconfirmed : Work → Bool
is_unconfirmed w = is_some w.pending && not w.confirmed

-- `if (state.pendingTerminal && !state.pendingConfirmed) clearPending(state, true)`
abbrev pub withdraw : Key → Work → Lifecycle → Lifecycle
withdraw key w l = if is_unconfirmed w then assign key clear_pending (suppress w.pending l) else l

abbrev pub progress_of : ℕ → Event → Found → Lifecycle → Lifecycle × Disposition
progress_of now e (found key w) l =
    if w.terminal || not w.started
    then (l, coalesced)
    else (withdraw key w (assign key (touch now) l), accepted (retarget l.copies e w))
progress_of now e _ l = (l, coalesced)

-- The branch of `turn.progress`
unfoldable pub progress : ℕ → Event → Lifecycle → Lifecycle × Disposition
unfolding modify task_for_run
progress now e l = progress_of now e (task_for_run e.session_id e.turn_id l) l

abbrev pub is_wait : Component → Bool
is_wait ask_user_wait = true
is_wait _ = false

abbrev pub tool_seen : ℕ → Event → Work → Work
tool_seen now e w = record w {
  updated_at = now;
  question_wait = w.question_wait || is_wait e.component;
}

abbrev pub tool_of : ℕ → Event → Found → Lifecycle → Lifecycle × Disposition
tool_of now e (found key w) l =
    let seen = assign key (tool_seen now e) l in
    if w.terminal
    then (seen, accepted e)
    else (withdraw key w seen, accepted (retarget l.copies e w))
tool_of now e _ l = (l, accepted e)

-- The branch of `tool.*`
unfoldable pub tool_event : ℕ → Event → Lifecycle → Lifecycle × Disposition
unfolding modify task_for_run
tool_event now e l = tool_of now e (task_for_run e.session_id e.turn_id l) l

abbrev pub resuming : Event → Work → Work
resuming resumed w = record w { resume_pending = false; resume_event = some resumed }

abbrev pub starting : Event → Work → Work
starting start w = record w { started = true; start_event = some start }

-- The start of a run of the task `w`
abbrev pub start_work : Event → Key → Work → Lifecycle → Lifecycle × Disposition
start_work e key w l =
    let resumed = resumed_start l.copies e w in
    let start = retarget l.copies e w in
    if w.started
    then (if w.resume_pending
        then (assign key (resuming resumed) (withdraw key w l), accepted resumed)
        else (withdraw key w l, coalesced))
    else (assign key (starting start) l, accepted start)

abbrev pub is_final : Option Event → Bool
is_final none = false
is_final (some p) = is_final_reply p.component

-- The terminal of a settlement that a captured final waits for.
abbrev pub paired : Event → Option Event → Event
paired e none = e
paired e (some p) =
    if is_negative_type p.type
    then p
    else (elim p.preview [ none ↦ e | some s ↦ record e { preview = some s } ])

-- The end of a run of the task `w`
abbrev pub end_work : Config → World → Event → Key → Work → Lifecycle → Lifecycle × Disposition
end_work c world e key w l =
    if not w.started
    then (l, coalesced)
    else if is_settled e.status && is_negative_type e.type
    then completed_with world.now key w (retarget l.copies e w) l
    else if is_settled e.status && is_final w.pending
    then completed_with world.now key w (retarget l.copies (paired e w.pending) w) l
    else deferred_as (defer_terminal c world key w e l)

unfoldable pub work_event :
    Config → World → Event → Key → Work → Lifecycle → Lifecycle × Disposition
unfolding modify bind defer_terminal complete
work_event c world e key w l =
    let touched = assign key (touch world.now) l in
    let bound = bind c w.session_id key e.turn_id touched in
    if w.terminal
    then (touched, coalesced)
    else if is_started_type e.type
    then start_work e key (touch world.now w) bound
    else end_work c world e key (touch world.now w) bound

abbrev pub new_run : ℕ → Event → Bool → Work
new_run now e started = record {
  kind = run;
  session_id = e.session_id;
  message_id = none;
  turn_id = e.turn_id;
  outer_run_id = none;
  internal_run_ids = [];
  started = false;
  terminal = not started;
  durable = not started;
  pending = none;
  retryable = false;
  awaiting_final = false;
  confirmed = false;
  persist_attempts = 0;
  deadline = none;
  timer = none;
  start_event = if started then some e else none;
  terminal_event = if started then none else some e;
  resume_pending = false;
  resume_event = none;
  detached = false;
  question_wait = false;
  updated_at = now;
}

abbrev pub accepted_if : Event → Lifecycle × Bool → Lifecycle × Disposition
accepted_if e (l, true) = (l, accepted e)
accepted_if e (l, false) = (l, coalesced)

-- The end of an autonomous run
abbrev pub ending : ℕ → Event → Work → Work
ending now e w = record w {
  terminal = true;
  durable = true;
  terminal_event = some e;
  updated_at = now;
}

abbrev pub run_event : Config → ℕ → Event → Key → Option Work → Lifecycle → Lifecycle × Disposition
run_event c now e key none l =
    accepted_if e (track c key (new_run now e (is_started_type e.type)) l)
run_event c now e key (some w) l =
    if is_started_type e.type || w.terminal
    then (assign key (touch now) l, coalesced)
    else (assign key (ending now e) l, accepted e)

abbrev pub run_keyed : Config → ℕ → Event → Option Key → Lifecycle → Lifecycle × Disposition
run_keyed c now e none l = (l, coalesced)
run_keyed c now e (some key) l = run_event c now e key (find key l) l

-- A run of no task.
unfoldable pub autonomous : Config → ℕ → Event → Lifecycle → Lifecycle × Disposition
unfolding lookup modify track
autonomous c now e l = run_keyed c now e (run_key_of e.session_id e.turn_id) l

-- `pendingInbound.runIds.add(turnId)`, of which 64 stay at most.
abbrev pub note_pending_run : Option String → Inbound → Inbound
note_pending_run none p = p
note_pending_run (some r) p = record p {
  run_ids = evict 64 (drop_key same_string r p.run_ids) ++ r ∷ [];
}

abbrev pub ownerless_in :
    Config → ℕ → Event → Option String → Option Inbound → Lifecycle → Lifecycle × Disposition
ownerless_in c now e none p l = autonomous c now e l
ownerless_in c now e (some s) none l = autonomous c now e l
ownerless_in c now e (some s) (some p) l =
    (record l { inbound = modify same_string s (note_pending_run e.turn_id) l.inbound }, coalesced)

-- A run that no task owns: it waits for the session's pending message, or is autonomous.
unfoldable pub ownerless : Config → ℕ → Event → Lifecycle → Lifecycle × Disposition
unfolding lookup modify evict drop_key autonomous
ownerless c now e l = ownerless_in c now e e.session_id (get_for e.session_id l.inbound) l

-- Whether another task of the session is detached and has not ended.
abbrev pub is_rival : Key → Option String → Key × Work → Bool
is_rival key session (k, w) =
    not (same_key k key)
    && is_task w
    && same_id w.session_id session
    && w.detached
    && not w.terminal

abbrev pub attach : Config → World → Event → Found → Lifecycle → Lifecycle × Disposition
attach c world e (found key w) l =
    if any (is_rival key e.session_id) l.records
    then (l, coalesced)
    else work_event c world e key w l
attach c world e _ l = ownerless c world.now e l

abbrev pub turn_owner : Config → World → Event → Found → Lifecycle → Lifecycle × Disposition
turn_owner c world e (found key w) l = work_event c world e key w l
turn_owner c world e retired l = (l, coalesced)
turn_owner c world e nowhere l =
    if is_started_type e.type
    then attach c world e (current_task e.session_id l) l
    else ownerless c world.now e l

-- The start or the end of a run
unfoldable pub turn_event : Config → World → Event → Lifecycle → Lifecycle × Disposition
unfolding task_for_run current_task work_event ownerless
turn_event c world e l = turn_owner c world e (task_for_run e.session_id e.turn_id l) l
