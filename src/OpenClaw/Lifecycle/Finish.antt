-- ===== src/OpenClaw/Lifecycle/Finish.antt =====
-- src/adapters/openclaw/hooks.js: the branch of `processDetailed` for a final reply and for the runtime's
-- reconciliation, which end a task.
use sidewisp_plugin.Prelude.{
  ℕ, String, Bool, true, false, not, ◌&&◌, ◌||◌, Option, none, some, List, [], ◌∷◌, if◌then◌else◌,
  is_some,
}
use sidewisp_plugin.Prelude.Assoc.{lookup, modify, delete}
use sidewisp_plugin.OpenClaw.Lifecycle.{
  Event, Component, runtime_reconciliation, Key, task_key_of, run_key_of, Work, Inbound, Config,
  Lifecycle, World, Disposition, accepted, buffered, coalesced, touch, same_id, is_negative_type,
  is_completed_type, is_final_reply, is_warning, retarget,
}
use sidewisp_plugin.OpenClaw.Lifecycle.Registry.{
  find, assign, get_for, drop_inbound, clear_current, remember_retired_runs, retire_inbound,
  task_for_run, Found, nowhere, found, bound_task, or_else,
}
use sidewisp_plugin.OpenClaw.Lifecycle.Settlement.{defer_terminal, complete}
use sidewisp_plugin.OpenClaw.Lifecycle.Admission.{of_message}

abbrev pub is_reconciliation : Component → Bool
is_reconciliation runtime_reconciliation = true
is_reconciliation _ = false

abbrev pub is_found : Found → Bool
is_found (found key w) = true
is_found _ = false

-- `deferTerminal(...) ? buffered() : coalesced()`
abbrev pub deferred_as : Lifecycle × Bool → Lifecycle × Disposition
deferred_as (l, true) = (l, buffered)
deferred_as (l, false) = (l, coalesced)

-- `accepted(complete(...))`
abbrev pub completed_with : ℕ → Key → Work → Event → Lifecycle → Lifecycle × Disposition
completed_with now key w e l = (complete now key w e l, accepted e)

-- A task that ends before it has started.
abbrev pub closing : ℕ → Work → Work
closing now w = record w { terminal = true; durable = true; updated_at = now }

abbrev pub is_awaited_final : Work → Event → Bool
is_awaited_final w p = is_final_reply p.component && w.awaiting_final && not w.confirmed

-- The end of a started task: without a pending terminal, and with one.
abbrev pub settle_started :
    Config → World → Event → Key → Work → Option Event → Lifecycle → Lifecycle × Disposition
settle_started c world e key w none l =
    let final = is_final_reply e.component in
    if final
      && (is_completed_type e.type && (w.detached || w.question_wait)
          || is_negative_type e.type
          || is_warning e.status)
    then deferred_as (defer_terminal c world key w e l)
    else completed_with world.now key w (retarget l.copies e w) l
settle_started c world e key w (some p) l =
    let final = is_final_reply e.component in
    if is_negative_type p.type
    then completed_with world.now key w p l
    else if final && is_awaited_final w p && not (is_negative_type e.type)
    then (l, coalesced)
    else if final && is_negative_type e.type
    then deferred_as (defer_terminal c world key w e l)
    else if final && is_warning e.status && not (is_completed_type p.type)
    then completed_with world.now key w p l
    else completed_with world.now key w (retarget l.copies e w) l

-- The end of the task `w` of the key
unfoldable pub settle : Config → World → Event → Key → Work → Lifecycle → Lifecycle × Disposition
unfolding modify defer_terminal complete
settle c world e key w l =
    if is_final_reply e.component && is_some e.message_id && not (same_id e.message_id w.message_id)
    then (l, coalesced)
    else if w.terminal
    then (assign key (touch world.now) l, coalesced)
    else if w.started
    then settle_started c world e key (touch world.now w) w.pending (assign key (touch world.now) l)
    else (clear_current key w (assign key (closing world.now) l), coalesced)

abbrev pub list_of : Option String → List String
list_of none = []
list_of (some r) = r ∷ []

-- The pending message, unless the event names another.
abbrev pub unless_other : Option String → Option Inbound → Option Inbound
unless_other none p = p
unless_other (some m) p = of_message (some m) p

abbrev pub unowned : Config → ℕ → Event → Found → Lifecycle → Lifecycle × Disposition
unowned c now e nowhere l =
    let pending = unless_other e.message_id (get_for e.session_id l.inbound) in
    (
      drop_inbound c now e.session_id pending
          (remember_retired_runs c e.session_id (list_of e.turn_id) l),
      coalesced,
    )
unowned c now e _ l = (l, coalesced)

abbrev pub reconcile_run :
    Config → ℕ → Event → Found → Option Key → Option Work → Lifecycle → Lifecycle × Disposition
reconcile_run c now e owner none w l = unowned c now e owner l
reconcile_run c now e owner (some key) none l = unowned c now e owner l
reconcile_run c now e owner (some key) (some w) l =
    if w.terminal then unowned c now e owner l else completed_with now key w e l

abbrev pub find_for : Option Key → Lifecycle → Option Work
find_for none l = none
find_for (some key) l = find key l

abbrev pub reconcile : Config → World → Event → Found → Found → Lifecycle → Lifecycle × Disposition
reconcile c world e owner (found key w) l = settle c world e key w l
reconcile c world e owner _ l =
    let key = run_key_of e.session_id e.turn_id in
    reconcile_run c world.now e owner key (find_for key l) l

abbrev pub finish_owner : Config → World → Event → Found → Lifecycle → Lifecycle × Disposition
finish_owner c world e (found key w) l = settle c world e key w l
finish_owner c world e owner l =
    if is_reconciliation e.component
    then reconcile c world e owner (bound_task (task_key_of e.session_id e.turn_id) l) l
    else unowned c world.now e owner l

-- The task that a final reply without a run names by its message.
abbrev pub exact_final : Event → Lifecycle → Found
exact_final e l =
    if is_final_reply e.component && not (is_some e.turn_id)
    then bound_task (task_key_of e.session_id e.message_id) l
    else nowhere

unfoldable pub finish : Config → World → Event → Lifecycle → Lifecycle × Disposition
unfolding lookup delete settle task_for_run remember_retired_runs retire_inbound complete
finish c world e l =
    let exact = exact_final e l in
    if not (is_some e.turn_id) && not (is_found exact)
    then (
      drop_inbound c world.now e.session_id
          (of_message e.message_id (get_for e.session_id l.inbound)) l,
      coalesced,
    )
    else finish_owner c world e (or_else exact (task_for_run e.session_id e.turn_id l)) l
