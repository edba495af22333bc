-- ===== src/OpenClaw/Lifecycle/Lateness.antt =====
-- src/adapters/openclaw/hooks.js: a task that has ended accepts nothing more.
use sidewisp_plugin.Prelude.{
  String, Bool, true, false, not, ◌&&◌, ◌||◌, ◌≡◌, refl, sym, Option, none, some, if◌then◌else◌,
  is_some, arith,
}
use mathlib.Core.Path.{subst}
use sidewisp_plugin.OpenClaw.Lifecycle.{
  Event, Key, Work, Config, Lifecycle, World, Disposition, coalesced, is_final_reply,
  is_terminal_type, is_started_type, task_key_of,
}
use sidewisp_plugin.OpenClaw.Lifecycle.Registry.{
  Found, nowhere, retired, found, prune, task_for_run, or_else, bound_task, drop_inbound, get_for,
}
use sidewisp_plugin.OpenClaw.Lifecycle.Finish.{settle, is_found, finish_owner, exact_final, finish}
use sidewisp_plugin.OpenClaw.Lifecycle.Admission.{of_message}
use sidewisp_plugin.OpenClaw.Lifecycle.Turns.{work_event, turn_owner, turn_event}
use sidewisp_plugin.OpenClaw.Lifecycle.Process.{next_copy, process, process_pruned}

task_for_run-is_some :
    (session turn : Option String) (key : Key) (w : Work) (l : Lifecycle)
    → task_for_run session turn l ≡ found key w
    → is_some turn ≡ true
unfolding task_for_run
task_for_run-is_some session none key w l h = ground arith
task_for_run-is_some session (some r) key w l h = refl

exact_final-nowhere :
    (e : Event) (l : Lifecycle) → is_some e.turn_id ≡ true → exact_final e l ≡ nowhere
exact_final-nowhere e l h = by_test (is_some e.turn_id) h
  where
    by_test :
        (i : Bool)
        → i ≡ true
        → (if is_final_reply e.component && not i
            then bound_task (task_key_of e.session_id e.message_id) l
            else nowhere)
          ≡ nowhere
    by_test true k = ground arith
    by_test false k = ground arith

module _ (c : Config) (world : World) (e : Event) (key : Key) (w : Work)
    (over : w.terminal ≡ true) where
  settle-over : (l : Lifecycle) → (settle c world e key w l).1 ≡ coalesced
  unfolding settle
  settle-over l = ground arith

  work_event-over : (l : Lifecycle) → (work_event c world e key w l).1 ≡ coalesced
  unfolding work_event
  work_event-over l = ground arith

  finish_owner-over : (l : Lifecycle) → (finish_owner c world e (found key w) l).1 ≡ coalesced
  finish_owner-over l = settle-over l

  finish-over :
      (l : Lifecycle)
      → task_for_run e.session_id e.turn_id l ≡ found key w
      → (finish c world e l).1 ≡ coalesced
  unfolding finish
  finish-over l h =
      by_parts (is_some e.turn_id) (exact_final e l)
        (task_for_run-is_some e.session_id e.turn_id key w l h)
        (exact_final-nowhere e l (task_for_run-is_some e.session_id e.turn_id key w l h))
    where
      by_parts :
          (i : Bool) (x : Found)
          → i ≡ true
          → x ≡ nowhere
          → (if◌then◌else◌ {A = Lifecycle × Disposition}
              (not i && not (is_found x))
              (
                drop_inbound c world.now e.session_id
                    (of_message e.message_id (get_for e.session_id l.inbound))
                    l,
                coalesced,
              )
              (finish_owner c world e (or_else x (task_for_run e.session_id e.turn_id l)) l)).1
            ≡ coalesced
      by_parts true nowhere p q =
          subst (λ o. (finish_owner c world e o l).1 ≡ coalesced) (sym h) (finish_owner-over l)
      by_parts true retired p q = ground arith
      by_parts true (found k v) p q = ground arith
      by_parts false x p q = ground arith

  turn_event-over :
      (l : Lifecycle)
      → task_for_run e.session_id e.turn_id l ≡ found key w
      → (turn_event c world e l).1 ≡ coalesced
  unfolding turn_event
  turn_event-over l h =
      subst (λ o. (turn_owner c world e o l).1 ≡ coalesced) (sym h) (work_event-over l)

  process_pruned-over :
      (l : Lifecycle)
      → task_for_run e.session_id e.turn_id l ≡ found key w
      → (is_terminal_type e.type || is_started_type e.type) ≡ true
      → (process_pruned c world e l).1 ≡ coalesced
  process_pruned-over l h t = ground (arith, finish-over l h, turn_event-over l h)

  -- A start or an end of a run whose task has ended is coalesced, be it a final reply, a reconciliation or the
  -- runtime's own event.
  pub process-over :
      (l : Lifecycle)
      → task_for_run e.session_id e.turn_id (prune c world.now (next_copy l)) ≡ found key w
      → (is_terminal_type e.type || is_started_type e.type) ≡ true
      → (process c world e l).1 ≡ coalesced
  unfolding process
  process-over l h t = process_pruned-over (prune c world.now (next_copy l)) h t
