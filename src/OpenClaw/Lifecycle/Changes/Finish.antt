-- ===== src/OpenClaw/Lifecycle/Changes/Finish.antt =====
-- src/adapters/openclaw/hooks.js: the branch for the end of a task, as a sequence of changes.
use sidewisp_plugin.Prelude.{ℕ, Bool, true, false, not, ◌&&◌, refl, Option, none, some}
use sidewisp_plugin.OpenClaw.Lifecycle.{
  Event, Key, task_key_of, Work, Config, Lifecycle, World, touch, is_final_reply, is_negative_type,
  is_warning, is_completed_type, retarget,
}
use sidewisp_plugin.OpenClaw.Lifecycle.Registry.{
  assign, Found, nowhere, retired, found, bound_task, or_else, task_for_run,
}
use sidewisp_plugin.OpenClaw.Lifecycle.Settlement.{defer_terminal}
use sidewisp_plugin.OpenClaw.Lifecycle.Finish.{
  deferred_as, completed_with, closing, is_awaited_final, settle_started, settle, list_of, unowned,
  reconcile_run, reconcile, finish_owner, exact_final, finish,
}
use sidewisp_plugin.OpenClaw.Lifecycle.Changes.{
  ended, done, Leads, Changes-trans, answer, first, either_answer,
}
use sidewisp_plugin.OpenClaw.Lifecycle.Changes.Removal.{
  clear_current-Changes, remember_retired_runs-Changes, drop_inbound-Changes,
}
use sidewisp_plugin.OpenClaw.Lifecycle.Changes.Settlement.{
  assign-Changes, touch-Changes, defer_terminal-Changes, complete-Changes,
}

module _ (c : Config) (l : Lifecycle) where
  pub deferred_as-Leads : (p : Lifecycle × Bool) → Leads c true l p → Leads c true l (deferred_as p)
  deferred_as-Leads (m, true) h = answer c true h.changes
  deferred_as-Leads (m, false) h = answer c true h.changes

  pub completed_with-Leads :
      (now : ℕ) (key : Key) (w : Work) (e : Event) → Leads c true l (completed_with now key w e l)
  completed_with-Leads now key w e = answer c true (complete-Changes c true now key w e l)

  defers-Leads :
      (world : World) (key : Key) (w : Work) (e : Event)
      → Leads c true l (deferred_as (defer_terminal c world key w e l))
  defers-Leads world key w e = deferred_as-Leads _ (defer_terminal-Changes c true world key w e l)

  settle_started-Leads :
      (world : World) (e : Event) (key : Key) (w : Work) (p : Option Event)
      → Leads c true l (settle_started c world e key w p l)
  settle_started-Leads world e key w none =
      either_answer c true _ (defers-Leads world key w e) (completed_with-Leads world.now key w _)
  settle_started-Leads world e key w (some p) =
      let final = is_final_reply e.component in
      let negative = is_negative_type e.type in
      either_answer c true (is_negative_type p.type) (completed_with-Leads world.now key w p) (
        either_answer c true (final && is_awaited_final w p && not negative) (answer c true done) (
          either_answer c true (final && negative) (defers-Leads world key w e) (
            either_answer c true (final && is_warning e.status && not (is_completed_type p.type))
              (completed_with-Leads world.now key w p)
              (completed_with-Leads world.now key w (retarget l.copies e w)))))

module _ (c : Config) (world : World) (e : Event) where
  pub settle-Leads :
      (key : Key) (w : Work) (l : Lifecycle) → Leads c true l (settle c world e key w l)
  unfolding settle
  settle-Leads key w l =
      let touched = touch-Changes c true world.now key l in
      either_answer c true _ (answer c true done) (
        either_answer c true _ (answer c true touched) (
          either_answer c true _
            (first c true touched (
              settle_started-Leads c (assign key (touch world.now) l) world e key
                (touch world.now w) w.pending))
            (answer c true (
              Changes-trans c true
                (assign-Changes c true key (closing world.now) l
                  (λ v. ended v _ refl refl refl refl refl refl))
                (clear_current-Changes c true key w _)))))

  unowned-Leads : (owner : Found) (l : Lifecycle) → Leads c true l (unowned c world.now e owner l)
  unowned-Leads nowhere l = answer c true (
      Changes-trans c true (remember_retired_runs-Changes c true e.session_id (list_of e.turn_id) l)
        (drop_inbound-Changes c world.now e.session_id _ _))
  unowned-Leads retired l = answer c true done
  unowned-Leads (found key w) l = answer c true done

  reconcile_run-Leads :
      (owner : Found) (key : Option Key) (o : Option Work) (l : Lifecycle)
      → Leads c true l (reconcile_run c world.now e owner key o l)
  reconcile_run-Leads owner none o l = unowned-Leads owner l
  reconcile_run-Leads owner (some key) none l = unowned-Leads owner l
  reconcile_run-Leads owner (some key) (some w) l =
      either_answer c true _ (unowned-Leads owner l) (completed_with-Leads c l world.now key w e)

  reconcile-Leads :
      (owner stable : Found) (l : Lifecycle) → Leads c true l (reconcile c world e owner stable l)
  reconcile-Leads owner (found key w) l = settle-Leads key w l
  reconcile-Leads owner nowhere l = reconcile_run-Leads owner _ _ l
  reconcile-Leads owner retired l = reconcile_run-Leads owner _ _ l

  finish_owner-Leads :
      (owner : Found) (l : Lifecycle) → Leads c true l (finish_owner c world e owner l)
  finish_owner-Leads (found key w) l = settle-Leads key w l
  finish_owner-Leads nowhere l =
      either_answer c true _
        (reconcile-Leads nowhere (bound_task (task_key_of e.session_id e.turn_id) l) l)
        (unowned-Leads nowhere l)
  finish_owner-Leads retired l =
      either_answer c true _
        (reconcile-Leads retired (bound_task (task_key_of e.session_id e.turn_id) l) l)
        (unowned-Leads retired l)

  pub finish-Leads : (l : Lifecycle) → Leads c true l (finish c world e l)
  unfolding finish
  finish-Leads l =
      either_answer c true _ (answer c true (drop_inbound-Changes c world.now e.session_id _ l))
        (finish_owner-Leads (or_else (exact_final e l) (task_for_run e.session_id e.turn_id l)) l)
