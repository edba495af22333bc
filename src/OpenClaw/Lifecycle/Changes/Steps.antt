-- ===== src/OpenClaw/Lifecycle/Changes/Steps.antt =====
-- src/adapters/openclaw/hooks.js: the operations of the task lifecycle as sequences of changes, and the
-- bounds in every state that they reach.
use sidewisp_plugin.Prelude.{
  ℕ, ◌≤◌, String, Bool, true, false, not, ◌&&◌, ◌||◌, refl, Option, none, some, List, [], ◌∷◌,
  length, All, arith,
}
use sidewisp_plugin.OpenClaw.Lifecycle.{
  Event, Key, Kind, task, run, Work, Config, Lifecycle, World, empty, is_final_reply,
  is_terminal_type, is_started_type, clear_pending,
}
use sidewisp_plugin.OpenClaw.Lifecycle.Registry.{find, prune, track, has_record, current_task}
use sidewisp_plugin.OpenClaw.Lifecycle.Finish.{is_reconciliation, is_found}
use sidewisp_plugin.OpenClaw.Lifecycle.Process.{
  is_message, is_observation, is_dispatch, is_progress, is_tool, process_pruned, next_copy, process,
}
use sidewisp_plugin.OpenClaw.Lifecycle.ActiveWork.{
  ActiveEntry, only_task, restored_work, restored_task, restored_run, restore_keyed, entry_key,
  restore_active_work, fired, fire_work, fire_timer, is_flushable, flush_records, flush_pending,
  Cancelling, spared, closed, cancelled_now, cancelling, withdrawn, closed_work, cancelled_work,
  cancel_by, cancel_records, cancel_active_runs,
}
use sidewisp_plugin.OpenClaw.Lifecycle.Runs.{
  Operation, processing, restoring, firing, flushing, cancelling_all, perform, perform_all,
}
use sidewisp_plugin.OpenClaw.Lifecycle.Changes.{
  IsSmall, same_flags, ended, copied_one, Changes, done, next, Leads, Changes-trans, one,
  either_way, answer, either_answer,
}
use sidewisp_plugin.OpenClaw.Lifecycle.Changes.Bounds.{
  IsBounded, empty-IsBounded, Changes-IsBounded,
}
use sidewisp_plugin.OpenClaw.Lifecycle.Changes.Registry.{track-Changes}
use sidewisp_plugin.OpenClaw.Lifecycle.Changes.Removal.{
  prune-Changes, suppress-Changes, clear_current-Changes,
}
use sidewisp_plugin.OpenClaw.Lifecycle.Changes.Settlement.{assign-Changes, attempt_pending-Changes}
use sidewisp_plugin.OpenClaw.Lifecycle.Changes.Admission.{
  observe-Changes, dispatch-Changes, set_current-Changes, bind_work-Changes,
}
use sidewisp_plugin.OpenClaw.Lifecycle.Changes.Finish.{finish-Leads}
use sidewisp_plugin.OpenClaw.Lifecycle.Changes.Turns.{
  progress-Leads, tool_event-Leads, turn_event-Leads,
}

module _ (c : Config) (has_room : 1 ≤ c.max_runs) where
  process_pruned-Leads :
      (world : World) (e : Event) (l : Lifecycle)
      → IsBounded c l
      → Leads c true l (process_pruned c world e l)
  process_pruned-Leads world e l b =
      either_answer c true (is_message e.type && is_observation e.component)
        (answer c true (observe-Changes c has_room world.now e l))
        (either_answer c true (is_message e.type && is_dispatch e.component)
          (dispatch-Changes c has_room world e l b)
          (either_answer c true
            (is_terminal_type e.type
              && (is_final_reply e.component || is_reconciliation e.component))
            (finish-Leads c world e l)
            (either_answer c true (is_progress e.type) (progress-Leads c world.now e l) (
              either_answer c true (is_terminal_type e.type || is_started_type e.type)
                (turn_event-Leads c has_room world e l)
                (either_answer c true (is_tool e.type) (tool_event-Leads c world.now e l)
                  (answer c true done))))))

  -- A step of the lifecycle makes only the changes that the abstract view permits.
  pub process-Changes :
      (world : World) (e : Event) (l : Lifecycle)
      → IsBounded c l
      → Changes c true l (process c world e l).0
  unfolding process
  process-Changes world e l b =
      let pruned = next (copied_one _) (prune-Changes c world.now (next_copy l)) in
      Changes-trans c true pruned
        (process_pruned-Leads world e (prune c world.now (next_copy l))
          (Changes-IsBounded c true pruned b)).changes

  restored_nothing : (n : ℕ) (l : Lifecycle) → Leads c true l (l, n)
  restored_nothing n l = record { changes = done }

  restored_task-Changes :
      (key : Key) (w : Work) (p : Lifecycle × Bool) → Changes c true p.0 (restored_task c key w p).0
  restored_task-Changes key w (l, false) = done
  restored_task-Changes key w (l, true) =
      Changes-trans c true
        (either_way c true w.detached done (set_current-Changes c true has_room w.session_id key l))
        (bind_work-Changes c true has_room key w w.internal_run_ids _)

  restored_run-Changes : (p : Lifecycle × Bool) → Changes c true p.0 (restored_run p).0
  restored_run-Changes (l, false) = done
  restored_run-Changes (l, true) = done

  -- An entry of the cursor that holds few runs
  abbrev pub IsSmallEntry : ActiveEntry → Type 0
  IsSmallEntry a = length a.internal_run_ids ≤ 64

  restored_work-IsSmall :
      (now : ℕ) (a : ActiveEntry) → IsSmallEntry a → IsSmall (restored_work now a)
  restored_work-IsSmall now a h = by_kind a.kind
    where
      by_kind : (k : Kind) → length (only_task k a.internal_run_ids []) ≤ 64
      by_kind task = h
      by_kind run = omega arith

  restore_keyed-Changes :
      (now : ℕ) (a : ActiveEntry) (kind : Kind) (o : Option Key) (l : Lifecycle)
      → IsSmallEntry a
      → Changes c true l (restore_keyed c now a kind o l).0
  restore_keyed-Changes now a kind none l h = (restored_nothing 0 l).changes
  restore_keyed-Changes now a task (some key) l h =
      let w = restored_work now a in
      (either_answer c true
        (has_record key l || not a.detached && is_found (current_task a.session_id l))
        (restored_nothing 0 l)
        (record {
          changes =
              Changes-trans c true (track-Changes c true key w l (restored_work-IsSmall now a h))
                (restored_task-Changes key w (track c key w l));
        })).changes
  restore_keyed-Changes now a run (some key) l h =
      let w = restored_work now a in
      (either_answer c true (has_record key l) (restored_nothing 0 l) (record {
        changes =
            Changes-trans c true (track-Changes c true key w l (restored_work-IsSmall now a h))
              (restored_run-Changes (track c key w l));
      })).changes

  restore_active_work-Changes :
      (now : ℕ) (entries : List ActiveEntry) (l : Lifecycle)
      → All IsSmallEntry entries
      → Changes c true l (restore_active_work c now entries l).0
  unfolding restore_active_work
  restore_active_work-Changes now [] l h = done
  restore_active_work-Changes now (a ∷ entries) l h =
      Changes-trans c true (restore_keyed-Changes now a a.kind (entry_key a) l h.0)
        (restore_active_work-Changes now entries _ h.1)

  fire_work-Changes :
      (world : World) (key : Key) (o : Option Work) (l : Lifecycle)
      → Changes c true l (fire_work c world key o l)
  fire_work-Changes world key none l = done
  fire_work-Changes world key (some w) l =
      either_way c true _
        (Changes-trans c true
          (assign-Changes c true key fired l (λ v. same_flags v _ refl refl refl refl refl refl))
          (attempt_pending-Changes c true world key _))
        done

  fire_timer-Changes :
      (world : World) (key : Key) (l : Lifecycle) → Changes c true l (fire_timer c world key l)
  unfolding fire_timer
  fire_timer-Changes world key l = fire_work-Changes world key (find key l) l

  flush_records-Changes :
      (world : World) (entries : List (Key × Work)) (l : Lifecycle)
      → Changes c true l (flush_records c world entries l)
  flush_records-Changes world [] l = done
  flush_records-Changes world ((key, w) ∷ entries) l =
      Changes-trans c true
        (either_way c true (is_flushable w) (attempt_pending-Changes c true world key l) done)
        (flush_records-Changes world entries _)

  flush_pending-Changes :
      (world : World) (l : Lifecycle) → Changes c true l (flush_pending c world l)
  unfolding flush_pending
  flush_pending-Changes world l = flush_records-Changes world l.records l

  withdrawn-Changes : (key : Key) (w : Work) (l : Lifecycle) → Changes c true l (withdrawn key w l)
  withdrawn-Changes key w l =
      either_way c true w.awaiting_final
        (Changes-trans c true (suppress-Changes c true w.pending l) (
          assign-Changes c true key clear_pending _
            (λ v. same_flags v _ refl refl refl refl refl refl)))
        done

  cancel_by-Changes :
      (how : Cancelling) (make : Option String → Option String → Event) (key : Key) (w : Work)
      (l : Lifecycle)
      → Changes c true l (cancel_by how make key w l).0
  cancel_by-Changes spared make key w l = done
  cancel_by-Changes closed make key w l = Changes-trans c true (withdrawn-Changes key w l) (
      Changes-trans c true
        (assign-Changes c true key closed_work _ (λ v. ended v _ refl refl refl refl refl refl))
        (clear_current-Changes c true key w _))
  cancel_by-Changes cancelled_now make key w l = Changes-trans c true (withdrawn-Changes key w l) (
      Changes-trans c true
        (assign-Changes c true key (cancelled_work _) _
          (λ v. ended v _ refl refl refl refl refl refl))
        (Changes-trans c true (clear_current-Changes c true key w _) (one c true (copied_one _))))

  cancel_records-Changes :
      (make : Option String → Option String → Event) (entries : List (Key × Work)) (l : Lifecycle)
      → Changes c true l (cancel_records make entries l).0
  cancel_records-Changes make [] l = done
  cancel_records-Changes make ((key, w) ∷ entries) l =
      Changes-trans c true (cancel_by-Changes (cancelling w) make key w l)
        (cancel_records-Changes make entries _)

  cancel_active_runs-Changes :
      (make : Option String → Option String → Event) (l : Lifecycle)
      → Changes c true l (cancel_active_runs make l).0
  unfolding cancel_active_runs
  cancel_active_runs-Changes make l = cancel_records-Changes make l.records l

  -- The entries of the cursor that an operation restores hold few runs.
  abbrev pub IsSafe : Operation → Type 0
  IsSafe (restoring now entries) = All IsSmallEntry entries
  IsSafe _ = Unit

  -- An operation of the lifecycle makes only the changes that the abstract view permits.
  pub perform-Changes :
      (o : Operation) (l : Lifecycle) → IsSafe o → IsBounded c l → Changes c true l (perform c o l)
  unfolding perform
  perform-Changes (processing world e) l s b = process-Changes world e l b
  perform-Changes (restoring now entries) l s b = restore_active_work-Changes now entries l s
  perform-Changes (firing world key) l s b = fire_timer-Changes world key l
  perform-Changes (flushing world) l s b = flush_pending-Changes world l
  perform-Changes (cancelling_all make) l s b = cancel_active_runs-Changes make l

  perform_all_step :
      (os : List Operation) (l : Lifecycle)
      → All IsSafe os
      → IsBounded c l
      → IsBounded c (perform_all c os l)
  unfolding perform_all
  perform_all_step [] l s b = b
  perform_all_step (o ∷ os) l s b =
      perform_all_step os (perform c o l) s.1
        (Changes-IsBounded c true (perform-Changes o l s.0 b) b)

  -- However the operations follow one another, from an empty lifecycle with room for a record and with restored
  -- entries of 64 runs at most, there are at most `maxRuns` records, bindings, retired bindings, pending inbound
  -- messages and retired ones, and at most 64 runs in each record and in each pending message.
  pub perform_all-IsBounded :
      (os : List Operation) → All IsSafe os → IsBounded c (perform_all c os empty)
  perform_all-IsBounded os s = perform_all_step os empty s (empty-IsBounded c)
