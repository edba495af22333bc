-- ===== src/OpenClaw/Lifecycle/Changes/Turns.antt =====
-- src/adapters/openclaw/hooks.js: the branches for progress, tools and runs, as sequences of changes.
use sidewisp_plugin.Prelude.{
  ℕ, ◌≤◌, String, Bool, true, false, ◌&&◌, refl, Option, none, some, List, [], ◌∷◌, arith,
  length-append,
}
use sidewisp_plugin.Prelude.Assoc.{
  evict, modify, drop_key, length-modify, All-modify, length-evict-le,
}
use sidewisp_plugin.OpenClaw.Lifecycle.{
  Event, Key, run_key_of, Work, Inbound, Config, Lifecycle, World, touch, same_string,
  clear_pending, is_started_type, is_settled, is_negative_type, retarget,
}
use sidewisp_plugin.OpenClaw.Lifecycle.Registry.{
  find, get_for, track, Found, nowhere, retired, found, task_for_run, current_task,
}
use sidewisp_plugin.OpenClaw.Lifecycle.Turns.{
  withdraw, progress_of, progress, tool_seen, tool_of, tool_event, resuming, starting, start_work,
  is_final, paired, end_work, work_event, new_run, accepted_if, ending, run_event, run_keyed,
  autonomous, note_pending_run, ownerless_in, ownerless, attach, turn_owner, turn_event,
}
use sidewisp_plugin.OpenClaw.Lifecycle.Changes.{
  HasFewRuns, IsUpdate, IsInbox, same_flags, ended, received, Changes, done, Leads, Changes-trans,
  one, either_way, answer, first, either_answer,
}
use sidewisp_plugin.OpenClaw.Lifecycle.Changes.Registry.{track-Changes, bind-Changes}
use sidewisp_plugin.OpenClaw.Lifecycle.Changes.Removal.{suppress-Changes}
use sidewisp_plugin.OpenClaw.Lifecycle.Changes.Settlement.{
  assign-Changes, touch-Changes, defer_terminal-Changes,
}
use sidewisp_plugin.OpenClaw.Lifecycle.Changes.Finish.{deferred_as-Leads, completed_with-Leads}

module _ (c : Config) where
  withdraw-Changes : (key : Key) (w : Work) (l : Lifecycle) → Changes c true l (withdraw key w l)
  withdraw-Changes key w l =
      either_way c true _
        (Changes-trans c true (suppress-Changes c true w.pending l) (
          assign-Changes c true key clear_pending _
            (λ v. same_flags v _ refl refl refl refl refl refl)))
        done

  progress_of-Leads :
      (now : ℕ) (e : Event) (owner : Found) (l : Lifecycle)
      → Leads c true l (progress_of now e owner l)
  progress_of-Leads now e (found key w) l = either_answer c true _ (answer c true done) (
      answer c true
        (Changes-trans c true (touch-Changes c true now key l) (withdraw-Changes key w _)))
  progress_of-Leads now e nowhere l = answer c true done
  progress_of-Leads now e retired l = answer c true done

  pub progress-Leads : (now : ℕ) (e : Event) (l : Lifecycle) → Leads c true l (progress now e l)
  unfolding progress
  progress-Leads now e l = progress_of-Leads now e (task_for_run e.session_id e.turn_id l) l

  tool_of-Leads :
      (now : ℕ) (e : Event) (owner : Found) (l : Lifecycle) → Leads c true l (tool_of now e owner l)
  tool_of-Leads now e (found key w) l =
      let seen =
        assign-Changes c true key (tool_seen now e) l
          (λ v. same_flags v _ refl refl refl refl refl refl) in
      either_answer c true _ (answer c true seen)
        (answer c true (Changes-trans c true seen (withdraw-Changes key w _)))
  tool_of-Leads now e nowhere l = answer c true done
  tool_of-Leads now e retired l = answer c true done

  pub tool_event-Leads : (now : ℕ) (e : Event) (l : Lifecycle) → Leads c true l (tool_event now e l)
  unfolding tool_event
  tool_event-Leads now e l = tool_of-Leads now e (task_for_run e.session_id e.turn_id l) l

  starting-IsUpdate : (e : Event) (w : Work) → IsUpdate w (starting e w)
  starting-IsUpdate e w = record {
    same_session = refl;
    same_message = refl;
    same_turn = refl;
    still_started = λ h. refl;
    still_over = λ h. h;
    still_small = λ h. h;
  }

  start_work-Leads :
      (e : Event) (key : Key) (w : Work) (l : Lifecycle) → Leads c true l (start_work e key w l)
  start_work-Leads e key w l =
      either_answer c true _
        (either_answer c true _
          (answer c true (
            Changes-trans c true (withdraw-Changes key w l) (
              assign-Changes c true key (resuming _) _
                (λ v. same_flags v _ refl refl refl refl refl refl))))
          (answer c true (withdraw-Changes key w l)))
        (answer c true (assign-Changes c true key (starting _) l (starting-IsUpdate _)))

  end_work-Leads :
      (world : World) (e : Event) (key : Key) (w : Work) (l : Lifecycle)
      → Leads c true l (end_work c world e key w l)
  end_work-Leads world e key w l = either_answer c true _ (answer c true done) (
      either_answer c true (is_settled e.status && is_negative_type e.type)
        (completed_with-Leads c l world.now key w (retarget l.copies e w))
        (either_answer c true (is_settled e.status && is_final w.pending)
          (completed_with-Leads c l world.now key w (retarget l.copies (paired e w.pending) w))
          (deferred_as-Leads c l _ (defer_terminal-Changes c true world key w e l))))

  run_event-Leads :
      (now : ℕ) (e : Event) (key : Key) (o : Option Work) (l : Lifecycle)
      → Leads c true l (run_event c now e key o l)
  run_event-Leads now e key none l =
      by_room (track c key (new_run now e (is_started_type e.type)) l)
        (track-Changes c true key (new_run now e (is_started_type e.type)) l (omega arith))
    where
      by_room : (p : Lifecycle × Bool) → Changes c true l p.0 → Leads c true l (accepted_if e p)
      by_room (m, true) h = answer c true h
      by_room (m, false) h = answer c true h
  run_event-Leads now e key (some w) l =
      either_answer c true _ (answer c true (touch-Changes c true now key l)) (
        answer c true (
          assign-Changes c true key (ending now e) l
            (λ v. ended v _ refl refl refl refl refl refl)))

  run_keyed-Leads :
      (now : ℕ) (e : Event) (o : Option Key) (l : Lifecycle)
      → Leads c true l (run_keyed c now e o l)
  run_keyed-Leads now e none l = answer c true done
  run_keyed-Leads now e (some key) l = run_event-Leads now e key (find key l) l

  autonomous-Leads : (now : ℕ) (e : Event) (l : Lifecycle) → Leads c true l (autonomous c now e l)
  unfolding autonomous
  autonomous-Leads now e l = run_keyed-Leads now e (run_key_of e.session_id e.turn_id) l

  HasFewRuns-note_pending_run :
      (r : Option String) (p : Inbound) → HasFewRuns p → HasFewRuns (note_pending_run r p)
  HasFewRuns-note_pending_run none p h = h
  HasFewRuns-note_pending_run (some r) p h = ground (
    arith,
    length-append (evict 64 (drop_key same_string r p.run_ids)) (r ∷ []),
    length-evict-le 64 (drop_key same_string r p.run_ids) (omega arith),
  )

  IsInbox-modify :
      (s : String) (r : Option String) (entries : List (String × Inbound))
      → IsInbox c entries
      → IsInbox c (modify same_string s (note_pending_run r) entries)
  IsInbox-modify s r entries h = (
    ground (arith, h.0, length-modify same_string s (note_pending_run r) entries),
    All-modify same_string HasFewRuns s (note_pending_run r) entries
        (λ p e. HasFewRuns-note_pending_run r p) h.1,
  )

  ownerless_in-Leads :
      (now : ℕ) (e : Event) (s : Option String) (p : Option Inbound) (l : Lifecycle)
      → Leads c true l (ownerless_in c now e s p l)
  ownerless_in-Leads now e none p l = autonomous-Leads now e l
  ownerless_in-Leads now e (some s) none l = autonomous-Leads now e l
  ownerless_in-Leads now e (some s) (some p) l =
      answer c true (one c true (received _ refl (IsInbox-modify s e.turn_id l.inbound)))

  ownerless-Leads : (now : ℕ) (e : Event) (l : Lifecycle) → Leads c true l (ownerless c now e l)
  unfolding ownerless
  ownerless-Leads now e l = ownerless_in-Leads now e e.session_id (get_for e.session_id l.inbound) l

module _ (c : Config) (has_room : 1 ≤ c.max_runs) (world : World) (e : Event) where
  work_event-Leads :
      (key : Key) (w : Work) (l : Lifecycle) → Leads c true l (work_event c world e key w l)
  unfolding work_event
  work_event-Leads key w l =
      let touched = touch-Changes c true world.now key l in
      let bound =
        Changes-trans c true touched (bind-Changes c true w.session_id key e.turn_id _ has_room) in
      either_answer c true w.terminal (answer c true touched) (
        either_answer c true (is_started_type e.type)
          (first c true bound (start_work-Leads c e key (touch world.now w) _))
          (first c true bound (end_work-Leads c world e key (touch world.now w) _)))

  attach-Leads : (owner : Found) (l : Lifecycle) → Leads c true l (attach c world e owner l)
  attach-Leads (found key w) l =
      either_answer c true _ (answer c true done) (work_event-Leads key w l)
  attach-Leads nowhere l = ownerless-Leads c world.now e l
  attach-Leads retired l = ownerless-Leads c world.now e l

  turn_owner-Leads : (owner : Found) (l : Lifecycle) → Leads c true l (turn_owner c world e owner l)
  turn_owner-Leads (found key w) l = work_event-Leads key w l
  turn_owner-Leads retired l = answer c true done
  turn_owner-Leads nowhere l =
      either_answer c true _ (attach-Leads (current_task e.session_id l) l)
        (ownerless-Leads c world.now e l)

  pub turn_event-Leads : (l : Lifecycle) → Leads c true l (turn_event c world e l)
  unfolding turn_event
  turn_event-Leads l = turn_owner-Leads (task_for_run e.session_id e.turn_id l) l
