-- ===== src/Schedules/Runner/Outbox.antt =====
-- src/schedules/runner.js: each accepted job is launched at most once, and its result goes to the
-- installation that it was accepted for.
use sidewisp_plugin.Prelude.{
  ℕ, ◌≤◌, ◌≡◌, refl, Bool, true, false, not, ◌&&◌, Option, none, some, List, [], ◌∷◌, ◌++◌, sym, ap,
  ◌∙◌, arith, is_some, if◌then◌else◌, length, filter, All,
}
use sidewisp_plugin.Prelude.Codes.{Text, same_text, same_text_refl}
use sidewisp_plugin.Schedules.Runner.{
  acked, settle, is_bound, isolate, valid_job, conclude, work, new_entry, accept, take_up, resume,
  execute_as, execute, run_all,
}
use sidewisp_plugin.Schedules.RunnerState.{
  Kind, agent_turn, system_event, other_kind, Result, Entry, Credential, Poll, poll_fails, no_job,
  polled_job, Launch, launch_throws, crashed, launched, Ack, ack_fails, not_found, acknowledged_run,
  World, Config, Report, Runner, initial,
}
use sidewisp_plugin.Schedules.Run.{
  Done, stays, ends, Loop, loop_stops, loop_throws, loop_ends, wait_run, interrupted, unsupported,
  or_key, result_of, after_loop, await_run, note_launch, after_launch, run_subagent, after_enqueue,
  run_kind, perform,
}

unfoldable pub count : Text → List Text → ℕ
count id ids = length (filter (same_text id) ids)

abbrev pub IsBound : Report → Type 0
IsBound r =
    (same_text r.reported.installation r.sender && same_text r.reported.endpoint r.receiver) ≡ true

-- What the turns keep of three of the runner's lists.
pub record AreSound (launches polled : List Text) (reports : List Report) : Type 0 where
  pub frugal : (id : Text) → count id launches ≤ count id polled
  pub bound : All IsBound reports

abbrev is_system : Kind → Bool
is_system system_event = true
is_system _ = false

-- An event of the system has no run of the runtime, so that it is not sent again.
abbrev IsSettled : Entry → Type 0
IsSettled e = is_system e.job.kind ≡ true → e.runtime_run_id ≡ none

abbrev AllSettled : Option Entry → Type 0
AllSettled none = Unit
AllSettled (some e) = IsSettled e

abbrev IsSound : Runner → Type 0
IsSound s = AreSound s.launches s.polled s.reports × AllSettled s.file

abbrev IsOwn : World → Credential → Entry → Type 0
IsOwn w k e = (is_bound w k e ≡ true) × IsSettled e

abbrev IsSoundDone : World → Credential → Done → Type 0
IsSoundDone w k (stays s) = IsSound s
IsSoundDone w k (ends s e r) = IsSound s × IsOwn w k e

module _ (c : Config) (k : Credential) where
  acked-IsSound : (a : Ack) (e : Entry) (s : Runner) → IsSound s → IsSound (acked a e s)
  acked-IsSound ack_fails e s h = h
  acked-IsSound not_found e s h = (h.0, tt)
  acked-IsSound (acknowledged_run id) e s h = by_test (same_text id e.job.run_id)
    where
      by_test : (b : Bool) → IsSound (if b then record s { file = none } else s)
      by_test true = (h.0, tt)
      by_test false = h

  settle-IsSound :
      (w : World) (e : Entry) (s : Runner) → IsOwn w k e → IsSound s → IsSound (settle w k e s)
  unfolding settle
  settle-IsSound w e s b h =
      acked-IsSound w.ack e
        (record s {
          reports =
              record { receiver = w.origin; sender = k.installation_id; reported = e } ∷ s.reports;
        })
        (record { frugal = h.0.frugal; bound = (b.0, h.0.bound) }, h.1)

  after_loop-IsSoundDone :
      (w : World) (l : Loop) (id : Text) (e : Entry) (s : Runner)
      → IsOwn w k e
      → IsSound s
      → IsSoundDone w k (after_loop w l id e s)
  after_loop-IsSoundDone w loop_stops id e s b h = h
  after_loop-IsSoundDone w loop_throws id e s b h = (h, b)
  after_loop-IsSoundDone w (loop_ends o) id e s b h = by_stop w.stopped_after
    where
      by_stop : (t : Bool) → IsSoundDone w k (if t then stays s else ends s e (result_of w o id e))
      by_stop true = h
      by_stop false = (h, b)

  await_run-IsSoundDone :
      (w : World) (id : Text) (e : Entry) (s : Runner)
      → IsOwn w k e
      → IsSound s
      → IsSoundDone w k (await_run w id e s)
  unfolding await_run
  await_run-IsSoundDone w id e s b h =
      after_loop-IsSoundDone w (wait_run e.started_at e.job.timeout_ms none w.waits) id e s b h

  after_launch-IsSoundDone :
      (w : World) (l : Launch) (e : Entry) (s : Runner)
      → is_system e.job.kind ≡ false
      → IsOwn w k e
      → IsSound s
      → IsSoundDone w k (after_launch w l e s)
  after_launch-IsSoundDone w launch_throws e s n b h = (h, b)
  after_launch-IsSoundDone w crashed e s n b h = h
  after_launch-IsSoundDone w (launched id session) e s n b h =
      await_run-IsSoundDone w id e' (record s { file = some e' }) (b.0, settled) (h.0, settled)
    where
      e' : Entry
      e' = record e { runtime_run_id = some id; session_key = or_key session e.session_key }

      settled : IsSettled e'
      settled y = absurd (ground (arith, n, y))

  after_enqueue-IsSoundDone :
      (w : World) (l : Launch) (e : Entry) (s : Runner)
      → IsOwn w k e
      → IsSound s
      → IsSoundDone w k (after_enqueue w l e s)
  after_enqueue-IsSoundDone w launch_throws e s b h = (h, b)
  after_enqueue-IsSoundDone w crashed e s b h = h
  after_enqueue-IsSoundDone w (launched id session) e s b h = (h, b)

  run_subagent-IsSoundDone :
      (w : World) (e : Entry) (o : Option Text) (s : Runner)
      → is_system e.job.kind ≡ false
      → IsOwn w k e
      → IsSound s
      → (o ≡ none → IsSound (note_launch e s))
      → IsSoundDone w k (run_subagent w e o s)
  run_subagent-IsSoundDone w e (some id) s n b h g = await_run-IsSoundDone w id e s b h
  run_subagent-IsSoundDone w e none s n b h g =
      after_launch-IsSoundDone w w.launch e (note_launch e s) n b (g refl)

  run_agent-IsSoundDone :
      (w : World) (e : Entry) (s : Runner)
      → is_system e.job.kind ≡ false
      → IsOwn w k e
      → IsSound s
      → (e.runtime_run_id ≡ none → IsSound (note_launch e s))
      → IsSoundDone w k (run_kind w agent_turn e s)
  run_agent-IsSoundDone w e s n b h g = by_support w.has_subagent
    where
      by_support :
          (t : Bool)
          → IsSoundDone w k
              (if not t then ends s e (unsupported e) else run_subagent w e e.runtime_run_id s)
      by_support false = (h, b)
      by_support true = run_subagent-IsSoundDone w e e.runtime_run_id s n b h g

  run_kind-IsSoundDone :
      (w : World) (kind : Kind) (e : Entry) (s : Runner)
      → e.job.kind ≡ kind
      → IsOwn w k e
      → IsSound s
      → (e.runtime_run_id ≡ none → IsSound (note_launch e s))
      → IsSoundDone w k (run_kind w kind e s)
  run_kind-IsSoundDone w agent_turn e s q b h g = run_agent-IsSoundDone w e s (rw q refl) b h g
  run_kind-IsSoundDone w other_kind e s q b h g = run_agent-IsSoundDone w e s (rw q refl) b h g
  run_kind-IsSoundDone w system_event e s q b h g = by_support w.has_system
    where
      by_support :
          (t : Bool)
          → IsSoundDone w k (
              if not t
              then ends s e (unsupported e)
              else after_enqueue w w.enqueue e (note_launch e s))
      by_support false = (h, b)
      by_support true =
          after_enqueue-IsSoundDone w w.enqueue e (note_launch e s) b (g (b.1 (rw q refl)))

  conclude-IsSound : (w : World) (d : Done) → IsSoundDone w k d → IsSound (conclude w k d)
  conclude-IsSound w (stays s) h = h
  conclude-IsSound w (ends s e r) h = by_crash w.crash_before_result
    where
      saved : Entry
      saved = record e { result = some r }

      by_crash :
          (t : Bool) → IsSound (if t then s else settle w k saved (record s { file = some saved }))
      by_crash true = h.0
      by_crash false = settle-IsSound w saved (record s { file = some saved }) h.1 (h.0.0, h.1.1)

  work-IsSound :
      (w : World) (recovered : Bool) (e : Entry) (s : Runner)
      → IsOwn w k e
      → IsSound s
      → (recovered ≡ false → IsSound (note_launch e s))
      → IsSound (work w k recovered e s)
  unfolding work perform
  work-IsSound w recovered e s b h g = by_crash w.crash_before_work
    where
      by_run :
          (o : Option Text) (t : Bool)
          → (e.runtime_run_id ≡ o)
          → (t ≡ false → IsSound (note_launch e s))
          → IsSoundDone w k
              (if t && not (is_some o) then ends s e (interrupted e) else run_kind w e.job.kind e s)
      by_run none true q f = (h, b)
      by_run none false q f = run_kind-IsSoundDone w e.job.kind e s refl b h (λ n. f refl)
      by_run (some id) true q f =
          run_kind-IsSoundDone w e.job.kind e s refl b h (λ n. absurd (ground (arith, n, q)))
      by_run (some id) false q f =
          run_kind-IsSoundDone w e.job.kind e s refl b h (λ n. absurd (ground (arith, n, q)))

      by_crash : (t : Bool) → IsSound (if t then s else conclude w k (perform w recovered e s))
      by_crash true = h
      by_crash false =
          conclude-IsSound w (perform w recovered e s) (by_run e.runtime_run_id recovered refl g)

  take_up-IsSound :
      (w : World) (r : Option Result) (e : Entry) (s : Runner)
      → IsOwn w k e
      → IsSound s
      → IsSound (take_up w k r e s)
  take_up-IsSound w none e s b h = work-IsSound w true e s b h (λ q. absurd (ground (arith, q)))
  take_up-IsSound w (some r) e s b h = settle-IsSound w e s b h

  accept-IsSound : (w : World) (p : Poll) (s : Runner) → IsSound s → IsSound (accept c w k p s)
  accept-IsSound w poll_fails s h = h
  accept-IsSound w no_job s h = h
  accept-IsSound w (polled_job j) s h = by_test (valid_job j)
    where
      e : Entry
      e = new_entry c w k j

      t : Runner
      t = record s { file = some e; polled = j.run_id ∷ s.polled }

      own : IsOwn w k e
      own = (ground (arith, same_text_refl k.installation_id, same_text_refl w.origin), λ y. refl)

      more : (id : Text) → count id s.launches ≤ count id (j.run_id ∷ s.polled)
      more id = unfold count in ground (arith, h.0.frugal id)

      as_many : (id : Text) → count id (j.run_id ∷ s.launches) ≤ count id (j.run_id ∷ s.polled)
      as_many id = unfold count in ground (arith, h.0.frugal id)

      by_test : (v : Bool) → IsSound (if not v then s else work w k false e t)
      by_test false = h
      by_test true =
          work-IsSound w false e t own (record { frugal = more; bound = h.0.bound }, own.1)
            (λ q. (record { frugal = as_many; bound = h.0.bound }, own.1))

  resume-IsSound :
      (w : World) (s : Runner) (o : Option Entry)
      → s.file ≡ o
      → ((e : Entry) → o ≡ some e → is_bound w k e ≡ true)
      → IsSound s
      → IsSound (resume c w k o s)
  resume-IsSound w s none q b h = accept-IsSound w w.poll s h
  resume-IsSound w s (some e) q b h = take_up-IsSound w e.result e s (b e refl, rw q at (h.1)) h

  isolate-IsSound :
      (w : World) (o : Option Entry) (s : Runner)
      → s.file ≡ o
      → IsSound s
      → let t = isolate w k o s in
        IsSound t × ((e : Entry) → t.file ≡ some e → is_bound w k e ≡ true)
  isolate-IsSound w none s q h = (h, λ e f. absurd (ground (arith, q, f)))
  isolate-IsSound w (some e) s q h = by_test (is_bound w k e) refl
    where
      bound_of : Option Entry → Bool
      bound_of none = false
      bound_of (some e') = is_bound w k e'

      by_test :
          (b : Bool)
          → is_bound w k e ≡ b
          → let t : Runner =
              (if b then s else record s { file = none; quarantined = s.quarantined ++ e ∷ [] }) in
            IsSound t × ((e' : Entry) → t.file ≡ some e' → is_bound w k e' ≡ true)
      by_test true r = (h, λ e' f. sym (ap bound_of (sym q ∙ f)) ∙ r)
      by_test false r = ((h.0, tt), λ e' f. absurd (ground (arith, f)))

  execute_as-IsSound : (w : World) (s : Runner) → IsSound s → IsSound (execute_as c w (some k) s)
  execute_as-IsSound w s h = by_status k.active
    where
      t : Runner
      t = isolate w k s.file s

      by_status : (a : Bool) → IsSound (if not a then s else resume c w k t.file t)
      by_status false = h
      by_status true =
          let (sound, bound) = isolate-IsSound w s.file s refl h in
          resume-IsSound w t t.file refl bound sound

execute-IsSound : (c : Config) (w : World) (s : Runner) → IsSound s → IsSound (execute c w s)
unfolding execute
execute-IsSound c w s h = by_admission w.can_execute w.credential
  where
    by_admission :
        (a : Bool) (o : Option Credential) → IsSound (if not a then s else execute_as c w o s)
    by_admission false o = h
    by_admission true none = h
    by_admission true (some k) = execute_as-IsSound c k w s h

run_all-IsSound : (c : Config) (ws : List World) (s : Runner) → IsSound s → IsSound (run_all c ws s)
unfolding run_all
run_all-IsSound c [] s h = h
run_all-IsSound c (w ∷ ws) s h = run_all-IsSound c ws (execute c w s) (execute-IsSound c w s h)

-- Over any turns, crashes and restarts of the process among them, the runner launches no run more
-- often than the server gave it and it was accepted, and it reports each result with the credential
-- of the installation, and to the origin, for which the job was accepted. The credential and the origin may be
-- others in each turn.
pub run_all-AreSound :
    (c : Config) (ws : List World)
    → let s = run_all c ws initial in AreSound s.launches s.polled s.reports
run_all-AreSound c ws =
    (run_all-IsSound c ws initial
      (record { frugal = λ id. unfold count in omega arith; bound = tt }, tt)).0
