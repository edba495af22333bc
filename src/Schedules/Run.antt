-- ===== src/Schedules/Run.antt =====
-- src/schedules/runner.js: the `try` of `execute`, which starts a job and waits for its result, and its `catch`.
use sidewisp_plugin.Prelude.{
  ℕ, ◌-◌, Bool, true, false, not, ◌&&◌, Option, none, some, List, [], ◌∷◌, is_some, leb,
  if◌then◌else◌,
}
use sidewisp_plugin.Prelude.Codes.{slice_units, Text, codes}
use sidewisp_plugin.Schedules.RunnerState.{
  Kind, Result, Entry, Launch, Outcome, Wait, World, Runner, system_event, succeeded, failed,
  blocked, launch_throws, crashed, launched, outcome_ok, outcome_error, outcome_pending, no_history,
  history_throws, last_reply,
}

-- The `result` before the `try`.
abbrev pub interrupted : Entry → Result
interrupted e = record {
  result_run_id = e.job.run_id;
  result_schedule_id = e.job.schedule_id;
  state = failed;
  error_code = some "execution_interrupted";
  execution_ref = none;
  result_summary = none;
}

abbrev pub unsupported : Entry → Result
unsupported e = record (interrupted e) { state = blocked; error_code = some "runtime_unsupported" }

-- The `catch`.
abbrev pub caught : World → Option Text → Entry → Result
caught w ref e = record (interrupted e) {
  error_code = some "execution_failed";
  execution_ref = ref;
  result_summary = some w.failure_summary;
}

-- What the `try` leads to: the turn ends without a result, or the entry has one.
pub data Done : Type 0 where
  stays : Runner → Done
  ends : Runner → Entry → Result → Done

-- How the waiting loop ends; `loop_stops` where the list of turns does, like a process that is killed.
pub data Loop : Type 0 where
  loop_stops loop_throws : Loop
  loop_ends : Option Outcome → Loop

-- `outcome.status==='ok' || (outcome.status==='error' && outcome.retryableTransportError!==true)`
abbrev pub is_terminal : Outcome → Bool
is_terminal (outcome_ok reply) = true
is_terminal (outcome_error retryable) = not retryable
is_terminal outcome_pending = false

unfoldable pub wait_run : ℕ → ℕ → Option Outcome → List Wait → Loop
wait_run started timeout outcome [] = loop_stops
wait_run started timeout outcome (w ∷ ws) =
    if w.is_stopped
    then loop_stops
    else if leb timeout (w.time - started)
    then loop_ends outcome
    else elim w.outcome [
      | none ↦ loop_throws
      | some o ↦
          let rest = wait_run started timeout (some o) ws in
          if is_terminal o then loop_ends (some o) else rest
    ]

abbrev pub reply_of : World → Option Text → Text → Entry → Result
reply_of w (some text) id e = record (interrupted e) {
  state = succeeded;
  error_code = none;
  execution_ref = some id;
  result_summary = some (slice_units 16000 text);
}
reply_of w none id e = elim w.history [
  | no_history ↦ record (interrupted e) {
    state = succeeded;
    error_code = none;
    execution_ref = some id;
  }
  | history_throws ↦ caught w (some id) e
  | last_reply text ↦ record (interrupted e) {
    state = succeeded;
    error_code = none;
    execution_ref = some id;
    result_summary = some (slice_units 16000 text);
  }
]

abbrev pub timed_out : Text → Entry → Result
timed_out id e = record (interrupted e) {
  error_code = some "execution_timeout";
  execution_ref = some id;
}

abbrev pub result_of : World → Option Outcome → Text → Entry → Result
result_of w none id e = timed_out id e
result_of w (some (outcome_ok reply)) id e = reply_of w reply id e
result_of w (some (outcome_error true)) id e = timed_out id e
result_of w (some (outcome_error false)) id e = caught w (some id) e
result_of w (some outcome_pending) id e = timed_out id e

abbrev pub after_loop : World → Loop → Text → Entry → Runner → Done
after_loop w loop_stops id e s = stays s
after_loop w loop_throws id e s = ends s e (caught w (some id) e)
after_loop w (loop_ends outcome) id e s =
    if w.stopped_after then stays s else ends s e (result_of w outcome id e)

-- From `result.executionRef=entry.runtimeRunId` to the end of the `try`.
unfoldable pub await_run : World → Text → Entry → Runner → Done
unfolding wait_run
await_run w id e s = after_loop w (wait_run e.started_at e.job.timeout_ms none w.waits) id e s

abbrev pub or_key : Option Text → Text → Text
or_key none key = key
or_key (some key') key = key'

abbrev pub note_launch : Entry → Runner → Runner
note_launch e s = record s { launches = e.job.run_id ∷ s.launches }

abbrev pub after_launch : World → Launch → Entry → Runner → Done
after_launch w launch_throws e s = ends s e (caught w none e)
after_launch w crashed e s = stays s
after_launch w (launched id session) e s =
    let e' = record e { runtime_run_id = some id; session_key = or_key session e.session_key } in
    await_run w id e' (record s { file = some e' })

abbrev pub run_subagent : World → Entry → Option Text → Runner → Done
run_subagent w e (some id) s = await_run w id e s
run_subagent w e none s = after_launch w w.launch e (note_launch e s)

abbrev pub after_enqueue : World → Launch → Entry → Runner → Done
after_enqueue w launch_throws e s = ends s e (caught w none e)
after_enqueue w crashed e s = stays s
after_enqueue w (launched id session) e s = ends s e (record (interrupted e) {
  state = succeeded;
  error_code = none;
  result_summary = some (codes "System event delivered to the agent session.");
})

abbrev pub run_kind : World → Kind → Entry → Runner → Done
run_kind w system_event e s =
    if not w.has_system
    then ends s e (unsupported e)
    else after_enqueue w w.enqueue e (note_launch e s)
run_kind w _ e s =
    if not w.has_subagent then ends s e (unsupported e) else run_subagent w e e.runtime_run_id s

-- The `try`.
unfoldable pub perform : World → (recovered : Bool) → Entry → Runner → Done
unfolding await_run
perform w recovered e s =
    if recovered && not (is_some e.runtime_run_id)
    then ends s e (interrupted e)
    else run_kind w e.job.kind e s
