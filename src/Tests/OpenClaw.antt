-- ===== src/Tests/OpenClaw.antt =====
-- Runs of the OpenClaw task lifecycle and of its cursor on concrete inputs.
use sidewisp_plugin.Prelude.{
  All, ◌⊎◌, ℕ, String, true, false, ◌≡◌, refl, Option, none, some, List, [], ◌∷◌, arith,
}
use sidewisp_plugin.Prelude.Assoc.{lookup}
use sidewisp_plugin.OpenClaw.Lifecycle.{
  Event, EventType, turn_started, message_received, turn, completed, Component, before_dispatch,
  final_reply, other_component, no_status, incoming, copied, same_key, task_key, task, Work, Config,
  Lifecycle, World, accepted, coalesced, empty,
}
use sidewisp_plugin.OpenClaw.Lifecycle.Registry.{prune, task_for_run}
use sidewisp_plugin.OpenClaw.Lifecycle.Process.{process}
use sidewisp_plugin.OpenClaw.Lifecycle.ActiveWork.{fire_timer}
use sidewisp_plugin.OpenClaw.Lifecycle.Runs.{Operation, processing, flushing, perform_all}
use sidewisp_plugin.OpenClaw.Lifecycle.Changes.Bounds.{IsBounded}
use sidewisp_plugin.OpenClaw.Lifecycle.Changes.Steps.{perform_all-IsBounded}
use sidewisp_plugin.OpenClaw.Lifecycle.Lateness.{process-over}
use sidewisp_plugin.OpenClaw.Lifecycle.Retries.{Outcomes, fire_timer-Outcomes}
use sidewisp_plugin.OpenClaw.Cursor.{
  legacy, junk, listing, Entry, task_entry, run_entry, units, parse, print,
}
use sidewisp_plugin.OpenClaw.Cursor.Roundtrip.{parse-print, parse-print-parse}
use sidewisp_plugin.OpenClaw.Cursor.Reading.{IsWork, parse-IsWork}
use sidewisp_plugin.Prelude.Codes.{codes, same_text}
use sidewisp_plugin.OpenClaw.Lifecycle.Registry.{track}
use sidewisp_plugin.OpenClaw.Lifecycle.Room.{IsLasting, track-IsRefused}
use sidewisp_plugin.OpenClaw.HostEvent.{Data, pos, Outcome}
use sidewisp_plugin.OpenClaw.ToolReport.{tool_outcome, tool_result}
use sidewisp_plugin.OpenClaw.AgentEvent.Failures.{IsQuiet, IsFailed, tool_result-IsReport}
use sidewisp_plugin.OpenClaw.Observers.{
  Happening, calls, ends, settles, throws, input, buffered, refused, settled_emitted,
  nothing_observed, happen_all, Ids, Correlation,
}
use sidewisp_plugin.OpenClaw.Observers.Accounting.{AreCounted, happen_all-AreCounted}

abbrev config : Config
config = record {
  max_runs = 2;
  ttl_ms = 1000;
  terminal_retry_grace_ms = 15;
  final_reply_grace_ms = 15;
  persist_retry_base_ms = 1;
  persist_retry_max_ms = 60;
}

abbrev event : ℕ → EventType → Component → Option String → Option String → Event
event n type component turn_id message_id = record {
  ref = incoming n;
  type = type;
  component = component;
  status = no_status;
  session_id = some "s";
  turn_id = turn_id;
  message_id = message_id;
  preview = none;
}

abbrev at : ℕ → World
at now = record { now = now; persists = λ e. true }

abbrev dispatched : Event
dispatched = event 1 message_received before_dispatch (some "outer") (some "m")

abbrev begun : Event
begun = event 2 turn_started (other_component "") (some "r") none

abbrev answered : Event
answered = event 3 (turn completed) final_reply (some "r") (some "m")

-- A message is dispatched, its run starts, and its final reply ends it.
abbrev script : List Operation
script =
    processing (at 1) dispatched
    ∷ processing (at 2) begun
    ∷ processing (at 3) answered
    ∷ flushing (at 4)
    ∷ []

abbrev small_task : Work
small_task = record {
  kind = task;
  session_id = some "s";
  message_id = some "m";
  turn_id = some "m";
  outer_run_id = some "r";
  internal_run_ids = [];
  started = true;
  terminal = false;
  durable = false;
  pending = some answered;
  retryable = false;
  awaiting_final = true;
  confirmed = false;
  persist_attempts = 0;
  deadline = some 7;
  timer = some 7;
  start_event = none;
  terminal_event = none;
  resume_pending = false;
  resume_event = none;
  detached = true;
  question_wait = false;
  updated_at = 5;
}

abbrev over_task : Work
over_task = record small_task {
  terminal = true;
  durable = true;
  pending = none;
  awaiting_final = false;
  deadline = none;
  timer = none;
}

abbrev holding : Work → Lifecycle
holding w = record empty { records = (task_key "s" "m", w) ∷ [] }

perform_all-IsBounded_example : IsBounded config (perform_all config script empty)
perform_all-IsBounded_example =
    perform_all-IsBounded config (omega arith) script (tt, (tt, (tt, (tt, tt))))

process-over_example : (process config (at 10) answered (holding over_task)).1 ≡ coalesced
unfolding prune task_for_run lookup
process-over_example =
    process-over config (at 10) answered (task_key "s" "m") over_task refl (holding over_task) refl
      refl

fire_timer-Outcomes_example :
    Outcomes config
      (at 8)
      (task_key "s" "m")
      small_task
      answered
      (holding small_task)
      (fire_timer config (at 8) (task_key "s" "m") (holding small_task))
unfolding lookup same_key
fire_timer-Outcomes_example =
    fire_timer-Outcomes config (at 8) (task_key "s" "m") small_task answered (holding small_task)
      refl refl refl refl

-- A run that starts, a duplicate of its turn, and a task.
abbrev entries : List Entry
entries =
    run_entry "turn" (some "s")
    ∷ task_entry "s" "m" "m" true false (some "outer") ("r" ∷ "q" ∷ [])
    ∷ []

parse-IsWork_example :
    IsWork (parse (listing (legacy "turn" ∷ legacy "turn" ∷ junk ∷ legacy "" ∷ [])))
parse-IsWork_example =
    parse-IsWork (listing (legacy "turn" ∷ legacy "turn" ∷ junk ∷ legacy "" ∷ []))

parse_legacy :
    parse (listing (legacy "turn" ∷ legacy "turn" ∷ junk ∷ legacy "" ∷ []))
    ≡ run_entry "turn" none ∷ []
unfolding parse same_key
parse_legacy = refl

-- A cursor of the old form, which holds the runs only, is written in the new one.
parse-print-parse_example :
    parse (print 3 (parse (listing (legacy "turn" ∷ legacy "turn" ∷ junk ∷ legacy "" ∷ []))))
    ≡ parse (listing (legacy "turn" ∷ legacy "turn" ∷ junk ∷ legacy "" ∷ []))
parse-print-parse_example =
    parse-print-parse 3 (listing (legacy "turn" ∷ legacy "turn" ∷ junk ∷ legacy "" ∷ []))

parse-print_example : parse (print 3 entries) ≡ entries
unfolding units same_key
parse-print_example = parse-print 3 entries (
  omega arith,
  (
    (
      (refl, refl),
      ((refl, (refl, (refl, (refl, (omega arith, ((refl, (refl, tt)), (refl, (refl, tt)))))))), tt),
    ),
    (refl, (refl, tt)),
  ),
)

-- The final reply of the script is accepted.
script_accepts :
    (process config
      (at 3)
      answered
      (perform_all config (processing (at 1) dispatched ∷ processing (at 2) begun ∷ []) empty)).1
    ≡ accepted (record answered { ref = copied 3; turn_id = some "m" })
unfolding perform_all process same_key
script_accepts = refl

-- With room for one task, which lasts, a second one is refused.
abbrev narrow : Config
narrow = record config { max_runs = 1 }

track-IsRefused_example :
    All IsLasting (track narrow (task_key "s" "n") small_task (holding small_task)).0.records
unfolding track
track-IsRefused_example =
    track-IsRefused narrow (task_key "s" "n") small_task (holding small_task) (omega arith) refl

abbrev happenings : List Happening
happenings =
    calls "message_received" input
    ∷ calls "before_dispatch" throws
    ∷ calls "message_sent" input
    ∷ ends buffered
    ∷ ends refused
    ∷ settles settled_emitted
    ∷ []

happen_all-AreCounted_example :
    AreCounted 1 happenings nothing_observed (happen_all 1 happenings nothing_observed)
happen_all-AreCounted_example = happen_all-AreCounted 1 happenings

abbrev ids_of : Option String → Option String → Ids
ids_of session message = record {
  session_key = session;
  session_id = none;
  run_id = none;
  tool_call_id = none;
  message_id = message;
  inbound_message_id = none;
  outbound_message_id = none;
  id = none;
}

abbrev received : Correlation
received = record {
  session_id = some "s";
  turn_id = some "r";
  tool_call_id = none;
  message_id = some "m";
}

abbrev failed_tool : Data
failed_tool = record {
  tool_call_id = none;
  item_id = none;
  approval_id = none;
  approval_slug = none;
  kind = none;
  phase = some (codes "end");
  timeout_phase = none;
  stop_reason = none;
  interruption_reason = none;
  outcome = none;
  status = some (codes "Killed");
  result_status = none;
  liveness_state = none;
  code = none;
  name = some (codes "exec");
  tool_name = none;
  result_name = none;
  result_tool_name = none;
  timed_out = false;
  aborted = false;
  yielded = false;
  execution_settled = false;
  is_error = false;
  cancelled = false;
  canceled = false;
  success_is_false = false;
  has_error = false;
  ended_at = none;
  duration_ms = none;
  exit_code = some (pos 2);
  result_exit_code = none;
  http_status = none;
  status_code = none;
  result_http_status = none;
  result_status_code = none;
}

tool_result-IsReport_example :
    IsQuiet (tool_result failed_tool) ⊎ IsFailed (tool_result failed_tool)
tool_result-IsReport_example = tool_result-IsReport failed_tool

-- A status that differs in case only is a cancellation.
killed_is_cancelled : tool_outcome failed_tool ≡ Outcome.cancelled
unfolding tool_outcome same_text
killed_is_cancelled = refl
