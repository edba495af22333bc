-- ===== src/OpenClaw/AgentEvent.antt =====
-- src/adapters/openclaw/hooks.js: `openClawAgentEventInput`, which turns an event of the host into the input of
-- the normalizer, and the helpers `classifyFailure`, `cancellation` and `toolDetails`. Texts are lists of
-- character codes. The preview of a message and the cause of a failure, which other modules compute, are left out.
pub mod Failures
use sidewisp_plugin.Prelude.{
  ℕ, ◌+◌, ◌-◌, Bool, true, false, not, ◌&&◌, ◌||◌, Option, none, some, List, [], ◌∷◌, ◌++◌, leb,
  ltb, eqb, if◌then◌else◌, is_some, any, all, map, length,
}
use sidewisp_plugin.Prelude.Codes.{
  units, lower_code, upper_code, Text, codes, is_digit, is_lower, is_upper, same_text,
}
use sidewisp_plugin.Core.ProhibitedText.{has_infix}
use sidewisp_plugin.OpenClaw.HostEvent.{
  Data, HostEvent, Correlation, Turn, Input, is_word, is_one_of, or_text, lowered, success, failure,
  timeout, cancelled, gateway_restart_continuation, agent_lifecycle_end, agent_lifecycle_error,
  no_status, continuation_pending, terminal_candidate, execution_settled, turn_progress, turn_start,
  turn_end, tool_start, approval_end, tool_end,
}
use sidewisp_plugin.OpenClaw.ToolReport.{safe_operation, tool_result}

abbrev pub is_restart : Data → Bool
is_restart d =
    is_word d.timeout_phase (codes "gateway_draining")
    || is_word d.stop_reason (codes "restart")
    || is_word d.interruption_reason (codes "gateway-restart")

abbrev pub is_timed_out : Data → Bool
is_timed_out d =
    d.timed_out
    || is_word d.outcome (codes "timeout")
    || is_word d.stop_reason (codes "timeout")
    || is_word d.status (codes "timed_out")
    || is_some d.timeout_phase

abbrev pub is_cancelled : Data → Bool
is_cancelled d =
    d.aborted
    || is_one_of (some (lowered d.stop_reason))
        (codes "cancelled" ∷ codes "canceled" ∷ codes "aborted" ∷ codes "killed" ∷ [])

-- `terminalOrUnknown`
abbrev pub is_terminal_or_unknown : Data → Bool
is_terminal_or_unknown d =
    not (is_word d.phase (codes "end"))
    || d.success_is_false
    || d.aborted
    || d.timed_out
    || is_word d.outcome (codes "timeout")
    || is_word d.status (codes "cancelled")
    || is_word d.status (codes "timed_out")
    || is_some d.timeout_phase
    || d.has_error

-- `continuationPending`
abbrev pub is_continued : Data → Bool
is_continued d =
    not (is_terminal_or_unknown d)
    && (d.yielded
          && is_word d.liveness_state (codes "paused")
          && is_word d.stop_reason (codes "end_turn")
        || is_word d.stop_reason (codes "tool_calls"))

abbrev pub has_turn_failed : Data → Bool
has_turn_failed d =
    is_word d.phase (codes "error")
    || d.success_is_false
    || is_word d.stop_reason (codes "error")
    || is_one_of d.liveness_state (codes "blocked" ∷ codes "abandoned" ∷ [])

-- The end of a run that no restart has cut off
unfoldable pub turn_result : Data → Turn
turn_result d = record {
  outcome =
      if is_timed_out d
      then timeout
      else if is_cancelled d
      then cancelled
      else if has_turn_failed d
      then failure
      else success;
  component = if is_word d.phase (codes "end") then agent_lifecycle_end else agent_lifecycle_error;
  status =
      if is_word d.phase (codes "error") && is_some d.ended_at
      then terminal_candidate
      else if is_continued d
      then continuation_pending
      else if d.execution_settled && is_some d.ended_at
      then execution_settled
      else no_status;
  duration_ms = d.duration_ms;
}

-- The end of a run that a restart of the gateway has cut off
abbrev pub restarted : Turn
restarted = record {
  outcome = success;
  component = gateway_restart_continuation;
  status = continuation_pending;
  duration_ms = none;
}

abbrev pub starts_with : Text → Text → Bool
starts_with [] s = true
starts_with (c ∷ p) [] = false
starts_with (c ∷ p) (d ∷ s) = eqb c d && starts_with p s

abbrev pub holds : (Text → Bool) → Option Text → Bool
holds p none = false
holds p (some s) = p s

abbrev pub same_texts : Option Text → Option Text → Bool
same_texts (some s) (some t) = same_text s t
same_texts _ _ = false

-- `activeMemoryRun`
unfoldable pub is_memory_run : HostEvent → Bool
unfolding has_infix
is_memory_run e =
    holds (starts_with (codes "active-memory-")) e.run_id
    && same_texts e.session_id e.run_id
    && holds (has_infix (codes ":active-memory:")) e.session_key

abbrev pub correlation_of : HostEvent → Correlation
correlation_of e =
    let d = e.payload in
    record {
      session_id = or_text e.session_key e.session_id;
      turn_id = e.run_id;
      tool_call_id =
          or_text d.tool_call_id (or_text d.item_id (or_text d.approval_id d.approval_slug));
    }

-- `safeCursorId`
abbrev pub safe_cursor_id : Option Text → Option Text
safe_cursor_id none = none
safe_cursor_id (some s) = if leb 1 (units s) && leb (units s) 256 then some s else none

abbrev pub lifecycle_input : Data → Correlation → Option Input
lifecycle_input d correlation =
    if is_word d.phase (codes "start")
    then some (turn_start correlation)
    else if is_one_of d.phase (codes "end" ∷ codes "error" ∷ [])
    then some (turn_end (if is_restart d then restarted else turn_result d) correlation)
    else none

abbrev pub with_item : Option Text → Correlation → Correlation
with_item none correlation = correlation
with_item (some item) correlation = record correlation { tool_call_id = some item }

abbrev pub approval_input : Data → Correlation → Option Input
approval_input d correlation =
    if is_word d.phase (codes "requested") && is_word d.status (codes "pending")
    then some (tool_start (some (codes "user_approval")) correlation)
    else if is_word d.phase (codes "resolved")
    then some (
        approval_end
          (if is_one_of d.status (codes "denied" ∷ codes "failed" ∷ codes "unavailable" ∷ [])
            then cancelled
            else success)
          correlation)
    else none

abbrev pub tool_input : Data → Correlation → Option Input
tool_input d correlation =
    if is_one_of d.phase (codes "start" ∷ codes "started" ∷ [])
    then some (tool_start (safe_operation (d.name ∷ d.tool_name ∷ [])) correlation)
    else if is_one_of d.phase (codes "result" ∷ codes "end" ∷ codes "completed" ∷ [])
    then some (tool_end (tool_result d) correlation)
    else none

-- A completed commentary item
abbrev pub is_preamble : HostEvent → Bool
is_preamble e =
    is_word e.stream (codes "item")
    && is_word e.payload.kind (codes "preamble")
    && is_word e.payload.phase (codes "end")
    && is_some (safe_cursor_id e.payload.item_id)

abbrev pub stream_input : HostEvent → Correlation → Option Input
stream_input e correlation =
    if is_preamble e
    then some (turn_progress correlation)
    else if is_word e.stream (codes "lifecycle")
    then lifecycle_input e.payload correlation
    else if is_word e.stream (codes "approval")
    then approval_input e.payload (with_item (safe_cursor_id e.payload.item_id) correlation)
    else if is_word e.stream (codes "tool")
    then tool_input e.payload correlation
    else none

-- `openClawAgentEventInput`
unfoldable pub agent_event_input : HostEvent → Option Input
unfolding is_memory_run turn_result safe_operation tool_result
agent_event_input e = if is_memory_run e then none else stream_input e (correlation_of e)
