-- ===== src/OpenClaw/HostEvent.antt =====
-- src/adapters/openclaw/hooks.js: what `openClawAgentEventInput` reads of an event of the host, and the input of the
-- normalizer that it returns.
use sidewisp_plugin.Prelude.{ℕ, Bool, false, Option, none, some, List, [], any, map}
use sidewisp_plugin.Prelude.Codes.{lower_code, Text, same_text}

-- A safe integer
pub data Integer : Type 0 where
  pos negsuc : ℕ → Integer

-- The properties of `event.data` that are read. A missing one is none; `success`, a Boolean, is that it is `false`,
-- and each other Boolean that it is `true`.
pub record Data : Type 0 where
  pub tool_call_id : Option Text
  pub item_id : Option Text
  pub approval_id : Option Text
  pub approval_slug : Option Text
  pub kind : Option Text
  pub phase : Option Text
  pub timeout_phase : Option Text
  pub stop_reason : Option Text
  pub interruption_reason : Option Text
  pub outcome : Option Text
  pub status : Option Text
  pub result_status : Option Text
  pub liveness_state : Option Text
  pub code : Option Text
  pub name : Option Text
  pub tool_name : Option Text
  pub result_name : Option Text
  pub result_tool_name : Option Text
  pub timed_out : Bool
  pub aborted : Bool
  pub yielded : Bool
  pub execution_settled : Bool
  pub is_error : Bool
  pub cancelled : Bool
  pub canceled : Bool
  pub success_is_false : Bool
  pub has_error : Bool
  pub ended_at : Option Integer
  pub duration_ms : Option Integer
  pub exit_code : Option Integer
  pub result_exit_code : Option Integer
  pub http_status : Option Integer
  pub status_code : Option Integer
  pub result_http_status : Option Integer
  pub result_status_code : Option Integer

pub record HostEvent : Type 0 where
  pub stream : Option Text
  pub run_id : Option Text
  pub session_id : Option Text
  pub session_key : Option Text
  pub payload : Data

pub record Correlation : Type 0 where
  pub session_id : Option Text
  pub turn_id : Option Text
  pub tool_call_id : Option Text

pub data Outcome : Type 0 where
  success failure timeout cancelled : Outcome

pub data Component : Type 0 where
  gateway_restart_continuation agent_lifecycle_end agent_lifecycle_error : Component

pub data TurnStatus : Type 0 where
  no_status continuation_pending terminal_candidate execution_settled : TurnStatus

pub record Turn : Type 0 where
  pub outcome : Outcome
  pub component : Component
  pub status : TurnStatus
  pub duration_ms : Option Integer

pub record Tool : Type 0 where
  pub operation : Text
  pub outcome : Outcome
  pub status : Option Text
  pub exit_code : Option Integer
  pub http_status : Option Integer
  pub code : Option Text
  pub recoverable : Option Bool
  pub duration_ms : Option Integer

-- The input of the normalizer. An approval that is resolved has an outcome only.
pub data Input : Type 0 where
  turn_progress turn_start : Correlation → Input
  turn_end : Turn → Correlation → Input
  tool_start : (operation : Option Text) → Correlation → Input
  approval_end : Outcome → Correlation → Input
  tool_end : Tool → Correlation → Input

-- `value === word`, for a text that may be missing
abbrev pub is_word : Option Text → Text → Bool
is_word none word = false
is_word (some s) word = same_text s word

abbrev pub is_one_of : Option Text → List Text → Bool
is_one_of s words = any (is_word s) words

abbrev pub or_text : Option Text → Option Text → Option Text
or_text none b = b
or_text (some a) b = some a

abbrev pub or_integer : Option Integer → Option Integer → Option Integer
or_integer none b = b
or_integer (some a) b = some a

abbrev pub lowered : Option Text → Text
lowered none = []
lowered (some s) = map lower_code s
