-- ===== src/OpenClaw/Lifecycle.antt =====
-- src/adapters/openclaw/hooks.js: the state of `createOpenClawUserTaskLifecycle`. A missing
-- identifier and an empty one are the same for the code, and both are `none` here.
pub mod Registry
pub mod Settlement
pub mod Admission
pub mod Finish
pub mod Turns
pub mod Process
pub mod ActiveWork
pub mod Runs
pub mod Retries
pub mod Room
pub mod Lateness
pub mod Changes
use sidewisp_plugin.Prelude.{
  ℕ, String, Bool, true, false, not, ◌&&◌, ◌||◌, ◌==◌, Option, none, some, List, [], ◌∷◌, eqb,
  if◌then◌else◌,
}

-- How a turn ends.
pub data Ending : Type 0 where
  completed failed timeout cancelled : Ending

pub data EventType : Type 0 where
  turn_started turn_progress message_received tool other_type : EventType
  turn : Ending → EventType

-- `details.component`, as far as the lifecycle reads it.
pub data Component : Type 0 where
  message_observation before_dispatch final_reply runtime_reconciliation : Component
  agent_lifecycle_end agent_lifecycle_error gateway_restart_continuation : Component
  ask_user_wait gateway_restart_resume : Component
  other_component : String → Component

-- `details.status`, as far as the lifecycle reads it.
pub data Status : Type 0 where
  tool_warning continuation_pending execution_settled terminal_candidate resumed no_status : Status

-- Which object an event is: one that was handed in, or a copy that the lifecycle made.
pub data Ref : Type 0 where
  incoming copied : ℕ → Ref

pub record Event : Type 0 where
  pub ref : Ref
  pub type : EventType
  pub component : Component
  pub status : Status
  pub session_id : Option String
  pub turn_id : Option String
  pub message_id : Option String
  pub preview : Option String

-- The keys of the maps: `["task", sessionId, messageId]` and `["run", sessionId, runId]`.
pub data Key : Type 0 where
  task_key run_key : String → String → Key

unfoldable pub same_key : Key → Key → Bool
same_key (task_key s m) (task_key t n) = s == t && m == n
same_key (run_key s m) (run_key t n) = s == t && m == n
same_key _ _ = false

-- `taskKey`
abbrev pub task_key_of : Option String → Option String → Option Key
task_key_of (some s) (some m) = some (task_key s m)
task_key_of _ _ = none

abbrev pub or_blank : Option String → String
or_blank none = ""
or_blank (some s) = s

-- `runKey`
abbrev pub run_key_of : Option String → Option String → Option Key
run_key_of s none = none
run_key_of s (some r) = some (run_key (or_blank s) r)

pub data Kind : Type 0 where
  task run : Kind

-- The state of a task or of an autonomous run. `timer` is the time at which the timer of the pending
-- terminal fires; a run has no pending terminal.
pub record Work : Type 0 where
  pub kind : Kind
  pub session_id : Option String
  pub message_id : Option String
  pub turn_id : Option String
  pub outer_run_id : Option String
  pub internal_run_ids : List String
  pub started : Bool
  pub terminal : Bool
  pub durable : Bool
  pub pending : Option Event
  pub retryable : Bool
  pub awaiting_final : Bool
  pub confirmed : Bool
  pub persist_attempts : ℕ
  pub deadline : Option ℕ
  pub timer : Option ℕ
  pub start_event : Option Event
  pub terminal_event : Option Event
  pub resume_pending : Bool
  pub resume_event : Option Event
  pub detached : Bool
  pub question_wait : Bool
  pub updated_at : ℕ

-- An inbound message that was observed and not yet dispatched.
pub record Inbound : Type 0 where
  pub inbound_message : String
  pub outer_run : Option String
  pub run_ids : List String
  pub expires_at : ℕ

pub record Config : Type 0 where
  pub max_runs : ℕ
  pub ttl_ms : ℕ
  pub terminal_retry_grace_ms : ℕ
  pub final_reply_grace_ms : ℕ
  pub persist_retry_base_ms : ℕ
  pub persist_retry_max_ms : ℕ

-- The maps of the closure. `copies` counts the copies of events that were made; `deferred` and
-- `suppressed` hold the events that `onDeferred` persisted and that `onSuppressed` was told, the
-- last one first.
pub record Lifecycle : Type 0 where
  pub records : List (Key × Work)
  pub bindings : List (Key × Key)
  pub retired_bindings : List Key
  pub current : List (String × Key)
  pub inbound : List (String × Inbound)
  pub retired_inbound : List (Key × ℕ)
  pub copies : ℕ
  pub deferred : List Event
  pub suppressed : List Event

abbrev pub empty : Lifecycle
empty = record {
  records = [];
  bindings = [];
  retired_bindings = [];
  current = [];
  inbound = [];
  retired_inbound = [];
  copies = 0;
  deferred = [];
  suppressed = [];
}

-- The reading of the clock in a step, and what `onDeferred` answers, false where it throws.
pub record World : Type 0 where
  pub now : ℕ
  pub persists : Event → Bool

abbrev pub is_task : Work → Bool
is_task w = elim w.kind [ task ↦ true | run ↦ false ]

abbrev pub same_string : String → String → Bool
same_string a b = a == b

-- `a === b` for two identifiers.
abbrev pub same_id : Option String → Option String → Bool
same_id none none = true
same_id (some a) (some b) = a == b
same_id _ _ = false

-- `NEGATIVE_TURN_TERMINALS.has(event?.type)`
abbrev pub is_negative_type : EventType → Bool
is_negative_type (turn failed) = true
is_negative_type (turn timeout) = true
is_negative_type (turn cancelled) = true
is_negative_type _ = false

abbrev pub is_negative : Option Event → Bool
is_negative none = false
is_negative (some e) = is_negative_type e.type

abbrev pub is_completed_type : EventType → Bool
is_completed_type (turn completed) = true
is_completed_type _ = false

-- `TURN_TERMINALS.has(event?.type)`
abbrev pub is_terminal_type : EventType → Bool
is_terminal_type (turn e) = true
is_terminal_type _ = false

abbrev pub is_started_type : EventType → Bool
is_started_type turn_started = true
is_started_type _ = false

abbrev pub is_final_reply : Component → Bool
is_final_reply final_reply = true
is_final_reply _ = false

abbrev pub is_lifecycle_end : Component → Bool
is_lifecycle_end agent_lifecycle_end = true
is_lifecycle_end _ = false

abbrev pub component_code : Component → ℕ
component_code message_observation = 0
component_code before_dispatch = 1
component_code final_reply = 2
component_code runtime_reconciliation = 3
component_code agent_lifecycle_end = 4
component_code agent_lifecycle_error = 5
component_code gateway_restart_continuation = 6
component_code ask_user_wait = 7
component_code gateway_restart_resume = 8
component_code (other_component s) = 9

abbrev pub same_component : Component → Component → Bool
same_component (other_component a) (other_component b) = a == b
same_component a b = eqb (component_code a) (component_code b)

abbrev pub same_ending : Ending → Ending → Bool
same_ending completed completed = true
same_ending failed failed = true
same_ending timeout timeout = true
same_ending cancelled cancelled = true
same_ending _ _ = false

abbrev pub same_turn : EventType → EventType → Bool
same_turn (turn a) (turn b) = same_ending a b
same_turn _ _ = false

abbrev pub is_warning : Status → Bool
is_warning tool_warning = true
is_warning _ = false

abbrev pub is_settled : Status → Bool
is_settled execution_settled = true
is_settled _ = false

abbrev pub is_continuation : Status → Bool
is_continuation continuation_pending = true
is_continuation _ = false

-- `retarget`: a copy of the event for the work's session and turn.
abbrev pub retarget : ℕ → Event → Work → Event
retarget copies e w = record e {
  ref = copied copies;
  session_id = w.session_id;
  turn_id = w.turn_id;
}

-- `resumedStart`
abbrev pub resumed_start : ℕ → Event → Work → Event
resumed_start copies e w = record e {
  ref = copied copies;
  session_id = w.session_id;
  turn_id = w.turn_id;
  component = gateway_restart_resume;
  status = resumed;
}

-- The fields that `clearPending` resets, its timer included.
abbrev pub clear_pending : Work → Work
clear_pending w = record w {
  pending = none;
  retryable = false;
  awaiting_final = false;
  confirmed = false;
  persist_attempts = 0;
  deadline = none;
  timer = none;
}

-- What a step answers.
pub data Disposition : Type 0 where
  buffered coalesced : Disposition
  accepted : Event → Disposition

-- `state.updatedAt = nowMs`
abbrev pub touch : ℕ → Work → Work
touch now w = record w { updated_at = now }

-- `onSuppressed(pending)`
abbrev pub suppress : Option Event → Lifecycle → Lifecycle
suppress none l = l
suppress (some e) l = record l { suppressed = e ∷ l.suppressed }
