-- ===== src/Schedules/RunnerState.antt =====
-- src/schedules/runner.js: the entry that is kept between two turns of the runner, and what the host, the server and
-- the clock answer in a turn.
use sidewisp_plugin.Prelude.{ℕ, String, Bool, Option, none, List, []}
use sidewisp_plugin.Prelude.Codes.{Text}

pub data Kind : Type 0 where
  agent_turn system_event other_kind : Kind

pub record Job : Type 0 where
  pub run_id : Text
  pub schedule_id : Text
  pub kind : Kind
  pub summary : Text
  pub timeout_ms : ℕ

pub data State : Type 0 where
  succeeded failed blocked : State

pub record Result : Type 0 where
  pub result_run_id : Text
  pub result_schedule_id : Text
  pub state : State
  pub error_code : Option String
  pub execution_ref : Option Text
  pub result_summary : Option Text

-- The content of `schedule-execution.json`.
pub record Entry : Type 0 where
  pub endpoint : Text
  pub installation : Text
  pub job : Job
  pub started_at : ℕ
  pub session_key : Text
  pub runtime_run_id : Option Text
  pub result : Option Result

pub record Credential : Type 0 where
  pub installation_id : Text
  pub active : Bool

pub data Poll : Type 0 where
  poll_fails no_job : Poll
  polled_job : Job → Poll

-- `crashed`: the process ends after the call and before anything is saved.
pub data Launch : Type 0 where
  launch_throws crashed : Launch
  launched : Text → Option Text → Launch

pub data Outcome : Type 0 where
  outcome_ok : (reply : Option Text) → Outcome
  outcome_error : (retryable : Bool) → Outcome
  outcome_pending : Outcome

-- One turn of the waiting loop: whether the runner was stopped before it, the clock, and what
-- `waitForRun` returns, or `none` where it throws.
pub record Wait : Type 0 where
  pub is_stopped : Bool
  pub time : ℕ
  pub outcome : Option Outcome

-- What `getSessionMessages` finds.
pub data History : Type 0 where
  no_history history_throws : History
  last_reply : Text → History

pub data Ack : Type 0 where
  ack_fails not_found : Ack
  acknowledged_run : Text → Ack

-- What a turn meets; `origin` is the endpoint's, of which a process that is started again may have another one.
pub record World : Type 0 where
  pub origin : Text
  pub can_execute : Bool
  pub credential : Option Credential
  pub now : ℕ
  pub poll : Poll
  pub crash_before_work : Bool
  pub has_system : Bool
  pub has_subagent : Bool
  pub enqueue : Launch
  pub launch : Launch
  pub waits : List Wait
  pub stopped_after : Bool
  pub history : History
  pub failure_summary : Text
  pub crash_before_result : Bool
  pub ack : Ack

pub record Config : Type 0 where
  pub agent_id : Text

-- A request of the operation `result`, to an origin and under an installation.
pub record Report : Type 0 where
  pub receiver : Text
  pub sender : Text
  pub reported : Entry

-- The file and its renamed copies; `polled` has the run of each accepted job, `launches` that of each
-- call of `subagent.run` or `enqueueSystemEvent`, `reports` each result request.
pub record Runner : Type 0 where
  pub file : Option Entry
  pub quarantined : List Entry
  pub polled : List Text
  pub launches : List Text
  pub reports : List Report

abbrev pub initial : Runner
initial = record { file = none; quarantined = []; polled = []; launches = []; reports = [] }
