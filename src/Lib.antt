-- ===== src/Lib.antt =====
-- Sidewisp collector plugin (src, scripts): the logic of the telemetry collector that runs beside an
-- agent runtime.
--
-- The plugin turns runtime hooks into sanitized telemetry events, stores them in a durable spool
-- (an SQLite file), and an uploader empties the spool against the managed service. Around this core
-- stand a heartbeat supervisor, health probes, the runtime adapters and a managed updater.
--
-- Delivery models src/delivery. Delivery/Spool holds the five tables of spool.js as lists of rows
-- under Prelude/Table, which has the SQL statements that the plugin uses (INSERT OR IGNORE, upsert,
-- DELETE and UPDATE with a condition); Quota, Queue, Pending, Coalesce and Quarantine are the
-- operations, Operation runs them in sequence, and the other children prove. An event is stored as
-- its JSON text, so that parsing what was stringified is the identity by construction. The sizes of
-- the database files after a commit or a vacuum are SQLite's, and enter as the record Sqlite; a
-- failing SQLite statement, which rolls back its transaction, is not modelled beyond the callback of
-- enqueueSourceBatch. Every reading of the clock within an operation is a value of a function from
-- the reading's position. Delivery/Uploader is uploader.js: prepare and settle are performSend
-- before and after the request, the server and the credential store are arguments, and drain is
-- recursion on the attempts that are left, so it needs no fuel. HTTP headers, gzip and the HMAC
-- signature are not modelled: they do not decide which events leave the spool. The two callbacks
-- onUpdate and onAcknowledged, whose exceptions performSend swallows, are left out.
--
-- Delivery/Pump is upload-pump.js, and Core/Heartbeat is src/core/heartbeat-supervisor.js: the variables of
-- the closure are a record, and each thing that can happen between two turns of the event loop (a
-- call, a timer, the end of an operation) is a constructor of Event with one step. The supervisor's
-- abort signal and its report of errors do not change that state and are left out; whether an error
-- is permanent is an argument of the rejection. Core/Diagnostics is src/core/diagnostics.js: texts are
-- lists of character codes, and the two regular expressions are written out as tests of them, PROHIBITED in
-- Core/ProhibitedText.
-- Core/Health is src/core/health.js: what a probe does within its time is an argument. Core/Adapters is
-- src/core/runtime-adapter.js, whose errors are `none`.
--
-- Delivery/Diagnostics is runtime-diagnostics.js: collect, and upload in two parts with the request
-- between them, so that the spool may change while the request is under way. The digest of a
-- snapshot is a field of it.
--
-- Update models src/update. Version has the versions of directive.js, whose texts are lists of
-- character codes, Directive the validity of a directive and shouldApply of manager.js, Scheduler the
-- decisions of scheduler.js up to the start of its helper process, whose command line is not
-- modelled, and Convergence the loop of current-release.js: what its callbacks do in a round is an
-- Observation, the attempts that are left are the recursion's argument, as in the source, and the
-- status writes are left out. HotUpdate is the loop of hot-update.js in the same form, with the
-- tests of an idle host.
--
-- Release/Rollout is src/release/fleet-rollout.js, with its state in RolloutState and the loop over the agents in
-- Observation. One tick is plan_fleet_rollout, and run_ticks is
-- the controller that its comment asks for, which persists each plan. The order of localeCompare is
-- a parameter. The keys of the attempts object are its rows in the order of insertion; a key that is
-- an integer would come first in JavaScript, which only decides which of two lost agents is named.
--
-- Schedules/Runner is src/schedules/runner.js, with its types in RunnerState and the try of execute in Run. World is what the host, the server and the clock
-- answer in one turn, and where the process ends in it; the list of waits is as long as the loop
-- runs, and a list that ends early is a process that is killed. The file operations do not fail, and
-- the signed request is its answer.
--
-- OpenClaw models src/adapters/openclaw/hooks.js. OpenClaw/Lifecycle is the closure of
-- createOpenClawUserTaskLifecycle: its maps are association lists in the order of insertion, under
-- Prelude/Assoc, and processDetailed is `process`, whose branches are Admission (message_observation and
-- before_dispatch), Finish (the final reply and the reconciliation) and Turns (progress, tools, the start and the end of
-- a run). Registry has the helpers on the maps, Settlement those on a pending terminal, ActiveWork the other
-- operations, and Runs their sequences. A missing identifier and an empty one are both `none`; the clock is
-- read once in a step; onDeferred is the function `persists`, false where it throws; the timer of a
-- pending terminal is the time at which it fires. The loop of track that makes room is on fuel, the number
-- of records: each turn removes one, and without records there is room wherever maxRuns is positive.
-- commit and rollback, and the fields that only they read, are not modelled. Lifecycle/Changes is the
-- abstract view of this state: a relation of permitted changes. OpenClaw/Cursor is the parser and
-- the printer of the active work, on the value that JSON.parse returns and JSON.stringify takes.
-- OpenClaw/AgentEvent is openClawAgentEventInput, on the types of HostEvent and with the reports of tools in
-- ToolReport, with texts as lists of character codes; lower and upper
-- case are those of JavaScript as far as a comparison with an ASCII word can tell. OpenClaw/Observers is
-- registerOpenClawHooks: its counters, whose happenings are the calls of hooks, the ends of dispatches and the calls of
-- settle, the correlation of a dispatch with the message before it, and the hook after_tool_call.
--
-- OpenClaw/Questions is src/adapters/openclaw/questions.js, with its state and bind in QuestionCalls and the scan of the
-- host's registry in QuestionScan. The host is read once in a step; a promise of an answer is settled by a
-- happening of its own, which names the call by its key and its serial number; a loop visits the keys that were there when
-- it began and skips a deleted one, since no loop adds a call.
--
-- Core/Normalize is src/core/normalize.js, from the input of a runtime's adapter to an event or a local
-- diagnostic, with Core/RuntimeMappings for its table, Core/Causes for
-- src/core/causes.js and Core/Sanitize for src/core/sanitize.js, the last gate before the spool, whose two patterns
-- are in Core/SafeText. An input is an object that can be read, its own properties a list; the catalog of causes, a JSON file,
-- is an argument. Core/Preview is src/core/message-preview.js: what Unicode and the patterns of credentials decide is an
-- argument, the record Scan, and the rules about which type may have a preview and how it is cut are modelled.
-- A kind that every JavaScript object inherits, as toString, is in no mapping and gives a diagnostic of its own.
mod Prelude
pub mod Core
pub mod Delivery
pub mod OpenClaw
pub mod Release
pub mod Schedules
pub mod Update
mod Tests
