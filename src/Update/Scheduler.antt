-- ===== src/Update/Scheduler.antt =====
-- src/update/scheduler.js: `blocksAttempt` and the scheduler of update helpers.
pub mod Launches
use sidewisp_plugin.Prelude.{
  ℕ, ◌+◌, String, Bool, true, false, not, ◌&&◌, ◌||◌, Option, none, some, List, [], ◌∷◌, leb,
  if◌then◌else◌, is_some,
}
use sidewisp_plugin.Prelude.Codes.{Text, codes, same_text}
use sidewisp_plugin.Update.Version.{is_newer_version}
use sidewisp_plugin.Update.Directive.{
  Directive, Attempt, valid_update_directive, is_hex, is_one_of, is_newer_than, or_empty, same_some,
}

abbrev pub active_attempt_ttl_ms : ℕ
active_attempt_ttl_ms = 120000

abbrev pub terminal_states : List Text
terminal_states =
    codes "completed"
    ∷ codes "failed"
    ∷ codes "rolled_back"
    ∷ codes "skipped"
    ∷ codes "rolling_back"
    ∷ []

abbrev pub unsafe_states : List Text
unsafe_states = codes "updating" ∷ codes "restarting" ∷ codes "verifying" ∷ []

-- `Number.isFinite(updatedAt) && nowMs - updatedAt <= ACTIVE_ATTEMPT_TTL_MS`
unfoldable pub is_recent : ℕ → Option ℕ → Bool
is_recent now none = false
is_recent now (some t) = leb now (t + active_attempt_ttl_ms)

-- `blocksAttempt`, as a test.
unfoldable pub blocks_attempt : Option Attempt → Option Text → ℕ → Bool
blocks_attempt none target now = false
blocks_attempt (some a) target now =
    if not (same_some a.target_version target) || not (is_some a.status)
    then false
    else if is_one_of terminal_states a.status || is_one_of unsafe_states a.status
    then true
    else is_recent now a.updated_at

-- The scheduler, with what it reads: the status file, and whether a manager is installed. `launches`
-- holds the directives whose helper was started, the last one first.
pub record Scheduler : Type 0 where
  pub current_version : Text
  pub scheduled_version : Option Text
  pub attempt : Option Attempt
  pub managed : Bool
  pub launches : List Directive

abbrev pub status_of : Option Attempt → Option Text
status_of none = none
status_of (some a) = a.status

abbrev pub deferred_states : List Text
deferred_states = codes "deferred" ∷ []

-- `directive.targetVersion === scheduledVersion && readAttempt(stateFile)?.status !== "deferred"`
unfoldable pub is_scheduled : Directive → Scheduler → Bool
is_scheduled d s =
    same_some d.target_version s.scheduled_version
    && not (is_one_of deferred_states (status_of s.attempt))

-- `schedule`; the arguments and the environment of the helper's process are not modelled.
unfoldable pub schedule : Directive → ℕ → Scheduler → Scheduler × Bool
schedule d now s =
    if s.managed
    then (s, false)
    else if not (valid_update_directive d) || not (is_hex 64 (or_empty d.sha256))
    then (s, false)
    else if not (is_newer_than d.target_version (some s.current_version))
        || is_scheduled d s
        || blocks_attempt s.attempt d.target_version now
    then (s, false)
    else (record s { scheduled_version = d.target_version; launches = d ∷ s.launches }, true)
