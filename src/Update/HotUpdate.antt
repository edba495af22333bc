-- ===== src/Update/HotUpdate.antt =====
-- src/update/hot-update.js: when a host is idle, and `applyHotUpdate`, whose callbacks' answers in one
-- round of the loop are a record.
pub mod Once
pub mod Completion
use sidewisp_plugin.Prelude.{
  ℕ, zero, suc, ◌+◌, Bool, true, false, not, ◌&&◌, Option, none, some, List, [], ◌∷◌, ◌++◌, ltb,
  leb, eqb, if◌then◌else◌, all, length,
}
use sidewisp_plugin.Prelude.Codes.{Text, same_text}
use sidewisp_plugin.Update.Convergence.{
  Current, Ending, done, retained, fault, Answer, yes, no, throws, Action, install, reload,
  activate, is_current, is_healthy,
}

-- The four counters that `isTaskIdle` reads; `none` where the status has no `userTasks`.
pub record UserTasks : Type 0 where
  pub active_runs : ℕ
  pub pending_terminals : ℕ
  pub awaiting_finals : ℕ
  pub pending_inbound_observations : ℕ

unfoldable pub is_task_idle : Option UserTasks → Bool
is_task_idle none = false
is_task_idle (some t) =
    eqb t.active_runs 0
    && eqb t.pending_terminals 0
    && eqb t.awaiting_finals 0
    && eqb t.pending_inbound_observations 0

-- A counter that is not a safe integer from 0 on is `none`.
pub record Counts : Type 0 where
  pub active_count : Option ℕ
  pub queued_count : Option ℕ

pub record Lane : Type 0 where
  pub counts : Counts
  pub draining : Bool
  pub is_blocked : Bool

-- `dynamic` is `null` or an object; `lanes` is `none` where it is no array.
pub record Snapshot : Type 0 where
  pub ts : Option ℕ
  pub lanes : Option (List Lane)
  pub dynamic : Option Counts

abbrev pub is_zero : Option ℕ → Bool
is_zero none = false
is_zero (some n) = eqb n 0

abbrev pub are_zero : Counts → Bool
are_zero c = is_zero c.active_count && is_zero c.queued_count

abbrev pub is_lane_idle : Lane → Bool
is_lane_idle l = are_zero l.counts && not l.draining && not l.is_blocked

abbrev pub are_lanes_idle : Option (List Lane) → Bool
are_lanes_idle none = false
are_lanes_idle (some ls) = ltb 0 (length ls) && all is_lane_idle ls

abbrev pub is_dynamic_idle : Option Counts → Bool
is_dynamic_idle none = true
is_dynamic_idle (some c) = are_zero c

abbrev pub is_positive : Option ℕ → Bool
is_positive none = false
is_positive (some n) = ltb 0 n

unfoldable pub is_host_idle : Option Snapshot → Bool
is_host_idle none = false
is_host_idle (some s) = is_positive s.ts && are_lanes_idle s.lanes && is_dynamic_idle s.dynamic

-- `status` is `none` where the call returns no object, and the loop's own `loaded` likewise;
-- `status_throws` where it throws. `cold_ends` is `none` without `coldActivate`.
pub record Observation : Type 0 where
  pub status_throws : Bool
  pub status : Option Current
  pub idle : Answer
  pub verified : Bool
  pub install_ends : Ending
  pub loaded_throws : Ending
  pub loaded : Option Current
  pub reload_ends : Ending
  pub cold_ends : Option Ending

-- The variables of the loop.
pub record State : Type 0 where
  pub staged : Bool
  pub applied : Bool
  pub unhealthy : ℕ
  pub cold_activated : Bool

pub data Finish : Type 0 where
  completed deferred unhealthy_collector error : Finish

pub data Round : Type 0 where
  next : State → List Action → Round
  ends : Finish → State → List Action → Round

abbrev pub is_target : Text → Option Current → Bool
is_target target none = false
is_target target (some c) = is_current target c

-- What the inner `catch` does with the end of `reload` or of the second `status`.
abbrev pub reloaded : Ending → State → List Action → Round
reloaded done s actions = next (record s { applied = true }) actions
reloaded retained s actions = next s actions
reloaded fault s actions = ends error s actions

abbrev pub load : Text → Observation → Ending → State → List Action → Round
load target o retained s actions = next s actions
load target o fault s actions = ends error s actions
load target o done s actions =
    if is_target target o.loaded
    then next (record s { applied = true }) actions
    else reloaded o.reload_ends s (actions ++ reload ∷ [])

-- From `if (!applied)` to the end of the round.
abbrev pub apply : Text → Observation → State → List Action → Round
apply target o s actions =
    if s.applied then next s actions else load target o o.loaded_throws s actions

abbrev pub installed : Text → Observation → Ending → State → Round
installed target o done s = apply target o (record s { staged = true }) (install ∷ [])
installed target o retained s = next (record s { staged = true }) (install ∷ [])
installed target o fault s = ends error s (install ∷ [])

abbrev pub stage : Text → Observation → State → Round
stage target o s = if s.staged then apply target o s [] else installed target o o.install_ends s

abbrev pub when_idle : Answer → State → Round → Round
when_idle yes s r = r
when_idle no s r = next s []
when_idle throws s r = ends error s []

abbrev pub warm : Ending → State → Round
warm done s = next (record s { cold_activated = true }) (activate ∷ [])
warm retained s = next s (activate ∷ [])
warm fault s = ends error s (activate ∷ [])

abbrev pub observe_target : Text → Observation → Current → State → Round
observe_target target o c s =
    if not (is_healthy target c)
    then (if leb 12 (s.unhealthy + 1)
        then ends unhealthy_collector (record s { unhealthy = s.unhealthy + 1 }) []
        else next (record s { unhealthy = s.unhealthy + 1 }) [])
    else if not o.verified
    then ends error s []
    else ends completed s []

-- The target runs: it is activated once where it asks for that, and watched.
abbrev pub activate_target : Text → Observation → Option Ending → Current → State → Round
activate_target target o none c s = observe_target target o c s
activate_target target o (some cold) c s =
    if c.activation_required && not s.cold_activated
    then when_idle o.idle s (warm cold s)
    else observe_target target o c s

abbrev pub observe : Text → Observation → Option Current → State → Round
observe target o none s = when_idle o.idle s (stage target o s)
observe target o (some c) s =
    if is_current target c
    then activate_target target o o.cold_ends c s
    else when_idle o.idle s (stage target o s)

unfoldable pub round : Text → Observation → State → Round
round target o s = if o.status_throws then ends error s [] else observe target o o.status s

pub record Applied : Type 0 where
  pub finish : Finish
  pub state : State
  pub actions : List Action

unfoldable pub apply_hot_update : Text → (ℕ → Observation) → ℕ → ℕ → State → Applied
unfolding round
apply_hot_update target world n zero s = record { finish = deferred; state = s; actions = [] }
apply_hot_update target world n (suc attempts) s = elim (round target (world n) s) [
  | next s' done_now ↦
      let rest = apply_hot_update target world (suc n) attempts s' in
      record rest { actions = done_now ++ rest.actions }
  | ends f s' done_now ↦ record { finish = f; state = s'; actions = done_now }
]
