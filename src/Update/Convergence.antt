-- ===== src/Update/Convergence.antt =====
-- src/update/current-release.js: `convergeCurrentRelease`. What the functions that it is given do in
-- one round of its loop is a record of observations; what it does itself is a list of actions.
pub mod Bounds
use sidewisp_plugin.Prelude.{
  ℕ, zero, suc, ◌+◌, Bool, true, false, not, ◌&&◌, ◌||◌, Option, none, some, List, [], ◌∷◌, ◌++◌,
  leb, if◌then◌else◌,
}
use sidewisp_plugin.Prelude.Codes.{Text, same_text}
use sidewisp_plugin.Update.Version.{is_newer_version}

-- The fields of the collector's status that the loop reads.
pub record Current : Type 0 where
  pub version : Text
  pub enabled : Bool
  pub running : Bool
  pub connection_ready : Bool
  pub activation_required : Bool

-- How `install`, `reload` and `activate` end: done, refused because the host retains work, or
-- with another error.
pub data Ending : Type 0 where
  done retained fault : Ending

-- What a predicate answers, where it does not throw.
pub data Answer : Type 0 where
  yes no throws : Answer

-- One round of the world. `status` is `none` where the call throws; `recovered` is what
-- `recoverStopped` returns, `none` where there is no such function; `verified` is false where
-- `verify` throws.
pub record Observation : Type 0 where
  pub status : Option Current
  pub recovered : Option Answer
  pub verified : Bool
  pub idle : Answer
  pub install_ends : Ending
  pub reload_ends : Ending
  pub activate_ends : Ending

pub record Journal : Type 0 where
  pub mutated : Bool
  pub activated : Bool
  pub staged : Bool
  pub install_count : ℕ

pub data Action : Type 0 where
  install reload activate : Action

pub data Finish : Type 0 where
  completed deferred newer_installed unhealthy error : Finish

-- The loop's state between two rounds.
pub record State : Type 0 where
  pub journal : Journal
  pub bad : ℕ

-- What a round leads to: the next round, or the end.
pub data Round : Type 0 where
  next : State → List Action → Round
  ends : Finish → State → List Action → Round

abbrev pub is_current : Text → Current → Bool
is_current target c = same_text c.version target

abbrev pub is_healthy : Text → Current → Bool
is_healthy target c = is_current target c && c.enabled && c.running && c.connection_ready

-- `if(await recoverStopped()){journal.activated=true;…}`
abbrev pub recover : Option Answer → State → Round
recover none s = next s []
recover (some yes) s = next (record s { journal = record s.journal { activated = true } }) []
recover (some no) s = next s []
recover (some throws) s = ends error s []

-- The `catch` of a failed `status`.
abbrev pub lose_gateway : Observation → State → Round
lose_gateway o s = if s.journal.mutated then recover o.recovered s else next s []

abbrev pub activation : Ending → State → Round
activation done s =
    next (record s { journal = record s.journal { activated = true } }) (activate ∷ [])
activation retained s = next s (activate ∷ [])
activation fault s = ends error s (activate ∷ [])

abbrev pub staging : Ending → State → Round
staging fault s = ends error s (install ∷ [])
staging _ s = next (record s { journal = record s.journal { staged = true } }) (install ∷ [])

abbrev pub reloading : Ending → State → Round
reloading fault s = ends error s (reload ∷ [])
reloading _ s = next s (reload ∷ [])

-- The host is idle and the collector is not healthy.
abbrev pub advance : Text → Observation → Current → State → Round
advance target o c s =
    let j = s.journal in
    if is_current target c && c.activation_required
    then (if j.activated
        then next s []
        else activation o.activate_ends
            (record s { journal = record j { staged = true; mutated = true } }))
    else if not j.staged
    then (if leb 2 j.install_count
        then ends unhealthy s []
        else staging o.install_ends (record s {
          journal = record j { install_count = j.install_count + 1; mutated = true };
        }))
    else if not (is_current target c)
    then reloading o.reload_ends s
    else if leb 12 (s.bad + 1)
    then (if leb 2 j.install_count
        then ends unhealthy (record s { bad = 0 }) []
        else next (record s { bad = 0; journal = record j { staged = false; activated = false } })
            [])
    else next (record s { bad = s.bad + 1 }) []

abbrev pub admit : Text → Observation → Answer → Current → State → Round
admit target o yes c s = advance target o c s
admit target o no c s = next s []
admit target o throws c s = ends error s []

abbrev pub inspect : Text → Observation → Current → State → Round
inspect target o c s =
    if is_newer_version c.version target
    then ends newer_installed s []
    else if not o.verified
    then ends error s []
    else if is_healthy target c
    then ends completed s []
    else admit target o o.idle c s

abbrev pub observe : Text → Observation → Option Current → State → Round
observe target o none s = lose_gateway o s
observe target o (some c) s = inspect target o c s

unfoldable pub round : Text → Observation → State → Round
round target o s = observe target o o.status s

-- The end of the loop with the journal and all actions, the first one first.
pub record Converged : Type 0 where
  pub finish : Finish
  pub state : State
  pub actions : List Action

unfoldable pub converge : Text → (ℕ → Observation) → ℕ → ℕ → State → Converged
unfolding round
converge target world n zero s = record { finish = deferred; state = s; actions = [] }
converge target world n (suc attempts) s = elim (round target (world n) s) [
  | next s' done_now ↦
      let rest = converge target world (suc n) attempts s' in
      record rest { actions = done_now ++ rest.actions }
  | ends f s' done_now ↦ record { finish = f; state = s'; actions = done_now }
]
