-- ===== src/Update/Convergence/Bounds.antt =====
-- src/update/current-release.js: how often the loop installs, and when it may change the host.
use sidewisp_plugin.Prelude.{ℕ, suc, ◌+◌, ◌≤◌, ◌≡◌, true, false, some, List, [], ◌∷◌, ◌++◌, arith}
use sidewisp_plugin.Prelude.Codes.{Text}
use sidewisp_plugin.Update.Version.{is_newer_version}
use sidewisp_plugin.Update.Convergence.{
  Current, Observation, Action, install, reload, activate, State, Round, next, ends, yes,
}

unfoldable pub installs : List Action → ℕ
installs [] = 0
installs (install ∷ as_done) = suc (installs as_done)
installs (a ∷ as_done) = installs as_done

pub installs-append : (xs ys : List Action) → installs (xs ++ ys) ≡ installs xs + installs ys
unfolding installs
installs-append [] ys = omega arith
installs-append (install ∷ xs) ys = omega (arith, installs-append xs ys)
installs-append (reload ∷ xs) ys = installs-append xs ys
installs-append (activate ∷ xs) ys = installs-append xs ys

-- From a count of `n`, the actions add up to the journal's count, which is two at most.
abbrev CountsTo : ℕ → State → List Action → Type 0
CountsTo n s actions =
    (n + installs actions ≡ s.journal.install_count) × (s.journal.install_count ≤ 2)

abbrev RoundCounts : ℕ → Round → Type 0
RoundCounts n (next s actions) = CountsTo n s actions
RoundCounts n (ends f s actions) = CountsTo n s actions

-- What justifies the actions of a round.
pub record IsAdmitted (target : Text) (o : Observation) : Type 0 where
  pub current : Current
  pub status : o.status ≡ some current
  pub not_newer : is_newer_version current.version target ≡ false
  pub verified : o.verified ≡ true
  pub idle : o.idle ≡ yes

abbrev pub actions_of : Round → List Action
actions_of (next s actions) = actions
actions_of (ends f s actions) = actions

abbrev pub IsIdleRound : Text → Observation → List Action → Type 0
IsIdleRound target o [] = Unit
IsIdleRound target o (a ∷ actions) = IsAdmitted target o
