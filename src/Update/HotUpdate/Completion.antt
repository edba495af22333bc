-- ===== src/Update/HotUpdate/Completion.antt =====
-- src/update/hot-update.js: what a completed update has seen.
use sidewisp_plugin.Prelude.{
  ℕ, zero, suc, ◌+◌, ◌≡◌, refl, Bool, true, false, not, ◌&&◌, Option, none, some, List, [], ◌∷◌,
  ◌++◌, arith, leb, if◌then◌else◌,
}
use sidewisp_plugin.Prelude.Codes.{Text}
use sidewisp_plugin.Update.Convergence.{
  Current, Ending, done, retained, fault, Answer, yes, no, throws, Action, install, reload,
  is_current, is_healthy,
}
use sidewisp_plugin.Update.HotUpdate.{
  Observation, State, Finish, completed, deferred, unhealthy_collector, error, Round, next, ends,
  is_target, reloaded, load, apply, installed, stage, when_idle, warm, observe_target,
  activate_target, observe, round, Applied, apply_hot_update,
}

-- The status of a round is the target, enabled, running and ready, and it was verified.
pub record IsWell (target : Text) (o : Observation) : Type 0 where
  pub current : Current
  pub status : o.status ≡ some current
  pub healthy : is_healthy target current ≡ true
  pub verified : o.verified ≡ true

abbrev Claims : Finish → Type 0 → Type 0
Claims completed P = P
Claims deferred P = Unit
Claims unhealthy_collector P = Unit
Claims error P = Unit

abbrev RoundClaims : Type 0 → Round → Type 0
RoundClaims P (next t actions) = Unit
RoundClaims P (ends f t actions) = Claims f P

module _ (target : Text) (o : Observation) where
  apply_claims :
      (s : State) (actions : List Action) → RoundClaims (IsWell target o) (apply target o s actions)
  apply_claims s actions = by_application s.applied
    where
      by_reload :
          (e : Ending) → RoundClaims (IsWell target o) (reloaded e s (actions ++ reload ∷ []))
      by_reload done = tt
      by_reload retained = tt
      by_reload fault = tt

      by_target :
          (b : Bool)
          → RoundClaims (IsWell target o) (
              if b
              then next (record s { applied = true }) actions
              else reloaded o.reload_ends s (actions ++ reload ∷ []))
      by_target true = tt
      by_target false = by_reload o.reload_ends

      by_load : (e : Ending) → RoundClaims (IsWell target o) (load target o e s actions)
      by_load retained = tt
      by_load fault = tt
      by_load done = by_target (is_target target o.loaded)

      by_application :
          (b : Bool)
          → RoundClaims
              (IsWell target o)
              (if b then next s actions else load target o o.loaded_throws s actions)
      by_application true = tt
      by_application false = by_load o.loaded_throws

  stage_claims : (s : State) → RoundClaims (IsWell target o) (stage target o s)
  stage_claims s = by_staging s.staged
    where
      by_install : (e : Ending) → RoundClaims (IsWell target o) (installed target o e s)
      by_install done = apply_claims (record s { staged = true }) (install ∷ [])
      by_install retained = tt
      by_install fault = tt

      by_staging :
          (b : Bool)
          → RoundClaims
              (IsWell target o)
              (if b then apply target o s [] else installed target o o.install_ends s)
      by_staging true = apply_claims s []
      by_staging false = by_install o.install_ends

  idle_claims :
      (a : Answer) (s : State) (r : Round)
      → RoundClaims (IsWell target o) r
      → RoundClaims (IsWell target o) (when_idle a s r)
  idle_claims yes s r h = h
  idle_claims no s r h = tt
  idle_claims throws s r h = tt

  warm_claims : (e : Ending) (s : State) → RoundClaims (IsWell target o) (warm e s)
  warm_claims done s = tt
  warm_claims retained s = tt
  warm_claims fault s = tt

  observe_target_claims :
      (c : Current) (s : State)
      → o.status ≡ some c
      → RoundClaims (IsWell target o) (observe_target target o c s)
  observe_target_claims c s q =
      by_tests (is_healthy target c) (leb 12 (s.unhealthy + 1)) o.verified
        (λ w v. record { current = c; status = q; healthy = w; verified = v })
    where
      by_tests :
          (well late right : Bool)
          → (well ≡ true → right ≡ true → IsWell target o)
          → RoundClaims (IsWell target o) (
              if not well
              then (if late
                  then ends unhealthy_collector (record s { unhealthy = s.unhealthy + 1 }) []
                  else next (record s { unhealthy = s.unhealthy + 1 }) [])
              else if not right
              then ends error s []
              else ends completed s [])
      by_tests false true right h = tt
      by_tests false false right h = tt
      by_tests true late false h = tt
      by_tests true late true h = h refl refl

  activate_claims :
      (e : Option Ending) (c : Current) (s : State)
      → o.status ≡ some c
      → RoundClaims (IsWell target o) (activate_target target o e c s)
  activate_claims none c s q = observe_target_claims c s q
  activate_claims (some cold) c s q = by_need (c.activation_required && not s.cold_activated)
    where
      by_need :
          (b : Bool)
          → RoundClaims
              (IsWell target o)
              (if b then when_idle o.idle s (warm cold s) else observe_target target o c s)
      by_need true = idle_claims o.idle s (warm cold s) (warm_claims cold s)
      by_need false = observe_target_claims c s q

  observe_claims :
      (m : Option Current) (s : State)
      → o.status ≡ m
      → RoundClaims (IsWell target o) (observe target o m s)
  observe_claims none s q = idle_claims o.idle s (stage target o s) (stage_claims s)
  observe_claims (some c) s q = by_version (is_current target c)
    where
      by_version :
          (b : Bool)
          → RoundClaims (IsWell target o) (
              if b
              then activate_target target o o.cold_ends c s
              else when_idle o.idle s (stage target o s))
      by_version true = activate_claims o.cold_ends c s q
      by_version false = idle_claims o.idle s (stage target o s) (stage_claims s)

  round_claims : (s : State) → RoundClaims (IsWell target o) (round target o s)
  unfolding round
  round_claims s = by_status o.status_throws
    where
      by_status :
          (b : Bool)
          → RoundClaims
              (IsWell target o)
              (if b then ends error s [] else observe target o o.status s)
      by_status true = tt
      by_status false = observe_claims o.status s refl

-- An update that ends as completed has seen, in some round, the target version enabled, running
-- and ready to connect, and the verification of that collector did not fail.
pub completed-IsWell :
    (target : Text) (world : ℕ → Observation) (n attempts : ℕ) (s : State)
    → (apply_hot_update target world n attempts s).finish ≡ completed
    → (m : ℕ) × IsWell target (world m)
unfolding apply_hot_update
completed-IsWell target world n zero s h = absurd (ground (arith, h))
completed-IsWell target world n (suc attempts) s h =
    after (round target (world n) s) (round_claims target (world n) s)
      (completed-IsWell target world (suc n) attempts) h
  where
    after :
        (r : Round)
        → RoundClaims (IsWell target (world n)) r
        → ((t : State)
            → (apply_hot_update target world (suc n) attempts t).finish ≡ completed
            → (m : ℕ) × IsWell target (world m))
        → let d : Applied = (elim r [
          | next s' done_now ↦
              let rest = apply_hot_update target world (suc n) attempts s' in
              record rest { actions = done_now ++ rest.actions }
          | ends f s' done_now ↦ record { finish = f; state = s'; actions = done_now }
        ]) in
          d.finish ≡ completed → (m : ℕ) × IsWell target (world m)
    after (next t actions) k ih e = ih t e
    after (ends completed t actions) k ih e = (n, k)
    after (ends deferred t actions) k ih e = absurd (ground (arith, e))
    after (ends unhealthy_collector t actions) k ih e = absurd (ground (arith, e))
    after (ends error t actions) k ih e = absurd (ground (arith, e))
