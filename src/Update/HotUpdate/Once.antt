-- ===== src/Update/HotUpdate/Once.antt =====
-- src/update/hot-update.js: the target is installed once, and completion is never claimed for a
-- collector that was not seen healthy.
use sidewisp_plugin.Prelude.{
  ℕ, zero, suc, ◌+◌, ◌≤◌, ◌≡◌, refl, Bool, true, false, not, ◌&&◌, Option, none, some, List, [],
  ◌∷◌, ◌++◌, arith, leb, if◌then◌else◌,
}
use sidewisp_plugin.Prelude.Codes.{Text}
use sidewisp_plugin.Update.Convergence.{
  Current, Ending, done, retained, fault, Answer, yes, no, throws, Action, install, reload,
  is_current, is_healthy,
}
use sidewisp_plugin.Update.Convergence.Bounds.{installs, installs-append}
use sidewisp_plugin.Update.HotUpdate.{
  Observation, State, completed, unhealthy_collector, error, Round, next, ends, is_target, reloaded,
  load, apply, installed, stage, when_idle, warm, observe_target, activate_target, observe, round,
  Applied, apply_hot_update,
}

-- The installs that are left.
abbrev pub budget : State → ℕ
budget s = if s.staged then 0 else 1

abbrev Spends : State → State → List Action → Type 0
Spends s t actions = installs actions + budget t ≤ budget s

abbrev RoundSpends : State → Round → Type 0
RoundSpends s (next t actions) = Spends s t actions
RoundSpends s (ends f t actions) = installs actions ≤ budget s

apply-Spends :
    (target : Text) (o : Observation) (s t : State) (actions : List Action)
    → Spends s t actions
    → RoundSpends s (apply target o t actions)
apply-Spends target o s t actions h = by_application t.applied
  where
    more : installs (actions ++ reload ∷ []) + budget t ≤ budget s
    more = unfold installs in omega (arith, h, installs-append actions (reload ∷ []))

    by_reload : (e : Ending) → RoundSpends s (reloaded e t (actions ++ reload ∷ []))
    by_reload done = more
    by_reload retained = more
    by_reload fault = omega (arith, more)

    by_target :
        (b : Bool)
        → RoundSpends s (
            if b
            then next (record t { applied = true }) actions
            else reloaded o.reload_ends t (actions ++ reload ∷ []))
    by_target true = h
    by_target false = by_reload o.reload_ends

    by_load : (e : Ending) → RoundSpends s (load target o e t actions)
    by_load retained = h
    by_load fault = omega (arith, h)
    by_load done = by_target (is_target target o.loaded)

    by_application :
        (b : Bool)
        → RoundSpends s (if b then next t actions else load target o o.loaded_throws t actions)
    by_application true = h
    by_application false = by_load o.loaded_throws

nothing_spent : (s : State) → Spends s s []
unfolding installs
nothing_spent s = omega arith

stage_spends : (target : Text) (o : Observation) (s : State) → RoundSpends s (stage target o s)
stage_spends target o s = by_staging s.staged refl
  where
    by_install : s.staged ≡ false → (e : Ending) → RoundSpends s (installed target o e s)
    by_install q done =
        apply-Spends target o s (record s { staged = true }) (install ∷ [])
          (unfold installs in ground (arith, q))
    by_install q retained = unfold installs in ground (arith, q)
    by_install q fault = unfold installs in ground (arith, q)

    by_staging :
        (b : Bool)
        → s.staged ≡ b
        → RoundSpends s (if b then apply target o s [] else installed target o o.install_ends s)
    by_staging true q = apply-Spends target o s s [] (nothing_spent s)
    by_staging false q = by_install q o.install_ends

idle_spends :
    (a : Answer) (s : State) (r : Round) → RoundSpends s r → RoundSpends s (when_idle a s r)
idle_spends yes s r h = h
idle_spends no s r h = nothing_spent s
idle_spends throws s r h = unfold installs in omega arith

warm_spends : (e : Ending) (s : State) → RoundSpends s (warm e s)
unfolding installs
warm_spends done s = omega arith
warm_spends retained s = omega arith
warm_spends fault s = omega arith

observe_target_spends :
    (target : Text) (o : Observation) (c : Current) (s : State)
    → RoundSpends s (observe_target target o c s)
unfolding installs
observe_target_spends target o c s =
    by_tests (is_healthy target c) (leb 12 (s.unhealthy + 1)) o.verified
  where
    by_tests :
        (well late right : Bool)
        → RoundSpends s (
            if not well
            then (if late
                then ends unhealthy_collector (record s { unhealthy = s.unhealthy + 1 }) []
                else next (record s { unhealthy = s.unhealthy + 1 }) [])
            else if not right
            then ends error s []
            else ends completed s [])
    by_tests false true right = omega arith
    by_tests false false right = omega arith
    by_tests true late false = omega arith
    by_tests true late true = omega arith

activate_spends :
    (target : Text) (o : Observation) (e : Option Ending) (c : Current) (s : State)
    → RoundSpends s (activate_target target o e c s)
activate_spends target o none c s = observe_target_spends target o c s
activate_spends target o (some cold) c s = by_need (c.activation_required && not s.cold_activated)
  where
    by_need :
        (b : Bool)
        → RoundSpends s
            (if b then when_idle o.idle s (warm cold s) else observe_target target o c s)
    by_need true = idle_spends o.idle s (warm cold s) (warm_spends cold s)
    by_need false = observe_target_spends target o c s

observe_spends :
    (target : Text) (o : Observation) (c : Option Current) (s : State)
    → RoundSpends s (observe target o c s)
observe_spends target o none s = idle_spends o.idle s (stage target o s) (stage_spends target o s)
observe_spends target o (some c) s = by_version (is_current target c)
  where
    by_version :
        (b : Bool)
        → RoundSpends s (
            if b
            then activate_target target o o.cold_ends c s
            else when_idle o.idle s (stage target o s))
    by_version true = activate_spends target o o.cold_ends c s
    by_version false = idle_spends o.idle s (stage target o s) (stage_spends target o s)

round_spends : (target : Text) (o : Observation) (s : State) → RoundSpends s (round target o s)
unfolding round
round_spends target o s = by_status o.status_throws
  where
    by_status :
        (b : Bool) → RoundSpends s (if b then ends error s [] else observe target o o.status s)
    by_status true = unfold installs in omega arith
    by_status false = observe_spends target o o.status s

-- Over any rounds, whatever the host does, the update installs the target once at most, and not at all
-- when it was staged before.
pub installs-apply_hot_update :
    (target : Text) (world : ℕ → Observation) (n attempts : ℕ) (s : State)
    → installs (apply_hot_update target world n attempts s).actions ≤ budget s
unfolding apply_hot_update
installs-apply_hot_update target world n zero s = unfold installs in omega arith
installs-apply_hot_update target world n (suc attempts) s =
    after (round target (world n) s) (round_spends target (world n) s)
      (installs-apply_hot_update target world (suc n) attempts)
  where
    after :
        (r : Round)
        → RoundSpends s r
        → ((t : State)
            → installs (apply_hot_update target world (suc n) attempts t).actions ≤ budget t)
        → let d : Applied = (elim r [
          | next s' done_now ↦
              let rest = apply_hot_update target world (suc n) attempts s' in
              record rest { actions = done_now ++ rest.actions }
          | ends f s' done_now ↦ record { finish = f; state = s'; actions = done_now }
        ]) in
          installs d.actions ≤ budget s
    after (next t actions) h ih = omega (
      arith,
      h,
      ih t,
      installs-append actions (apply_hot_update target world (suc n) attempts t).actions,
    )
    after (ends f t actions) h ih = h
