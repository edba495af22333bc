-- ===== src/Core/Heartbeat/Supervision.antt =====
-- src/core/heartbeat-supervisor.js: no two operations overlap, and a supervisor that was started
-- goes on checking until it is stopped or blocked.
use sidewisp_plugin.Prelude.{
  ℕ, zero, suc, ◌-◌, ◌*◌, ◌^◌, min, ◌≤◌, ◌≡◌, ◌⊎◌, Bool, true, false, Option, none, some, List, [],
  ◌∷◌, arith, is_some,
}
use native.Mathlib.Nat.{pow-suc}
use sidewisp_plugin.Core.Heartbeat.{
  Options, Timer, Supervisor, initial, fulfilled, rejected, Event, start, request, stop,
  timer_fires, deadline_fires, settles, step, run, is_blocked, retry_delay,
}

-- A timer is of this generation, and stands only while nothing is in flight and nothing is blocked.
abbrev pub IsTimely : ℕ → Option Timer → Option ℕ → Type 0
IsTimely generation none flight = Unit
IsTimely generation (some t) flight = (t.epoch ≡ generation) × (flight ≡ none)

-- The operations that run are the flight's, and an operation of a supervisor that is not stopped
-- is of its generation.
abbrev pub IsSingle : Bool → ℕ → Option ℕ → ℕ → Type 0
IsSingle is_stopped generation none operations = operations ≡ 0
IsSingle is_stopped generation (some epoch) operations =
    (operations ≡ 1) × ((is_stopped ≡ true) ⊎ (epoch ≡ generation))

pub record IsSound (s : Supervisor) : Type 0 where
  pub single : IsSingle s.is_stopped s.generation s.flight s.operations
  pub timely : IsTimely s.generation s.timer s.flight
  -- Started and not blocked: a check is in flight, or a timer will start the next.
  pub alive :
      (s.is_stopped ≡ true)
      ⊎ ((is_blocked s.phase ≡ true) ⊎ ((is_some s.flight ≡ true) ⊎ (is_some s.timer ≡ true)))
  pub idle_when_stopped : s.is_stopped ≡ true → s.timer ≡ none
  pub clean_when_healthy : s.healthy ≡ true → s.failures ≡ 0

step-IsSound : (o : Options) (e : Event) (s : Supervisor) → IsSound s → IsSound (step o e s)
unfolding step
step-IsSound o start s h = ground arith
step-IsSound o request s h = ground arith
step-IsSound o stop s h = ground arith
step-IsSound o timer_fires s h = ground arith
step-IsSound o deadline_fires s h = ground arith
step-IsSound o (settles fulfilled) s h = ground arith
step-IsSound o (settles (rejected true)) s h = ground arith
step-IsSound o (settles (rejected false)) s h = ground arith

run-IsSound : (o : Options) (es : List Event) (s : Supervisor) → IsSound s → IsSound (run o es s)
unfolding run
run-IsSound o [] s h = h
run-IsSound o (e ∷ es) s h = run-IsSound o es (step o e s) (step-IsSound o e s h)

-- After any events, at most one operation runs, and only while its tick is in flight; a timer that
-- stands is of the current generation; a supervisor that is neither stopped nor blocked has a
-- check in flight or a timer; a stopped one has no timer; and a healthy one has no failures.
pub supervisor-IsSound : (o : Options) (es : List Event) → IsSound (run o es initial)
supervisor-IsSound o es = run-IsSound o es initial (ground arith)

one_le_pow : (k : ℕ) → 1 ≤ 2 ^ k
one_le_pow zero = omega arith
one_le_pow (suc k) = rw pow-suc (omega (arith, one_le_pow k))

-- The wait before the next check is never longer than the interval, and while the retry time fits
-- into the interval a failure is never retried sooner than that time.
pub retry_delay_bounds :
    (o : Options) (failures : ℕ)
    → o.retry_ms ≤ o.interval_ms
    → (retry_delay o failures ≤ o.interval_ms) × (o.retry_ms ≤ retry_delay o failures)
unfolding retry_delay
retry_delay_bounds o failures h =
    let grows : o.retry_ms * 1 ≤ o.retry_ms * 2 ^ min (failures - 1) 4 =
      grind (arith, one_le_pow (min (failures - 1) 4)) in
    (omega arith, omega arith)
