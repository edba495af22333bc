-- ===== src/Core/Heartbeat.antt =====
-- src/core/heartbeat-supervisor.js: `createHeartbeatSupervisor`, one step for each thing that can
-- happen to it between two turns of the event loop.
pub mod Supervision
use sidewisp_plugin.Prelude.{
  ℕ, suc, ◌+◌, ◌-◌, ◌*◌, ◌^◌, min, Bool, true, false, not, ◌&&◌, ◌||◌, Option, none, some, List, [],
  ◌∷◌, is_some, leb, eqb, if◌then◌else◌,
}

pub data Phase : Type 0 where
  stopped checking timed_out ready blocked failed recovering : Phase

pub record Options : Type 0 where
  pub interval_ms : ℕ
  pub retry_ms : ℕ
  pub max_failures : ℕ

-- A timer with the epoch that its callback holds.
pub record Timer : Type 0 where
  pub delay : ℕ
  pub epoch : ℕ

-- The variables of the closure. `flight` has the epoch of the tick that waits for its operation;
-- `operations` counts the calls of `run` that have not settled.
pub record Supervisor : Type 0 where
  pub is_stopped : Bool
  pub timer : Option Timer
  pub flight : Option ℕ
  pub operations : ℕ
  pub failures : ℕ
  pub phase : Phase
  pub generation : ℕ
  pub healthy : Bool
  pub requested : Bool

abbrev pub initial : Supervisor
initial = record {
  is_stopped = true;
  timer = none;
  flight = none;
  operations = 0;
  failures = 0;
  phase = stopped;
  generation = 0;
  healthy = false;
  requested = false;
}

pub data Settled : Type 0 where
  fulfilled : Settled
  rejected : (permanent : Bool) → Settled

pub data Event : Type 0 where
  start request stop timer_fires deadline_fires : Event
  settles : Settled → Event

-- `stopped || epoch !== generation`
abbrev pub is_old : Supervisor → ℕ → Bool
is_old s epoch = s.is_stopped || not (eqb epoch s.generation)

unfoldable pub schedule : ℕ → ℕ → Supervisor → Supervisor
schedule ms epoch s =
    if is_old s epoch then s else record s { timer = some (record { delay = ms; epoch = epoch }) }

-- `tick`, up to its `await`.
unfoldable pub tick : ℕ → Supervisor → Supervisor
tick epoch s =
    if is_old s epoch || is_some s.flight
    then s
    else record s { phase = checking; flight = some epoch; operations = s.operations + 1 }

unfoldable pub retry_delay : Options → ℕ → ℕ
retry_delay o failures = min o.interval_ms (o.retry_ms * 2 ^ min (failures - 1) 4)

-- The `try` and the `catch` of `tick`.
unfoldable pub settle : Options → ℕ → Settled → Supervisor → Supervisor
unfolding schedule retry_delay
settle o epoch fulfilled s =
    if is_old s epoch
    then s
    else schedule o.interval_ms epoch (record s { failures = 0; healthy = true; phase = ready })
settle o epoch (rejected permanent) s =
    if is_old s epoch
    then s
    else (let n = s.failures + 1 in
        if permanent
        then record s { failures = n; healthy = false; phase = blocked }
        else schedule (retry_delay o n) epoch (record s {
          failures = n;
          healthy = false;
          phase = if leb o.max_failures n then failed else recovering;
        }))

abbrev pub is_blocked : Phase → Bool
is_blocked blocked = true
is_blocked _ = false

-- The `finally` of `tick`.
unfoldable pub finish : ℕ → Supervisor → Supervisor
unfolding schedule
finish epoch s =
    let s' = record s { flight = none; operations = s.operations - 1 } in
    if s.requested && not (is_old s epoch) && not (is_blocked s.phase)
    then schedule 0 epoch (record s' { requested = false; timer = none })
    else s'

abbrev pub fire : Option Timer → Supervisor → Supervisor
fire none s = s
fire (some t) s = tick t.epoch (record s { timer = none })

abbrev pub expire : Option ℕ → Supervisor → Supervisor
expire none s = s
expire (some epoch) s =
    if is_old s epoch then s else record s { phase = timed_out; healthy = false }

abbrev pub land : Options → Settled → Option ℕ → Supervisor → Supervisor
land o r none s = s
land o r (some epoch) s = finish epoch (settle o epoch r s)

unfoldable pub step : Options → Event → Supervisor → Supervisor
unfolding tick settle finish schedule
step o start s =
    if not s.is_stopped || is_some s.flight
    then s
    else tick (s.generation + 1) (record s {
      is_stopped = false;
      healthy = false;
      failures = 0;
      generation = s.generation + 1;
    })
step o request s =
    if s.is_stopped || is_blocked s.phase
    then s
    else if is_some s.flight
    then record s { requested = true }
    else schedule 0 s.generation (record s { timer = none })
step o stop s = record s {
  is_stopped = true;
  generation = s.generation + 1;
  phase = stopped;
  timer = none;
}
step o timer_fires s = fire s.timer s
step o deadline_fires s = expire s.flight s
step o (settles r) s = land o r s.flight s

unfoldable pub run : Options → List Event → Supervisor → Supervisor
unfolding step
run o [] s = s
run o (e ∷ es) s = run o es (step o e s)

unfoldable pub is_ready : Supervisor → Bool
is_ready s =
    not s.is_stopped && s.healthy && (elim s.phase [ ready ↦ true | checking ↦ true | _ ↦ false ])
