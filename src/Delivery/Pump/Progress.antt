-- ===== src/Delivery/Pump/Progress.antt =====
-- src/delivery/upload-pump.js: one upload at a time, and no request is forgotten.
use sidewisp_plugin.Prelude.{◌≡◌, ◌⊎◌, true, false, List, [], ◌∷◌, arith, if◌then◌else◌}
use sidewisp_plugin.Delivery.Pump.{
  Pump, initial, failure, result, Event, request, stop, timer_fires, settles, step, run,
}

pub record IsLive (p : Pump) : Type 0 where
  pub single : p.uploads ≡ (if p.flight then 1 else 0)
  pub served : p.pending ≡ true → (p.stopped ≡ true) ⊎ ((p.timer ≡ true) ⊎ (p.flight ≡ true))
  pub exclusive : p.timer ≡ true → p.flight ≡ false
  pub quiet : p.stopped ≡ true → p.timer ≡ false

-- Each event keeps the pump live.
step-IsLive : (e : Event) (p : Pump) → IsLive p → IsLive (step e p)
unfolding step
step-IsLive request p h = ground arith
step-IsLive stop p h = ground arith
step-IsLive timer_fires p h = ground arith
step-IsLive (settles failure) p h = ground arith
step-IsLive (settles (result backpressure sent remaining)) p h = ground arith

run-IsLive : (es : List Event) (p : Pump) → IsLive p → IsLive (run es p)
unfolding run
run-IsLive [] p h = h
run-IsLive (e ∷ es) p h = run-IsLive es (step e p) (step-IsLive e p h)

-- Whatever happens to a pump, at most one upload runs, and only while the pump knows of it; a
-- request that is pending on a pump that was not stopped has a timer or an upload that it waits
-- for; a timer stands only while no upload runs; and a stopped pump has none.
pub pump-IsLive : (es : List Event) → IsLive (run es initial)
pump-IsLive es = run-IsLive es initial (ground arith)
