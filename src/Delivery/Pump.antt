-- ===== src/Delivery/Pump.antt =====
-- src/delivery/upload-pump.js: one step for each thing that can happen to the pump between two
-- turns of the event loop.
pub mod Progress
use sidewisp_plugin.Prelude.{
  ℕ, ◌+◌, ◌-◌, Bool, true, false, not, ◌&&◌, ◌||◌, Option, none, some, List, [], ◌∷◌, ltb,
  if◌then◌else◌,
}

-- The variables of the closure, each `null` a `false`; `uploads` counts the calls of `upload` that
-- have not settled.
pub record Pump : Type 0 where
  pub stopped : Bool
  pub pending : Bool
  pub timer : Bool
  pub flight : Bool
  pub uploads : ℕ

abbrev pub initial : Pump
initial = record { stopped = false; pending = false; timer = false; flight = false; uploads = 0 }

-- How an upload ends: with an error, or with a result of which the pump reads three fields.
pub data Ending : Type 0 where
  failure : Ending
  result : (backpressure : Bool) → (sent remaining : ℕ) → Ending

pub data Event : Type 0 where
  request stop timer_fires : Event
  settles : Ending → Event

unfoldable pub schedule : Pump → Pump
schedule p =
    if p.stopped || (p.timer || (p.flight || not p.pending)) then p else record p { timer = true }

-- `drain`, up to its `await`.
unfoldable pub drain : Pump → Pump
drain p =
    if p.stopped || (p.flight || not p.pending)
    then p
    else record p { pending = false; flight = true; uploads = p.uploads + 1 }

-- A backlog of which a part was sent goes on at once.
abbrev pub goes_on : Ending → Bool
goes_on failure = false
goes_on (result backpressure sent remaining) = backpressure && (ltb 0 sent && ltb 0 remaining)

unfoldable pub step : Event → Pump → Pump
unfolding schedule drain
step request p = if p.stopped then p else schedule (record p { pending = true })
step stop p = record p { stopped = true; pending = false; timer = false }
step timer_fires p = if p.timer then drain (record p { timer = false }) else p
step (settles ending) p =
    if p.flight
    then schedule (record p {
      pending = if goes_on ending then true else p.pending;
      flight = false;
      uploads = p.uploads - 1;
    })
    else p

unfoldable pub run : List Event → Pump → Pump
unfolding step
run [] p = p
run (e ∷ es) p = run es (step e p)
