-- ===== src/OpenClaw/Lifecycle/Settlement.antt =====
-- src/adapters/openclaw/hooks.js: `attemptPending`, `schedulePending`, `deferTerminal`, `complete` and
-- `retire`, on the record of a key.
use sidewisp_plugin.Prelude.{
  ℕ, ◌+◌, ◌-◌, ◌*◌, ◌^◌, min, Bool, true, false, not, ◌&&◌, ◌||◌, Option, none, some, ◌∷◌, leb,
  if◌then◌else◌, is_some,
}
use sidewisp_plugin.Prelude.Assoc.{lookup, modify}
use sidewisp_plugin.OpenClaw.Lifecycle.{
  Event, Component, Status, agent_lifecycle_error, terminal_candidate, Key, Work, Config, Lifecycle,
  World, is_negative_type, is_completed_type, is_final_reply, is_lifecycle_end, is_warning,
  is_settled, same_turn, same_component, retarget, clear_pending, suppress,
}
use sidewisp_plugin.OpenClaw.Lifecycle.Registry.{find, assign, clear_current}

abbrev pub later : ℕ → ℕ → ℕ
later a b = if leb a b then b else a

abbrev pub timer_of : ℕ → Option Event → Option ℕ → Option ℕ
timer_of now none deadline = none
timer_of now (some e) none = none
timer_of now (some e) (some d) = some (later now d)

-- `schedulePending`
abbrev pub schedule_pending : ℕ → Work → Work
schedule_pending now w = record w { timer = timer_of now w.pending w.deadline }

-- The work once `onDeferred` has persisted its pending terminal.
abbrev pub persisted : Event → Work → Work
persisted e w = record (clear_pending w) {
  terminal = true;
  durable = true;
  terminal_event = some e;
}

-- The back-off once `onDeferred` has not; `attempts` is the number of attempts made.
unfoldable pub retry_at : Config → ℕ → ℕ → ℕ
retry_at c now attempts =
    now + min c.persist_retry_max_ms (c.persist_retry_base_ms * 2 ^ min 16 (attempts - 1))

abbrev pub unpersisted : Config → ℕ → Work → Work
unpersisted c now w =
    let attempts = w.persist_attempts + 1 in
    schedule_pending now (record w {
      awaiting_final = false;
      confirmed = true;
      terminal = false;
      durable = false;
      terminal_event = none;
      persist_attempts = attempts;
      deadline = some (retry_at c now attempts);
    })

abbrev pub attempt_event : Config → World → Key → Work → Option Event → Lifecycle → Lifecycle × Bool
attempt_event c world key w none l = (l, false)
attempt_event c world key w (some e) l =
    if w.terminal
    then (l, false)
    else if world.persists e
    then (let l' = assign key (persisted e) l in
        (clear_current key w (record l' { deferred = e ∷ l'.deferred }), true))
    else (assign key (unpersisted c world.now) l, false)

abbrev pub attempt_work : Config → World → Key → Option Work → Lifecycle → Lifecycle × Bool
attempt_work c world key none l = (l, false)
attempt_work c world key (some w) l = attempt_event c world key w w.pending l

-- `attemptPending`
unfoldable pub attempt_pending : Config → World → Key → Lifecycle → Lifecycle × Bool
unfolding lookup modify retry_at
attempt_pending c world key l = attempt_work c world key (find key l) l

abbrev pub is_candidate : Component → Status → Bool
is_candidate agent_lifecycle_error terminal_candidate = true
is_candidate agent_lifecycle_error _ = false
is_candidate _ _ = true

-- `isRetryableNegative`
abbrev pub is_retryable_negative : Event → Bool
is_retryable_negative e = is_negative_type e.type && is_candidate e.component e.status

-- What a pending terminal makes of a further one: it stays, it gives way at once, or it is replaced.
pub data Rivalry : Type 0 where
  keeps gives_way : Rivalry
  replaced : (deadline : Option ℕ) → Rivalry

abbrev pub rivalry_with : Option ℕ → Event → Event → Rivalry
rivalry_with deadline p e =
    let final = is_final_reply p.component in
    let warned = is_warning p.status in
    if final && not warned && is_completed_type e.type && not (is_final_reply e.component)
    then keeps
    else if not (is_completed_type p.type) && not (is_lifecycle_end e.component) && not final
    then keeps
    else if final && (is_negative_type p.type || warned)
    then (if is_negative_type p.type && not (is_negative_type e.type) then keeps else gives_way)
    else replaced (
        if same_turn p.type e.type && same_component p.component e.component
        then deadline
        else none)

abbrev pub rivalry_of : Work → Event → Option Event → Rivalry
rivalry_of w e none = replaced none
rivalry_of w e (some p) = rivalry_with w.deadline p e

unfoldable pub rivalry : Work → Event → Rivalry
rivalry w e = if w.confirmed then keeps else rivalry_of w e w.pending

-- `Object.freeze({ ...event, messagePreview: warningPreview })`, where there is such a preview
abbrev pub with_preview : Option Event → Event → Event
with_preview none e = e
with_preview (some p) e =
    if is_warning p.status && is_completed_type e.type && is_some p.preview
    then record e { preview = p.preview }
    else e

abbrev pub or_deadline : Option ℕ → Option ℕ → Option ℕ
or_deadline none d = d
or_deadline (some n) d = some n

-- The deadline of an event that replaces none of its kind.
abbrev pub grace_of : Config → ℕ → Work → Event → Option ℕ
grace_of c now w e =
    if is_retryable_negative e
    then some (now + c.terminal_retry_grace_ms)
    else if is_settled e.status || (is_final_reply e.component && (w.detached || w.question_wait))
    then some (now + c.final_reply_grace_ms)
    else none

abbrev pub deferring : Config → ℕ → Event → Option ℕ → Event → Work → Work
deferring c now e deadline copy w = schedule_pending now (record (clear_pending w) {
  pending = some copy;
  retryable = is_negative_type e.type;
  awaiting_final = is_completed_type e.type;
  deadline = or_deadline deadline (grace_of c now w e);
  updated_at = now;
})

abbrev pub giving_way : ℕ → Event → Work → Work
giving_way now copy w = record (clear_pending w) { pending = some copy; deadline = some now }

abbrev pub defer_by : Config → World → Key → Work → Event → Rivalry → Lifecycle → Lifecycle × Bool
defer_by c world key w e keeps l = (l, false)
defer_by c world key w e gives_way l =
    let copy = retarget l.copies (with_preview w.pending e) w in
    (
      (attempt_pending c world key
          (assign key (giving_way world.now copy) (suppress w.pending l))).0,
      true,
    )
defer_by c world key w e (replaced deadline) l =
    let copy = retarget l.copies e w in
    (assign key (deferring c world.now e deadline copy) (suppress w.pending l), true)

-- `deferTerminal`, on the record `w` of the key
unfoldable pub defer_terminal : Config → World → Key → Work → Event → Lifecycle → Lifecycle × Bool
unfolding attempt_pending rivalry modify
defer_terminal c world key w e l = defer_by c world key w e (rivalry w e) l

abbrev pub completing : ℕ → Event → Work → Work
completing now e w = record (clear_pending w) {
  terminal = true;
  durable = true;
  terminal_event = some e;
  updated_at = now;
}

-- `complete`, without the pending terminal that `rollback` would bring back
unfoldable pub complete : ℕ → Key → Work → Event → Lifecycle → Lifecycle
unfolding modify
complete now key w e l = clear_current key w (assign key (completing now e) l)

abbrev pub retiring : ℕ → Work → Work
retiring now w = record (clear_pending w) {
  terminal = true;
  durable = true;
  terminal_event = none;
  updated_at = now;
}

-- `retire`
unfoldable pub retire : ℕ → Key → Work → Lifecycle → Lifecycle
unfolding modify
retire now key w l = clear_current key w (assign key (retiring now) (suppress w.pending l))
