-- ===== src/OpenClaw/Lifecycle/Admission.antt =====
-- src/adapters/openclaw/hooks.js: the branches of `processDetailed` for an inbound message, which is
-- observed and then dispatched, and `restorePrevious`.
use sidewisp_plugin.Prelude.{
  ℕ, ◌+◌, String, Bool, true, false, not, ◌||◌, ◌==◌, Option, none, some, List, [], ◌∷◌, ◌++◌, leb,
  ltb, if◌then◌else◌, is_some, any,
}
use sidewisp_plugin.Prelude.Assoc.{evict, lookup, delete, set, modify}
use sidewisp_plugin.OpenClaw.Lifecycle.{
  Event, Key, same_key, task_key, Work, task, Inbound, Config, Lifecycle, World, Disposition,
  accepted, coalesced, same_string, is_settled, is_continuation,
}
use sidewisp_plugin.OpenClaw.Lifecycle.Registry.{
  find, has_record, assign, drop_inbound, clear_current, remove, track, bind, bind_all,
  remember_retired, forget_retired,
}
use sidewisp_plugin.OpenClaw.Lifecycle.Settlement.{attempt_pending, retire}

abbrev pub is_retired_message : Key → Lifecycle → Bool
is_retired_message key l = any (λ e. same_key e.0 key) l.retired_inbound

-- The pending inbound message, where it is the one of that identifier.
abbrev pub of_message : Option String → Option Inbound → Option Inbound
of_message none p = none
of_message m none = none
of_message (some m) (some p) = if m == p.inbound_message then some p else none

abbrev pub put_inbound : Config → ℕ → Event → String → String → Lifecycle → Lifecycle
put_inbound c now e s m l =
    let rest = delete same_string s l.inbound in
    if ltb c.max_runs 1 then record l { inbound = rest } else record l {
      inbound =
          evict c.max_runs rest
          ++ (
            s,
            record {
              inbound_message = m;
              outer_run = e.turn_id;
              run_ids = [];
              expires_at = now + c.ttl_ms;
            },
          )
            ∷ [];
    }

abbrev pub observe_ids : Config → ℕ → Event → Option String → Option String → Lifecycle → Lifecycle
observe_ids c now e none m l = l
observe_ids c now e (some s) none l = l
observe_ids c now e (some s) (some m) l =
    let key = task_key s m in
    if has_record key l
      || is_retired_message key l
      || is_some (of_message (some m) (lookup same_string s l.inbound))
    then l
    else put_inbound c now e s m l

-- The branch of `message_observation`, whose event is accepted in every case.
unfoldable pub observe : Config → ℕ → Event → Lifecycle → Lifecycle
unfolding lookup evict delete
observe c now e l = observe_ids c now e e.session_id e.message_id l

-- `previousOnRollback`: the task that the new one displaced, or a snapshot of the one it removed.
pub data Displaced : Type 0 where
  nobody : Displaced
  kept : Key → Displaced
  snapshot : Key → Work → Displaced

abbrev pub detach : Work → Work
detach w = record w { detached = true }

abbrev pub reattach : Work → Work
reattach w = record w { detached = false }

abbrev pub set_current : Option String → Key → Lifecycle → Lifecycle
set_current none key l = l
set_current (some s) key l = record l { current = set same_string s key l.current }

abbrev pub reinstate : Key → Work → Lifecycle → Lifecycle
reinstate key w l = if w.terminal then l else set_current w.session_id key (assign key reattach l)

abbrev pub reinstate_found : Key → Option Work → Lifecycle → Lifecycle
reinstate_found key none l = l
reinstate_found key (some w) l = reinstate key w l

abbrev pub bind_work : Config → Key → Work → List String → Lifecycle → Lifecycle
bind_work c key w runs l =
    bind_all c w.session_id key runs (bind c w.session_id key w.outer_run_id l)

abbrev pub reinstate_tracked : Config → Key → Work → Lifecycle × Bool → Lifecycle
reinstate_tracked c key w (l, false) = l
reinstate_tracked c key w (l, true) =
    reinstate key w (bind_work c key w w.internal_run_ids (forget_retired w l))

-- `restorePrevious`
unfoldable pub restore_previous : Config → Displaced → Lifecycle → Lifecycle
unfolding lookup modify set track bind bind_all
restore_previous c nobody l = l
restore_previous c (kept key) l = reinstate_found key (find key l) l
restore_previous c (snapshot key w) l =
    if has_record key l
    then reinstate_found key (find key l) l
    else reinstate_tracked c key w (track c key w l)

-- Whether the pending terminal of the displaced task is persisted now.
abbrev pub may_attempt : ℕ → Work → Event → Bool
may_attempt now w p =
    not w.awaiting_final
    || (elim w.deadline [ none ↦ true | some d ↦ leb d now ])
    || is_settled p.status

abbrev pub set_aside : Key → Work → Lifecycle → Lifecycle × Displaced
set_aside key w l = (clear_current key w (assign key detach l), kept key)

abbrev pub after_attempt : Config → Key → Work → Lifecycle × Bool → Lifecycle × Displaced
after_attempt c key w (l, true) = (remove key (remember_retired c w l), nobody)
after_attempt c key w (l, false) = set_aside key w l

abbrev pub displace_by :
    Config → World → Key → Work → Option Event → Lifecycle → Lifecycle × Displaced
displace_by c world key w none l =
    if w.started
    then set_aside key w l
    else (remove key (remember_retired c w (retire world.now key w l)), snapshot key w)
displace_by c world key w (some p) l =
    if may_attempt world.now w p
    then after_attempt c key w (attempt_pending c world key l)
    else set_aside key w l

abbrev pub unless_continuation : Option Event → Option Event
unless_continuation none = none
unless_continuation (some p) = if is_continuation p.status then none else some p

abbrev pub displace_found : Config → World → Key → Option Work → Lifecycle → Lifecycle × Displaced
displace_found c world key none l = (l, nobody)
displace_found c world key (some w) l =
    if w.terminal then (l, nobody) else displace_by c world key w (unless_continuation w.pending) l

-- What the new task does with the session's current one.
unfoldable pub displace : Config → World → Option Key → Lifecycle → Lifecycle × Displaced
unfolding lookup modify remove attempt_pending retire
displace c world none l = (l, nobody)
displace c world (some key) l = displace_found c world key (find key l) l

abbrev pub new_task : ℕ → String → String → Option String → List String → Work
new_task now s m outer runs = record {
  kind = task;
  session_id = some s;
  message_id = some m;
  turn_id = some m;
  outer_run_id = outer;
  internal_run_ids = runs;
  started = false;
  terminal = false;
  durable = false;
  pending = none;
  retryable = false;
  awaiting_final = false;
  confirmed = false;
  persist_attempts = 0;
  deadline = none;
  timer = none;
  start_event = none;
  terminal_event = none;
  resume_pending = false;
  resume_event = none;
  detached = false;
  question_wait = false;
  updated_at = now;
}

abbrev pub give_back : String → Option Inbound → Lifecycle → Lifecycle
give_back s none l = l
give_back s (some p) l = elim (lookup same_string s l.inbound) [
  | none ↦ record l { inbound = l.inbound ++ (s, p) ∷ [] }
  | some _ ↦ l
]

abbrev pub runs_of : Option Inbound → List String
runs_of none = []
runs_of (some p) = p.run_ids

abbrev pub admit_tracked :
    Config
    → Event
    → String
    → Key
    → Work
    → Option Inbound
    → Displaced
    → Lifecycle × Bool
    → Lifecycle × Disposition
admit_tracked c e s key w own d (l, false) = (restore_previous c d (give_back s own l), coalesced)
admit_tracked c e s key w own d (l, true) =
    (bind_work c key w w.internal_run_ids (set_current (some s) key l), accepted e)

abbrev pub take_inbound : String → Option Inbound → Lifecycle → Lifecycle
take_inbound s none l = l
take_inbound s (some p) l = record l { inbound = delete same_string s l.inbound }

-- A message that no task has yet: its task displaces the current one, or is refused for want of room.
unfoldable pub admit :
    Config → World → Event → String → String → Option Inbound → Lifecycle → Lifecycle × Disposition
unfolding lookup delete displace restore_previous track bind bind_all set
admit c world e s m own l =
    let key = task_key s m in
    let w = new_task world.now s m e.turn_id (runs_of own) in
    let displaced = displace c world (lookup same_string s l.current) (take_inbound s own l) in
    admit_tracked c e s key w own displaced.1 (track c key w displaced.0)

abbrev pub dispatch_ids :
    Config → World → Event → Option String → Option String → Lifecycle → Lifecycle × Disposition
dispatch_ids c world e none m l = (l, coalesced)
dispatch_ids c world e (some s) none l = (l, coalesced)
dispatch_ids c world e (some s) (some m) l =
    let own = of_message (some m) (lookup same_string s l.inbound) in
    let key = task_key s m in
    if has_record key l || is_retired_message key l
    then (drop_inbound c world.now (some s) own l, coalesced)
    else admit c world e s m own l

-- The branch of `before_dispatch`
unfoldable pub dispatch : Config → World → Event → Lifecycle → Lifecycle × Disposition
unfolding lookup admit delete
dispatch c world e l = dispatch_ids c world e e.session_id e.message_id l
