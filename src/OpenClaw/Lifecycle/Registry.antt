-- ===== src/OpenClaw/Lifecycle/Registry.antt =====
-- src/adapters/openclaw/hooks.js: the maps of the task lifecycle, from `rememberRetiredRuns` to
-- `currentTask`.
use sidewisp_plugin.Prelude.{
  ℕ, zero, suc, ◌+◌, String, Bool, true, false, not, ◌&&◌, ◌||◌, Option, none, some, List, [], ◌∷◌,
  ◌++◌, leb, ltb, if◌then◌else◌, filter, any, length, contains,
}
use sidewisp_plugin.Prelude.Assoc.{evict, lookup, delete, set, modify, drop_key}
use sidewisp_plugin.OpenClaw.Lifecycle.{
  Key, same_key, task_key, run_key, or_blank, Work, Inbound, Config, Lifecycle, is_task,
  same_string, same_id, suppress,
}

abbrev pub find : Key → Lifecycle → Option Work
find key l = lookup same_key key l.records

abbrev pub has_record : Key → Lifecycle → Bool
has_record key l = elim (find key l) [ none ↦ false | some w ↦ true ]

-- An assignment to the fields of a record.
abbrev pub assign : Key → (Work → Work) → Lifecycle → Lifecycle
assign key f l = record l { records = modify same_key key f l.records }

-- `map.get(id)` for an identifier that may be missing.
abbrev pub get_for : {A : Type 0} → Option String → List (String × A) → Option A
get_for none entries = none
get_for (some s) entries = lookup same_string s entries

abbrev pub delete_for : {A : Type 0} → Option String → List (String × A) → List (String × A)
delete_for none entries = entries
delete_for (some s) entries = delete same_string s entries

-- `retiredBindings.add(binding)`, the newest at the end and `maxRuns` of them at most.
abbrev pub add_retired : Config → Key → List Key → List Key
add_retired c key keys = evict c.max_runs (drop_key same_key key keys) ++ key ∷ []

abbrev pub add_retired_runs : Config → Option String → List String → List Key → List Key
add_retired_runs c session [] keys = keys
add_retired_runs c session (r ∷ runs) keys =
    add_retired_runs c session runs (add_retired c (run_key (or_blank session) r) keys)

-- `rememberRetiredRuns`
unfoldable pub remember_retired_runs : Config → Option String → List String → Lifecycle → Lifecycle
unfolding evict
remember_retired_runs c session runs l =
    if ltb c.max_runs 1
    then l
    else record l { retired_bindings = add_retired_runs c session runs l.retired_bindings }

abbrev pub with_outer : List String → Option String → List String
with_outer runs none = runs
with_outer runs (some r) = runs ++ r ∷ []

-- `retirePendingInbound`
unfoldable pub retire_inbound : Config → ℕ → String → Inbound → Lifecycle → Lifecycle
unfolding remember_retired_runs evict
retire_inbound c now session p l =
    let l' = remember_retired_runs c (some session) (with_outer p.run_ids p.outer_run) l in
    let key = task_key session p.inbound_message in
    if ltb c.max_runs 1 then l' else record l' {
      retired_inbound =
          evict c.max_runs (delete same_key key l'.retired_inbound) ++ (key, now + c.ttl_ms) ∷ [];
    }

-- The inbound message of the session is retired, and is pending no more.
abbrev pub drop_inbound : Config → ℕ → Option String → Option Inbound → Lifecycle → Lifecycle
drop_inbound c now (some session) (some p) l =
    let l' = retire_inbound c now session p l in
    record l' { inbound = delete same_string session l'.inbound }
drop_inbound c now _ _ l = l

abbrev pub points_to : Key → Option Key → Bool
points_to key none = false
points_to key (some k) = same_key k key

-- `clearCurrent`
abbrev pub clear_current : Key → Work → Lifecycle → Lifecycle
clear_current key w l =
    if is_task w && points_to key (get_for w.session_id l.current)
    then record l { current = delete_for w.session_id l.current }
    else l

abbrev pub drop_record : Key → Option Work → Lifecycle → Lifecycle
drop_record key none l = l
drop_record key (some w) l =
    let l' = clear_current key w (suppress w.pending l) in
    record l' {
      bindings = filter (λ b. not (same_key b.1 key)) l'.bindings;
      records = delete same_key key l'.records;
    }

-- `remove`
unfoldable pub remove : Key → Lifecycle → Lifecycle
unfolding lookup delete
remove key l = drop_record key (find key l) l

abbrev pub is_over : Work → Bool
is_over w = w.terminal && w.durable

abbrev pub prune_records : Config → ℕ → List (Key × Work) → Lifecycle → Lifecycle
prune_records c now [] l = l
prune_records c now ((key, w) ∷ entries) l =
    prune_records c now entries
      (if is_over w && leb (w.updated_at + c.ttl_ms) now then remove key l else l)

abbrev pub prune_inbound : Config → ℕ → List (String × Inbound) → Lifecycle → Lifecycle
prune_inbound c now [] l = l
prune_inbound c now ((session, p) ∷ entries) l =
    prune_inbound c now entries
      (if ltb now p.expires_at then l else drop_inbound c now (some session) (some p) l)

-- `prune`
unfoldable pub prune : Config → ℕ → Lifecycle → Lifecycle
unfolding remove retire_inbound
prune c now l =
    let l₁ = prune_records c now l.records l in
    let l₂ = prune_inbound c now l₁.inbound l₁ in
    record l₂ { retired_inbound = filter (λ e. ltb now e.1) l₂.retired_inbound }

-- The first record that is terminal and durable.
abbrev pub evictable : List (Key × Work) → Option Key
evictable [] = none
evictable ((key, w) ∷ entries) = if is_over w then some key else evictable entries

-- The loop of `track`, on fuel: each turn removes a record.
unfoldable pub make_room : Config → ℕ → Lifecycle → Lifecycle × Bool
unfolding remove
make_room c zero l = (l, ltb (length l.records) c.max_runs)
make_room c (suc n) l =
    if ltb (length l.records) c.max_runs
    then (l, true)
    else elim (evictable l.records) [ none ↦ (l, false) | some key ↦ make_room c n (remove key l) ]

abbrev pub add_record : Key → Work → Lifecycle × Bool → Lifecycle × Bool
add_record key w (l, false) = (l, false)
add_record key w (l, true) = (record l { records = set same_key key w l.records }, true)

-- `track`
unfoldable pub track : Config → Key → Work → Lifecycle → Lifecycle × Bool
unfolding make_room set
track c key w l = add_record key w (make_room c (length l.records) l)

-- `internalRunIds.push(runId)`, of which the last 64 stay.
abbrev pub push_run : String → List String → List String
push_run r runs =
    let pushed = runs ++ r ∷ [] in
    if ltb 64 (length pushed) then (elim pushed [ [] ↦ [] | _ ∷ rest ↦ rest ]) else pushed

abbrev pub note_run : String → Work → Work
note_run r w =
    if is_task w && not (same_id (some r) w.outer_run_id) && not (contains r w.internal_run_ids)
    then record w { internal_run_ids = push_run r w.internal_run_ids }
    else w

abbrev pub bind_key : Config → Key → Key → List (Key × Key) → List (Key × Key)
bind_key c binding key bindings =
    evict c.max_runs (delete same_key binding bindings) ++ (binding, key) ∷ []

-- `bind`, for the record of `key` in `session`
unfoldable pub bind : Config → Option String → Key → Option String → Lifecycle → Lifecycle
unfolding evict delete modify
bind c session key none l = l
bind c session key (some r) l =
    assign key (note_run r)
      (record l { bindings = bind_key c (run_key (or_blank session) r) key l.bindings })

unfoldable pub bind_all : Config → Option String → Key → List String → Lifecycle → Lifecycle
unfolding bind
bind_all c session key [] l = l
bind_all c session key (r ∷ runs) l = bind_all c session key runs (bind c session key (some r) l)

-- `rememberRetired`
abbrev pub remember_retired : Config → Work → Lifecycle → Lifecycle
remember_retired c w l =
    remember_retired_runs c w.session_id (with_outer w.internal_run_ids w.outer_run_id) l

abbrev pub drop_retired_runs : Option String → List String → List Key → List Key
drop_retired_runs session [] keys = keys
drop_retired_runs session (r ∷ runs) keys =
    drop_retired_runs session runs (drop_key same_key (run_key (or_blank session) r) keys)

-- `forgetRetired`
abbrev pub forget_retired : Work → Lifecycle → Lifecycle
forget_retired w l = record l {
  retired_bindings =
      drop_retired_runs w.session_id (with_outer w.internal_run_ids w.outer_run_id)
        l.retired_bindings;
}

-- What `taskForRun` and `currentTask` return: `[null, null]`, a retired identity, or a record.
pub data Found : Type 0 where
  nowhere retired : Found
  found : Key → Work → Found

abbrev pub owns_run : Option String → String → Work → Bool
owns_run session r w =
    is_task w
    && same_id w.session_id session
    && (same_id w.outer_run_id (some r) || contains r w.internal_run_ids)

abbrev pub first_owner : Option String → String → List (Key × Work) → Found
first_owner session r [] = nowhere
first_owner session r ((key, w) ∷ entries) =
    if owns_run session r w then found key w else first_owner session r entries

abbrev pub or_retired : Key → List Key → Found → Found
or_retired identity keys nowhere = if any (λ k. same_key k identity) keys then retired else nowhere
or_retired identity keys retired = retired
or_retired identity keys (found key w) = found key w

abbrev pub bound_task : Option Key → Lifecycle → Found
bound_task none l = nowhere
bound_task (some key) l = elim (find key l) [
  | none ↦ nowhere
  | some w ↦ if is_task w then found key w else nowhere
]

abbrev pub or_else : Found → Found → Found
or_else (found key w) other = found key w
or_else _ other = other

-- `taskForRun`
unfoldable pub task_for_run : Option String → Option String → Lifecycle → Found
unfolding lookup
task_for_run session none l = nowhere
task_for_run session (some r) l =
    let identity = run_key (or_blank session) r in
    or_else (bound_task (lookup same_key identity l.bindings) l)
      (or_retired identity l.retired_bindings (first_owner session r l.records))

abbrev pub live_task : Option Key → Lifecycle → Found
live_task none l = nowhere
live_task (some key) l = elim (find key l) [
  | none ↦ nowhere
  | some w ↦ if w.terminal then nowhere else found key w
]

-- `currentTask`
unfoldable pub current_task : Option String → Lifecycle → Found
unfolding lookup
current_task session l = live_task (get_for session l.current) l
