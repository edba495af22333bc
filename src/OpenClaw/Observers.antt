-- ===== src/OpenClaw/Observers.antt =====
-- src/adapters/openclaw/hooks.js: `registerOpenClawHooks`. The state of the closure, the calls of its hooks, the
-- correlation of an inbound message with its dispatch, and the reading of a message that a tool has sent.
pub mod Accounting
pub mod Correlating
pub mod Messages
use sidewisp_plugin.Prelude.{
  ℕ, zero, suc, ◌+◌, ◌-◌, String, Bool, true, false, not, ◌&&◌, ◌||◌, ◌==◌, Option, none, some,
  List, [], ◌∷◌, ◌++◌, leb, ltb, eqb, if◌then◌else◌, is_some, holds_text,
}
use sidewisp_plugin.Prelude.Codes.{Text}
use sidewisp_plugin.Prelude.Assoc.{evict, lookup, delete, modify}

-- The codes of the diagnostics
pub data Diagnostic : Type 0 where
  hook_backpressure hook_read_failed hook_emit_failed : Diagnostic
  of_normalizer : Diagnostic

-- The counters. `diagnosed` is the diagnostics that were reported, the last one first.
pub record Observers : Type 0 where
  pub pending : ℕ
  pub emitted : ℕ
  pub ignored : ℕ
  pub failed : ℕ
  pub observed : List (String × ℕ)
  pub diagnosed : List Diagnostic

abbrev pub nothing_observed : Observers
nothing_observed = record {
  pending = 0;
  emitted = 0;
  ignored = 0;
  failed = 0;
  observed = [];
  diagnosed = [];
}

-- What `makeInput` answers.
pub data Reading : Type 0 where
  throws nothing input : Reading

-- What the dispatch of an input comes to: the normalizer's event with the disposition that `emit` answers, a
-- diagnostic of the normalizer, neither, or an exception.
pub data Ending : Type 0 where
  buffered refused ignored_event emitted_event diagnosed_input neither failing : Ending

-- What `settle` is told.
pub data Settlement : Type 0 where
  settled_emitted settled_failed settled_otherwise : Settlement

pub data Happening : Type 0 where
  calls : (name : String) → Reading → Happening
  ends : Ending → Happening
  settles : Settlement → Happening

-- `diagnose`
abbrev pub diagnose : Diagnostic → Observers → Observers
diagnose d o = record o { diagnosed = d ∷ o.diagnosed }

abbrev pub fail : Observers → Observers
fail o = record o { failed = suc o.failed }

abbrev pub ignore : Observers → Observers
ignore o = record o { ignored = suc o.ignored }

-- `observed[name] = (observed[name] ?? 0) + 1`
unfoldable pub count : String → List (String × ℕ) → List (String × ℕ)
count name [] = (name, 1) ∷ []
count name ((k, n) ∷ entries) =
    if k == name then (k, suc n) ∷ entries else (k, n) ∷ count name entries

abbrev pub read : Reading → Observers → Observers
read throws o = diagnose hook_read_failed (fail o)
read nothing o = ignore o
read input o = record o { pending = suc o.pending }

-- A call of a hook, up to the start of its dispatch
unfoldable pub observe : (max_pending : ℕ) → String → Reading → Observers → Observers
unfolding count
observe max name r o =
    let seen = record o { observed = count name o.observed } in
    if leb max o.pending then diagnose hook_backpressure (fail seen) else read r seen

-- The end of a dispatch, without its `finally`
abbrev pub conclude : Ending → Observers → Observers
conclude buffered o = o
conclude refused o = fail o
conclude ignored_event o = ignore o
conclude emitted_event o = record o { emitted = suc o.emitted }
conclude diagnosed_input o = diagnose of_normalizer (ignore o)
conclude neither o = o
conclude failing o = diagnose hook_emit_failed (fail o)

-- `finally { pending -= 1; }`
unfoldable pub dispatched : Ending → Observers → Observers
dispatched e o = let o' = conclude e o in record o' { pending = o'.pending - 1 }

-- `settle`
unfoldable pub settle : Settlement → Observers → Observers
settle settled_emitted o = record o { emitted = suc o.emitted }
settle settled_failed o = fail o
settle settled_otherwise o = ignore o

-- What happens next. A dispatch can end only where one is under way.
unfoldable pub happen : (max_pending : ℕ) → Happening → Observers → Observers
unfolding observe dispatched settle
happen max (calls name r) o = observe max name r o
happen max (ends e) o = if ltb 0 o.pending then dispatched e o else o
happen max (settles s) o = settle s o

unfoldable pub happen_all : (max_pending : ℕ) → List Happening → Observers → Observers
unfolding happen
happen_all max [] o = o
happen_all max (h ∷ hs) o = happen_all max hs (happen max h o)

-- `correlation`, of an event in its context
pub record Ids : Type 0 where
  pub session_key : Option String
  pub session_id : Option String
  pub run_id : Option String
  pub tool_call_id : Option String
  pub message_id : Option String
  pub inbound_message_id : Option String
  pub outbound_message_id : Option String
  pub id : Option String

pub record Correlation : Type 0 where
  pub session_id : Option String
  pub turn_id : Option String
  pub tool_call_id : Option String
  pub message_id : Option String

-- `a ?? b`
abbrev pub or_id : Option String → Option String → Option String
or_id none b = b
or_id (some a) b = some a

abbrev pub correlation : (event context : Ids) → Correlation
correlation e c = record {
  session_id = or_id c.session_key (or_id c.session_id (or_id e.session_key e.session_id));
  turn_id = or_id c.run_id e.run_id;
  tool_call_id = or_id c.tool_call_id e.tool_call_id;
  message_id =
      or_id c.message_id (or_id e.message_id (or_id e.inbound_message_id e.outbound_message_id));
}

abbrev pub inbound_correlation : (event context : Ids) → Correlation
inbound_correlation e c =
    let v = correlation e c in record v { message_id = or_id v.message_id e.id }

-- `!value`, for an identifier
abbrev pub is_blank : Option String → Bool
is_blank none = true
is_blank (some s) = s == ""

abbrev pub same_session : String → String → Bool
same_session a b = a == b

abbrev pub one_at_least : ℕ → ℕ
one_at_least zero = 1
one_at_least (suc n) = suc n

abbrev pub remember :
    ℕ → Correlation → Option String → List (String × Correlation) → List (String × Correlation)
remember max v none runs = runs
remember max v (some s) runs = evict (one_at_least max) (delete same_session s runs) ++ (s, v) ∷ []

-- `rememberInboundRun`: the map afterwards.
unfoldable pub remember_inbound_run :
    (max_pending : ℕ) → Correlation → List (String × Correlation) → List (String × Correlation)
unfolding evict delete
remember_inbound_run max v runs =
    if is_blank v.session_id || is_blank v.message_id
    then runs
    else remember max v v.session_id runs

abbrev pub same_ids : Option String → Option String → Bool
same_ids (some a) (some b) = a == b
same_ids none none = true
same_ids _ _ = false

abbrev pub matched : Correlation → Correlation → Correlation
matched v m =
    if not (is_blank v.message_id) && not (same_ids v.message_id m.message_id)
    then v
    else record v {
      message_id = or_id v.message_id m.message_id;
      turn_id = or_id v.turn_id m.turn_id;
    }

abbrev pub correlate_with :
    Correlation
    → String
    → Option Correlation
    → List (String × Correlation)
    → Correlation × List (String × Correlation)
correlate_with v s none runs = (v, runs)
correlate_with v s (some m) runs = (matched v m, delete same_session s runs)

abbrev pub correlate_in :
    Correlation
    → Option String
    → List (String × Correlation)
    → Correlation × List (String × Correlation)
correlate_in v none runs = (v, runs)
correlate_in v (some s) runs =
    if s == "" then (v, runs) else correlate_with v s (lookup same_session s runs) runs

-- `correlateDispatch`: the correlation of the dispatch, and the map afterwards.
unfoldable pub correlate_dispatch :
    (event context : Ids) → List (String × Correlation) → Correlation × List (String × Correlation)
unfolding lookup delete
correlate_dispatch e c runs = let v = correlation e c in correlate_in v v.session_id runs
