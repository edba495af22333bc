-- ===== src/OpenClaw/QuestionCalls.antt =====
-- src/adapters/openclaw/questions.js: the calls of the question observer and what it reads of the host, with `retire`,
-- `conflict` and `bind`. Texts are lists of character codes.
use sidewisp_plugin.Prelude.{
  ℕ, Bool, true, false, not, ◌&&◌, ◌||◌, String, Option, none, some, List, [], ◌∷◌, ◌++◌, ltb,
  if◌then◌else◌, any, all, map, length,
}
use sidewisp_plugin.Prelude.Codes.{Text, same_text}
use sidewisp_plugin.Prelude.Assoc.{lookup, delete, set, modify}
use sidewisp_plugin.Core.SafeText.{is_space}

-- A property that should be a text
pub data Field : Type 0 where
  missing malformed : Field
  present : Text → Field

-- What the registry has for a question; `expires_at` is none where it is no finite number.
pub record Question : Type 0 where
  pub own_id : Option Text
  pub session_key : Field
  pub is_answerable : Bool
  pub expires_at : Option ℕ

-- What the host's claim on a session says
pub record Claim : Type 0 where
  pub is_gateway : Bool
  pub has_promise : Bool
  pub claimed_id : Text
  pub claimed_session : Text

-- The registry is none where it is no `Map`.
pub record Host : Type 0 where
  pub registry : Option (Text → Option Question)
  pub claims : Text → Option Claim
  pub now : ℕ

-- A call of `ask_user`. `serial` is the object's identity; `result_seq` is none for `Infinity`.
pub record Call : Type 0 where
  pub serial : ℕ
  pub question_id : Text
  pub session : Option Text
  pub run : Text
  pub tool_call : Text
  pub waiting : Bool
  pub settled : Bool
  pub resolved : Bool
  pub captured : Bool
  pub result_seq : Option ℕ
  pub continuation_seq : Option ℕ

-- The correlation of an emission
pub record Wait : Type 0 where
  pub session : Option Text
  pub turn : Text
  pub question : Text

pub data Emission : Type 0 where
  wait_started wait_ended : Wait → Emission

-- The variables of the closure. `emitted` has the last emission first.
pub record State : Type 0 where
  pub calls : List (Text × Call)
  pub retired : List Text
  pub conflicted : List Text
  pub timer : Bool
  pub created : ℕ
  pub emitted : List Emission

abbrev pub initial : State
initial = record {
  calls = [];
  retired = [];
  conflicted = [];
  timer = false;
  created = 0;
  emitted = [];
}

pub record Event : Type 0 where
  pub seq : Option ℕ
  pub run_id : Option Text
  pub session_key : Field
  pub stream : String
  pub phase : String
  pub kind : String
  pub name : String
  pub tool_call_id : Option Text
  pub status : String
  pub has_failed : Bool

abbrev pub has_text : List Text → Text → Bool
has_text set id = any (same_text id) set

-- `set.delete(set.values().next().value)`, on a set that is too large
abbrev pub without_oldest : (max : ℕ) → List Text → List Text
without_oldest max [] = []
without_oldest max (id ∷ ids) = if ltb max (length (id ∷ ids)) then ids else id ∷ ids

unfoldable pub remember : (max : ℕ) → List Text → Text → List Text
remember max set id = without_oldest max (if has_text set id then set else set ++ id ∷ [])

abbrev pub has_calls : List (Text × Call) → Bool
has_calls [] = false
has_calls (c ∷ calls) = true

unfoldable pub retire : (max : ℕ) → Text → State → State
unfolding delete remember
retire max id s =
    let calls = delete same_text id s.calls in
    record s {
      calls = calls;
      retired = remember max s.retired id;
      timer = s.timer && has_calls calls;
    }

abbrev pub ids_of : List (Text × Call) → List Text
ids_of calls = map (λ e. e.0) calls

-- The turns of a loop over the calls: one that an earlier turn has deleted is not visited.
unfoldable pub each : (Text → Call → State → State) → List Text → State → State
unfolding lookup
each f [] s = s
each f (id ∷ ids) s =
    each f ids (elim (lookup same_text id s.calls) [ none ↦ s | some call ↦ f id call s ])

unfoldable pub conflict : (max : ℕ) → Text → State → State
unfolding remember retire each
conflict max run s =
    each (λ id call t. if same_text call.run run then retire max id t else t) (ids_of s.calls)
      (record s { conflicted = remember max s.conflicted run })

-- `typeof value === "string" && value.trim() ? value : undefined`
abbrev pub session_of : Field → Option Text
session_of (present s) = if all is_space s then none else some s
session_of _ = none

-- An assignment to a property of a call
abbrev pub assign : Text → (Call → Call) → State → State
assign id f s = record s { calls = modify same_text id f s.calls }

abbrev pub is_other : Text → Option Text → Bool
is_other key none = false
is_other key (some k) = not (same_text k key)

abbrev pub is_rival : Call → Text → State → Bool
is_rival call key s =
    is_other key call.session
    || any (λ e. same_text e.1.run call.run && is_other key e.1.session) s.calls

-- `bind`, of a session key that is present
unfoldable pub bind : (max : ℕ) → Text → Call → Text → State → State × Bool
unfolding modify conflict
bind max id call key s =
    if is_rival call key s
    then (conflict max call.run s, false)
    else (assign id (λ c. record c { session = some key }) s, true)

abbrev pub wait_of : Call → Wait
wait_of call = record { session = call.session; turn = call.run; question = call.question_id }

abbrev pub is_after : Option ℕ → Option ℕ → Bool
is_after (some n) (some m) = ltb m n
is_after _ _ = false

abbrev pub is_finished : Call → Bool
is_finished call =
    call.waiting && call.settled && call.resolved && is_after call.continuation_seq call.result_seq
