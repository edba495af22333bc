-- ===== src/OpenClaw/Questions.antt =====
-- src/adapters/openclaw/questions.js: the observer of the questions that a run asks its user. A wait starts when the
-- host's registry says that the question is answerable, and ends with the next execution after the answer. Texts are
-- lists of character codes, and a missing text of an event's data is the empty string. The preview is left out.
pub mod Soundness
pub mod Scanning
pub mod Pairing
use sidewisp_plugin.Prelude.{
  ℕ, suc, Bool, true, false, not, ◌&&◌, ◌||◌, ◌==◌, String, Option, none, some, List, [], ◌∷◌, ◌++◌,
  leb, ltb, eqb, min, if◌then◌else◌, is_some, any, all, map, length,
}
use sidewisp_plugin.Prelude.Codes.{Text, codes, same_text}
use sidewisp_plugin.Prelude.Assoc.{lookup, delete, set, modify}
use sidewisp_plugin.Core.SafeText.{is_space}
use sidewisp_plugin.OpenClaw.QuestionCalls.{
  Host, Call, State, Event, has_text, has_calls, retire, ids_of, each, conflict, session_of, assign,
  bind, is_after, missing, malformed, present,
}
use sidewisp_plugin.OpenClaw.QuestionScan.{finish, scan, bind_if}

-- The first loop of `observe`, and whether it ends without a conflict
unfoldable pub bind_run : (max : ℕ) → (run key : Text) → List Text → State → State × Bool
unfolding lookup bind bind_if
bind_run max run key [] s = (s, true)
bind_run max run key (id ∷ ids) s =
    let bound = bind_if max run key id s (lookup same_text id s.calls) in
    let rest = bind_run max run key ids bound.0 in if bound.1 then rest else bound

abbrev pub is_terminal : Event → Bool
is_terminal e = e.stream == "lifecycle" && (e.phase == "end" || e.phase == "error")

abbrev pub is_continuation : Event → Bool
is_continuation e =
    e.stream == "assistant"
    || e.stream == "item" && e.kind == "preamble" && e.phase == "end"
    || e.stream == "tool" && e.phase == "start"

abbrev pub is_of_call : Event → Call → Bool
is_of_call e call = elim e.tool_call_id [ none ↦ false | some id ↦ same_text id call.tool_call ]

abbrev pub is_new_execution : Event → ℕ → Call → Bool
is_new_execution e seq call =
    is_after (some seq) call.result_seq && not (e.stream == "tool" && is_of_call e call)

-- The second loop of `observe`
unfoldable pub advance : (max : ℕ) → Event → ℕ → Text → Text → Call → State → State
unfolding retire modify finish
advance max e seq run id call s =
    if not (same_text call.run run)
    then s
    else if not (is_some call.session)
    then (if is_terminal e then retire max id s else s)
    else if call.settled && is_continuation e && is_new_execution e seq call
    then finish max id (assign id (λ c. record c { continuation_seq = some seq }) s)
    else if is_terminal e
    then retire max id s
    else s

-- `key(event)`, whose parts a NUL separates
abbrev pub key_of : Text → Option Text → Text
key_of run none = run ++ 0 ∷ codes "undefined"
key_of run (some call) = run ++ 0 ∷ call

abbrev pub earlier : Option ℕ → ℕ → Option ℕ
earlier none seq = some seq
earlier (some n) seq = some (min n seq)

abbrev pub is_resolution : String → Bool
is_resolution status = status == "answered" || status == "no_answer"

abbrev pub new_call : (question_of : Text → Text) → ℕ → Option Text → (run call : Text) → Call
new_call question_of serial session run call = record {
  serial = serial;
  question_id = question_of (key_of run (some call));
  session = session;
  run = run;
  tool_call = call;
  waiting = false;
  settled = false;
  resolved = false;
  captured = false;
  result_seq = none;
  continuation_seq = none;
}

unfoldable pub is_new : (max : ℕ) → Text → State → Bool
unfolding lookup
is_new max id s =
    not (is_some (lookup same_text id s.calls))
    && not (has_text s.retired id)
    && ltb (length s.calls) max

unfoldable pub start_call : (max : ℕ) → Host → Text → Call → State → State
unfolding set scan
start_call max h id call s =
    let scanned =
      scan max h (record s { calls = set same_text id call s.calls; created = suc s.created }) in
    record scanned { timer = true }

unfoldable pub end_call : (max : ℕ) → Event → ℕ → Text → State → State
unfolding lookup retire modify
end_call max e seq id s =
    if not (is_some (lookup same_text id s.calls))
    then s
    else if e.has_failed
    then retire max id s
    else assign id
        (λ c. record c {
          settled = true;
          result_seq = earlier c.result_seq seq;
          resolved = c.resolved || is_resolution e.status;
        })
        s

-- What `observe` does with an event of the tool
unfoldable pub ask :
    (question_of : Text → Text) → (max : ℕ) → Host → Event → ℕ → Text → State → State
unfolding scan end_call is_new start_call
ask question_of max h e seq run s =
    let id = key_of run e.tool_call_id in
    let ended = if e.phase == "result" then end_call max e seq id s else s in
    if not (e.stream == "tool" && e.name == "ask_user") then s else elim e.tool_call_id [
      | none ↦ ended
      | some call ↦
          if e.phase == "start" && is_new max id s
          then start_call max h id
              (new_call question_of s.created (session_of e.session_key) run call) s
          else ended
    ]

unfoldable pub observe_bound :
    (question_of : Text → Text) → (max : ℕ) → Host → Event → ℕ → Text → State → State
unfolding scan each advance ask
observe_bound question_of max h e seq run s =
    let scanned = scan max h s in
    let advanced = each (advance max e seq run) (ids_of scanned.calls) scanned in
    let asked = ask question_of max h e seq run advanced in
    if has_text scanned.conflicted run
    then scanned
    else record asked { timer = asked.timer && has_calls asked.calls }

unfoldable pub observe_run :
    (question_of : Text → Text) → (max : ℕ) → Host → Event → ℕ → Text → State → State
unfolding bind_run conflict observe_bound
observe_run question_of max h e seq run s = elim e.session_key [
  | missing ↦ observe_bound question_of max h e seq run s
  | malformed ↦ conflict max run s
  | present key ↦
      let bound = bind_run max run key (ids_of s.calls) s in
      if all is_space key
      then conflict max run s
      else if bound.1
      then observe_bound question_of max h e seq run bound.0
      else bound.0
]

-- `observe`; `question_of` is the digest of a call's key
unfoldable pub observe : (question_of : Text → Text) → (max : ℕ) → Host → Event → State → State
unfolding scan ask observe_run
observe question_of max h e s = elim e.seq [
  | none ↦ s
  | some seq ↦ elim e.run_id [
    | none ↦ s
    | some run ↦
        if leb 1 seq && not (all is_space run) && not (has_text s.conflicted run)
        then observe_run question_of max h e seq run s
        else s
  ]
]

-- The promise of an answer is settled, with its status. The call that captured it may be gone.
unfoldable pub answer : (max : ℕ) → Text → (serial : ℕ) → String → State → State
unfolding lookup modify finish
answer max id serial status s = elim (lookup same_text id s.calls) [
  | none ↦ s
  | some call ↦
      if call.captured
        && eqb call.serial serial
        && (status == "answered" || status == "expired" || status == "cancelled")
      then finish max id (assign id (λ c. record c { resolved = true }) s)
      else s
]

-- `dispose`
abbrev pub dispose : State → State
dispose s = record s { calls = []; retired = []; conflicted = []; timer = false }

pub data Happening : Type 0 where
  observes : Host → Event → Happening
  scans : Host → Happening
  answers : (id : Text) → (serial : ℕ) → (status : String) → Happening
  disposes : Happening

unfoldable pub happen : (question_of : Text → Text) → (max : ℕ) → Happening → State → State
unfolding observe scan answer
happen question_of max (observes h e) s = observe question_of max h e s
happen question_of max (scans h) s = scan max h s
happen question_of max (answers id serial status) s = answer max id serial status s
happen question_of max disposes s = dispose s

-- The life of an observer
unfoldable pub happen_all : (question_of : Text → Text) → (max : ℕ) → List Happening → State → State
unfolding happen
happen_all question_of max [] s = s
happen_all question_of max (h ∷ hs) s = happen_all question_of max hs (happen question_of max h s)
