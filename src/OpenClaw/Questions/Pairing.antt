-- ===== src/OpenClaw/Questions/Pairing.antt =====
-- src/adapters/openclaw/questions.js: every wait that ends has started before, with the same correlation.
use sidewisp_plugin.Prelude.{
  ℕ, true, not, ◌&&◌, ◌||◌, String, Option, none, some, List, [], ◌∷◌, if◌then◌else◌, is_some, all,
  leb, eqb, ◌==◌, arith,
}
use sidewisp_plugin.Prelude.Codes.{Text, same_text}
use sidewisp_plugin.Prelude.Assoc.{lookup, All-set}
use sidewisp_plugin.Core.SafeText.{is_space}
use sidewisp_plugin.OpenClaw.Questions.{
  key_of, is_new, bind_run, advance, end_call, earlier, is_resolution, ask, start_call, new_call,
  observe, observe_run, observe_bound, answer, Happening, observes, scans, answers, disposes,
  happen, happen_all,
}
use sidewisp_plugin.OpenClaw.QuestionCalls.{
  Field, missing, malformed, present, Host, State, initial, Event, retire, conflict, assign,
  has_text, session_of, ids_of,
}
use sidewisp_plugin.OpenClaw.QuestionScan.{finish, scan}
use sidewisp_plugin.OpenClaw.Questions.Soundness.{
  IsPaired, IsBacked, IsSound, assign-IsSound, retire-IsSound, if-IsSound, turn-IsSound,
  each-IsSound, conflict-IsSound, finish-IsSound, advance-KeepsSound,
}
use sidewisp_plugin.OpenClaw.Questions.Scanning.{scan-IsSound, bind_run-IsSound}

end_call-IsSound :
    (max : ℕ) (e : Event) (seq : ℕ) (id : Text) (s : State)
    → IsSound s
    → IsSound (end_call max e seq id s)
unfolding end_call
end_call-IsSound max e seq id s h =
    if-IsSound (not (is_some (lookup same_text id s.calls))) s _ (λ k. h)
      (λ k.
        if-IsSound e.has_failed (retire max id s) _ (λ k. retire-IsSound max id s h)
          (λ k.
            assign-IsSound id
              (λ c. record c {
                settled = true;
                result_seq = earlier c.result_seq seq;
                resolved = c.resolved || is_resolution e.status;
              })
              s (λ c m b. b) h))

start_call-IsSound :
    (max : ℕ) (host : Host) (id : Text) (question_of : Text → Text) (serial : ℕ)
    (session : Option Text) (run call : Text) (s : State)
    → IsSound s
    → IsSound (start_call max host id (new_call question_of serial session run call) s)
unfolding start_call
start_call-IsSound max host id question_of serial session run call s h = scan-IsSound max host _ (
  All-set same_text (IsBacked s.emitted) id (new_call question_of serial session run call) s.calls
      (λ w. ground arith) h.0,
  h.1,
)

ask-IsSound :
    (question_of : Text → Text) (max : ℕ) (host : Host) (e : Event) (seq : ℕ) (run : Text)
    (s : State)
    → IsSound s
    → IsSound (ask question_of max host e seq run s)
unfolding ask
ask-IsSound question_of max host e seq run s h =
    if-IsSound (not (e.stream == "tool" && e.name == "ask_user")) s _ (λ k. h)
      (λ k. by_id (key_of run e.tool_call_id) e.tool_call_id)
  where
    ended : Text → State
    ended id = if e.phase == "result" then end_call max e seq id s else s

    ended-IsSound : (id : Text) → IsSound (ended id)
    ended-IsSound id =
        if-IsSound (e.phase == "result") (end_call max e seq id s) s
          (λ k. end_call-IsSound max e seq id s h) (λ k. h)

    by_id :
        (id : Text) (o : Option Text)
        → IsSound (elim o [
          | none ↦ ended id
          | some call ↦
              if e.phase == "start" && is_new max id s
              then start_call max host id
                  (new_call question_of s.created (session_of e.session_key) run call)
                  s
              else ended id
        ])
    by_id id none = ended-IsSound id
    by_id id (some call) =
        if-IsSound (e.phase == "start" && is_new max id s)
          (start_call max host id
            (new_call question_of s.created (session_of e.session_key) run call) s)
          (ended id)
          (λ k.
            start_call-IsSound max host id question_of s.created (session_of e.session_key) run call
              s h)
          (λ k. ended-IsSound id)

observe_bound-IsSound :
    (question_of : Text → Text) (max : ℕ) (host : Host) (e : Event) (seq : ℕ) (run : Text)
    (s : State)
    → IsSound s
    → IsSound (observe_bound question_of max host e seq run s)
unfolding observe_bound
observe_bound-IsSound question_of max host e seq run s h =
    if-IsSound (has_text (scan max host s).conflicted run) (scan max host s) _
      (λ k. scan-IsSound max host s h)
      (λ k. ask-IsSound question_of max host e seq run _ (
        each-IsSound (advance max e seq run) (ids_of (scan max host s).calls) (scan max host s)
          (advance-KeepsSound max e seq run) (scan-IsSound max host s h)))

observe_run-IsSound :
    (question_of : Text → Text) (max : ℕ) (host : Host) (e : Event) (seq : ℕ) (run : Text)
    (s : State)
    → IsSound s
    → IsSound (observe_run question_of max host e seq run s)
unfolding observe_run
observe_run-IsSound question_of max host e seq run s h = by_key e.session_key
  where
    by_key :
        (k : Field)
        → IsSound (elim k [
          | missing ↦ observe_bound question_of max host e seq run s
          | malformed ↦ conflict max run s
          | present key ↦
              if all is_space key
              then conflict max run s
              else if (bind_run max run key (ids_of s.calls) s).1
              then observe_bound question_of max host e seq run
                  (bind_run max run key (ids_of s.calls) s).0
              else (bind_run max run key (ids_of s.calls) s).0
        ])
    by_key missing = observe_bound-IsSound question_of max host e seq run s h
    by_key malformed = conflict-IsSound max run s h
    by_key (present key) =
        if-IsSound (all is_space key) (conflict max run s) _ (λ k. conflict-IsSound max run s h)
          (λ k.
            if-IsSound (bind_run max run key (ids_of s.calls) s).1
              (observe_bound question_of max host e seq run
                (bind_run max run key (ids_of s.calls) s).0)
              (bind_run max run key (ids_of s.calls) s).0
              (λ k.
                observe_bound-IsSound question_of max host e seq run
                  (bind_run max run key (ids_of s.calls) s).0
                  (bind_run-IsSound max run key (ids_of s.calls) s h))
              (λ k. bind_run-IsSound max run key (ids_of s.calls) s h))

observe-IsSound :
    (question_of : Text → Text) (max : ℕ) (host : Host) (e : Event) (s : State)
    → IsSound s
    → IsSound (observe question_of max host e s)
unfolding observe
observe-IsSound question_of max host e s h = by_seq e.seq e.run_id
  where
    by_seq :
        (n : Option ℕ) (r : Option Text)
        → IsSound (elim n [
          | none ↦ s
          | some seq ↦ elim r [
            | none ↦ s
            | some run ↦
                if leb 1 seq && not (all is_space run) && not (has_text s.conflicted run)
                then observe_run question_of max host e seq run s
                else s
          ]
        ])
    by_seq none r = h
    by_seq (some seq) none = h
    by_seq (some seq) (some run) =
        if-IsSound (leb 1 seq && not (all is_space run) && not (has_text s.conflicted run))
          (observe_run question_of max host e seq run s) s
          (λ k. observe_run-IsSound question_of max host e seq run s h) (λ k. h)

answer-IsSound :
    (max : ℕ) (id : Text) (serial : ℕ) (status : String) (s : State)
    → IsSound s
    → IsSound (answer max id serial status s)
unfolding answer
answer-IsSound max id serial status s h =
    turn-IsSound (lookup same_text id s.calls)
      (λ call.
        if call.captured
          && eqb call.serial serial
          && (status == "answered" || status == "expired" || status == "cancelled")
        then finish max id (assign id (λ c. record c { resolved = true }) s)
        else s)
      s
      (λ call l.
        if-IsSound
          (call.captured
            && eqb call.serial serial
            && (status == "answered" || status == "expired" || status == "cancelled"))
          (finish max id (assign id (λ c. record c { resolved = true }) s)) s
          (λ k.
            finish-IsSound max id (assign id (λ c. record c { resolved = true }) s)
              (assign-IsSound id (λ c. record c { resolved = true }) s (λ c m b. b) h))
          (λ k. h))
      h

happen-IsSound :
    (question_of : Text → Text) (max : ℕ) (h : Happening) (s : State)
    → IsSound s
    → IsSound (happen question_of max h s)
unfolding happen
happen-IsSound question_of max (observes host e) s k = observe-IsSound question_of max host e s k
happen-IsSound question_of max (scans host) s k = scan-IsSound max host s k
happen-IsSound question_of max (answers id serial status) s k =
    answer-IsSound max id serial status s k
happen-IsSound question_of max disposes s k = (tt, k.1)

happen_all-IsSound :
    (question_of : Text → Text) (max : ℕ) (hs : List Happening) (s : State)
    → IsSound s
    → IsSound (happen_all question_of max hs s)
unfolding happen_all
happen_all-IsSound question_of max [] s k = k
happen_all-IsSound question_of max (h ∷ hs) s k =
    happen_all-IsSound question_of max hs (happen question_of max h s)
      (happen-IsSound question_of max h s k)

-- Over the whole life of an observer, through conflicts, restarts of a call and disposal, every end of a wait that is
-- emitted comes after an emitted start with the same session, turn and question.
pub happen_all-IsPaired :
    (question_of : Text → Text) (max : ℕ) (hs : List Happening)
    → IsPaired (happen_all question_of max hs initial).emitted
unfolding IsPaired
happen_all-IsPaired question_of max hs = (happen_all-IsSound question_of max hs initial (tt, tt)).1
