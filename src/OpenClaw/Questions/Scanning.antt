-- ===== src/OpenClaw/Questions/Scanning.antt =====
-- src/adapters/openclaw/questions.js: a scan of the host's registry keeps the invariant of the observer, and so does the
-- first loop of `observe`.
use sidewisp_plugin.Prelude.{
  ℕ, Bool, true, false, not, ◌||◌, ◌≡◌, refl, Option, none, some, List, [], ◌∷◌, if◌then◌else◌,
  is_some, arith,
}
use sidewisp_plugin.Prelude.Codes.{Text, same_text}
use sidewisp_plugin.Prelude.Assoc.{lookup}
use sidewisp_plugin.OpenClaw.Questions.{bind_run}
use sidewisp_plugin.OpenClaw.QuestionCalls.{
  Host, Question, Call, State, each, bind, has_text, session_of, ids_of,
}
use sidewisp_plugin.OpenClaw.QuestionScan.{
  bind_if, capture, identify, identify_by, begin, start_wait, scan, is_own, is_open,
}
use sidewisp_plugin.OpenClaw.Questions.Soundness.{
  IsSound, if-IsSound, KeepsSound, each-IsSound, capture-IsSound, bind-IsSound, start_wait-IsSound,
}

identify_by-IsSound :
    (max : ℕ) (host : Host) (id : Text) (call : Call) (key : Option Text) (s : State)
    → lookup same_text id s.calls ≡ some call
    → IsSound s
    → IsSound (identify_by max host id call key s)
unfolding identify_by
identify_by-IsSound max host id call none s l h = h
identify_by-IsSound max host id call (some key) s l h =
    if-IsSound (bind max id call key s).1
      (capture host id (record call { session = some key }) (bind max id call key s).0)
      (bind max id call key s).0
      (λ k.
        capture-IsSound host id (record call { session = some key }) (bind max id call key s).0
          (bind-IsSound max id call key s l h))
      (λ k. bind-IsSound max id call key s l h)

identify-KeepsSound :
    (max : ℕ) (host : Host) (registry : Text → Option Question)
    → KeepsSound (identify max host registry)
unfolding identify
identify-KeepsSound max host registry id call s l h =
    if-IsSound (has_text s.conflicted call.run) s _ (λ k. h)
      (λ k. by_question (registry call.question_id))
  where
    by_question :
        (o : Option Question)
        → IsSound (elim o [
          | none ↦ s
          | some q ↦
              if is_own call q then identify_by max host id call (session_of q.session_key) s else s
        ])
    by_question none = h
    by_question (some q) =
        if-IsSound (is_own call q) (identify_by max host id call (session_of q.session_key) s) s
          (λ k. identify_by-IsSound max host id call (session_of q.session_key) s l h) (λ k. h)

begin-KeepsSound :
    (host : Host) (registry : Text → Option Question) → KeepsSound (begin host registry)
unfolding begin
begin-KeepsSound host registry id call s l h =
    if-IsSound
      (has_text s.conflicted call.run || not (is_some call.session) || call.waiting || call.settled)
      s _ (λ k. h) (λ k. by_question (ground arith) (registry call.question_id))
  where
    by_question :
        is_some call.session ≡ true
        → (o : Option Question)
        → IsSound (elim o [
          | none ↦ s
          | some q ↦ if is_open host call q then start_wait host id call s else s
        ])
    by_question p none = h
    by_question p (some q) =
        if-IsSound (is_open host call q) (start_wait host id call s) s
          (λ k. start_wait-IsSound host id call s l p h) (λ k. h)

pub scan-IsSound : (max : ℕ) (host : Host) (s : State) → IsSound s → IsSound (scan max host s)
unfolding scan
scan-IsSound max host s h = by_registry host.registry
  where
    by_registry :
        (o : Option (Text → Option Question))
        → IsSound (elim o [
          | none ↦ s
          | some registry ↦
              each
                (begin host registry)
                (ids_of (each (identify max host registry) (ids_of s.calls) s).calls)
                (each (identify max host registry) (ids_of s.calls) s)
        ])
    by_registry none = h
    by_registry (some registry) =
        each-IsSound (begin host registry)
          (ids_of (each (identify max host registry) (ids_of s.calls) s).calls)
          (each (identify max host registry) (ids_of s.calls) s) (begin-KeepsSound host registry)
          (each-IsSound (identify max host registry) (ids_of s.calls) s
            (identify-KeepsSound max host registry) h)

bind_if-IsSound :
    (max : ℕ) (run key id : Text) (s : State) (o : Option Call)
    → lookup same_text id s.calls ≡ o
    → IsSound s
    → IsSound (bind_if max run key id s o).0
unfolding bind_if
bind_if-IsSound max run key id s none l h = h
bind_if-IsSound max run key id s (some call) l h = by_run (same_text call.run run)
  where
    by_run :
        (b : Bool)
        → IsSound (if◌then◌else◌ {A = State × Bool} b (bind max id call key s) (s, true)).0
    by_run true = bind-IsSound max id call key s l h
    by_run false = h

pub bind_run-IsSound :
    (max : ℕ) (run key : Text) (ids : List Text) (s : State)
    → IsSound s
    → IsSound (bind_run max run key ids s).0
unfolding bind_run
bind_run-IsSound max run key [] s h = h
bind_run-IsSound max run key (id ∷ ids) s h =
    by_bound (bind_if max run key id s (lookup same_text id s.calls))
      (bind_if-IsSound max run key id s _ refl h)
      (bind_run-IsSound max run key ids _
        (bind_if-IsSound max run key id s (lookup same_text id s.calls) refl h))
  where
    by_bound :
        (bound : State × Bool)
        → IsSound bound.0
        → IsSound (bind_run max run key ids bound.0).0
        → IsSound (if bound.1 then bind_run max run key ids bound.0 else bound).0
    by_bound (t, true) k r = r
    by_bound (t, false) k r = k
