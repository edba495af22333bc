-- ===== src/OpenClaw/Questions/Soundness.antt =====
-- src/adapters/openclaw/questions.js: the invariant of the observer, under an assignment, a loop, a conflict and the end
-- of a wait.
use sidewisp_plugin.Prelude.{
  ℕ, Bool, true, false, not, ◌&&◌, ◌≡◌, refl, ap, sym, ◌⊎◌, inl, inr, ◌∙◌, Option, none, some, List,
  [], ◌∷◌, if◌then◌else◌, is_some, All, arith,
}
use sidewisp_plugin.Prelude.Codes.{Text, same_text, same_text→eq}
use sidewisp_plugin.Prelude.Assoc.{lookup, All-modify, All-delete, lookup-All}
use mathlib.Core.Path.{subst}
use mathlib.Core.Option.{some_inj}
use sidewisp_plugin.OpenClaw.Questions.{advance, is_terminal, is_continuation, is_new_execution}
use sidewisp_plugin.OpenClaw.QuestionCalls.{
  Host, Call, Wait, Emission, wait_started, wait_ended, State, Event, retire, each, conflict,
  is_other, is_rival, assign, bind, wait_of, is_finished, ids_of,
}
use sidewisp_plugin.OpenClaw.QuestionScan.{is_claim_of, claim_of, finish, capture, start_wait}

pub WasStarted : Wait → List Emission → Type 0
WasStarted w [] = ⊥
WasStarted w (e ∷ es) = (e ≡ wait_started w) ⊎ WasStarted w es

-- No wait ends before it has started.
unfoldable pub IsPaired : List Emission → Type 0
IsPaired [] = Unit
IsPaired (wait_started w ∷ es) = IsPaired es
IsPaired (wait_ended w ∷ es) = WasStarted w es × IsPaired es

-- A call that waits has a session, and its wait has started.
abbrev pub IsBacked : List Emission → Call → Type 0
IsBacked es c = c.waiting ≡ true → (is_some c.session ≡ true) × WasStarted (wait_of c) es

abbrev pub IsSound : State → Type 0
IsSound s = All (λ e. IsBacked s.emitted e.1) s.calls × IsPaired s.emitted

All-IsBacked-emit :
    (e : Emission) (es : List Emission) (calls : List (Text × Call))
    → All (λ c. IsBacked es c.1) calls
    → All (λ c. IsBacked (e ∷ es) c.1) calls
unfolding WasStarted
All-IsBacked-emit e es [] h = tt
All-IsBacked-emit e es (c ∷ calls) h =
    ((λ w. ((h.0 w).0, inr (h.0 w).1)), All-IsBacked-emit e es calls h.1)

-- An assignment to a call that keeps what it waits for
pub assign-IsSound :
    (id : Text) (f : Call → Call) (s : State)
    → ((c : Call)
        → lookup same_text id s.calls ≡ some c
        → IsBacked s.emitted c
        → IsBacked s.emitted (f c))
    → IsSound s
    → IsSound (assign id f s)
assign-IsSound id f s g h = (All-modify same_text (IsBacked s.emitted) id f s.calls g h.0, h.1)

pub retire-IsSound : (max : ℕ) (id : Text) (s : State) → IsSound s → IsSound (retire max id s)
unfolding retire
retire-IsSound max id s h = (All-delete same_text (λ e. IsBacked s.emitted e.1) id s.calls h.0, h.1)

pub if-IsSound :
    (b : Bool) (s t : State)
    → (b ≡ true → IsSound s)
    → (b ≡ false → IsSound t)
    → IsSound (if b then s else t)
if-IsSound true s t h k = h refl
if-IsSound false s t h k = k refl

-- A turn of a loop, where the call is still there
pub turn-IsSound :
    (o : Option Call) (f : Call → State) (s : State)
    → ((c : Call) → o ≡ some c → IsSound (f c))
    → IsSound s
    → IsSound (elim o [ none ↦ s | some c ↦ f c ])
turn-IsSound none f s g h = h
turn-IsSound (some c) f s g h = g c refl

-- What keeps every turn of a loop sound
abbrev pub KeepsSound : (Text → Call → State → State) → Type 0
KeepsSound f =
    (id : Text) (c : Call) (t : State)
    → lookup same_text id t.calls ≡ some c
    → IsSound t
    → IsSound (f id c t)

pub each-IsSound :
    (f : Text → Call → State → State) (ids : List Text) (s : State)
    → KeepsSound f
    → IsSound s
    → IsSound (each f ids s)
unfolding each
each-IsSound f [] s g h = h
each-IsSound f (id ∷ ids) s g h =
    each-IsSound f ids _ g
      (turn-IsSound (lookup same_text id s.calls) (λ c. f id c s) s (λ c e. g id c s e h) h)

pub conflict-IsSound : (max : ℕ) (run : Text) (s : State) → IsSound s → IsSound (conflict max run s)
unfolding conflict
conflict-IsSound max run s h =
    each-IsSound (λ id call t. if same_text call.run run then retire max id t else t)
      (ids_of s.calls) _
      (λ id c t l k.
        if-IsSound (same_text c.run run) (retire max id t) t (λ e. retire-IsSound max id t k)
          (λ e. k))
      h

pub capture-IsSound :
    (host : Host) (id : Text) (c : Call) (s : State) → IsSound s → IsSound (capture host id c s)
unfolding capture
capture-IsSound host id c s h =
    if-IsSound (not c.captured && c.waiting && is_claim_of c (claim_of host c))
      (assign id (λ c. record c { captured = true }) s) s
      (λ e. assign-IsSound id (λ c. record c { captured = true }) s (λ c e k. k) h) (λ e. h)

same_session :
    (es : List Emission) (run question key : Text) (o : Option Text)
    → is_other key o ≡ false
    → is_some o ≡ true
    → WasStarted (record { session = o; turn = run; question = question }) es
    → WasStarted (record { session = some key; turn = run; question = question }) es
same_session es run question key none h k w = ground arith
same_session es run question key (some o) h k w =
    subst (λ t. WasStarted (record { session = some t; turn = run; question = question }) es)
      (same_text→eq o key (ground arith)) w

session-IsBacked :
    (es : List Emission) (c : Call) (key : Text)
    → is_other key c.session ≡ false
    → IsBacked es c
    → IsBacked es (record c { session = some key })
session-IsBacked es c key h k w =
    (refl, same_session es c.run c.question_id key c.session h (k w).0 (k w).1)

pub bind-IsSound :
    (max : ℕ) (id : Text) (call : Call) (key : Text) (s : State)
    → lookup same_text id s.calls ≡ some call
    → IsSound s
    → IsSound (bind max id call key s).0
unfolding bind
bind-IsSound max id call key s l h = by_rival (is_rival call key s) (λ e. ground arith)
  where
    by_rival :
        (b : Bool)
        → (b ≡ false → is_other key call.session ≡ false)
        → IsSound
            (if◌then◌else◌ {A = State × Bool} b
              (conflict max call.run s, false)
              (assign id (λ c. record c { session = some key }) s, true)).0
    by_rival true e = conflict-IsSound max call.run s h
    by_rival false e =
        assign-IsSound id (λ c. record c { session = some key }) s
          (λ c m k.
            session-IsBacked s.emitted c key
              (subst (λ d. is_other key d.session ≡ false) (some_inj.0 (sym l ∙ m)) (e refl)) k)
          h

pub finish-IsSound : (max : ℕ) (id : Text) (s : State) → IsSound s → IsSound (finish max id s)
unfolding finish IsPaired
finish-IsSound max id s h =
    turn-IsSound (lookup same_text id s.calls)
      (λ call.
        if is_finished call
        then retire max id (record s { emitted = wait_ended (wait_of call) ∷ s.emitted })
        else s)
      s
      (λ call l.
        if-IsSound (is_finished call)
          (retire max id (record s { emitted = wait_ended (wait_of call) ∷ s.emitted })) s
          (λ f.
            retire-IsSound max id (record s { emitted = wait_ended (wait_of call) ∷ s.emitted })
              (end-IsSound call l (ground arith)))
          (λ f. h))
      h
  where
    end-IsSound :
        (call : Call)
        → lookup same_text id s.calls ≡ some call
        → call.waiting ≡ true
        → IsSound (record s { emitted = wait_ended (wait_of call) ∷ s.emitted })
    end-IsSound call l w = (
      All-IsBacked-emit (wait_ended (wait_of call)) s.emitted s.calls h.0,
      ((lookup-All same_text (IsBacked s.emitted) id call s.calls h.0 l w).1, h.1),
    )

pub advance-KeepsSound :
    (max : ℕ) (e : Event) (seq : ℕ) (run : Text) → KeepsSound (advance max e seq run)
unfolding advance
advance-KeepsSound max e seq run id call s l h =
    if-IsSound (not (same_text call.run run)) s _ (λ k. h)
      (λ k.
        if-IsSound (not (is_some call.session)) _ _ (λ k. retire_if)
          (λ k.
            if-IsSound (call.settled && is_continuation e && is_new_execution e seq call) _ _
              (λ k. finish-IsSound max id _ (
                assign-IsSound id (λ c. record c { continuation_seq = some seq }) s (λ c m b. b) h))
              (λ k. retire_if)))
  where
    retire_if : IsSound (if is_terminal e then retire max id s else s)
    retire_if =
        if-IsSound (is_terminal e) (retire max id s) s (λ k. retire-IsSound max id s h) (λ k. h)

pub start_wait-IsSound :
    (host : Host) (id : Text) (call : Call) (s : State)
    → lookup same_text id s.calls ≡ some call
    → is_some call.session ≡ true
    → IsSound s
    → IsSound (start_wait host id call s)
unfolding start_wait WasStarted IsPaired
start_wait-IsSound host id call s l k h =
    capture-IsSound host id (record call { waiting = true }) _
      (assign-IsSound id (λ c. record c { waiting = true })
        (record s { emitted = wait_started (wait_of call) ∷ s.emitted })
        (λ c m b w. (
          subst (λ d. is_some d.session ≡ true) (some_inj.0 (sym l ∙ m)) k,
          inl (ap (λ d. wait_started (wait_of d)) (some_inj.0 (sym l ∙ m))),
        ))
        (All-IsBacked-emit (wait_started (wait_of call)) s.emitted s.calls h.0, h.1))
