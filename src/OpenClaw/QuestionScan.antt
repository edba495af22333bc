-- ===== src/OpenClaw/QuestionScan.antt =====
-- src/adapters/openclaw/questions.js: `finishContinuation`, `captureResolution` and `scan`, and one turn of the
-- first loop of `observe`.
use sidewisp_plugin.Prelude.{
  ℕ, Bool, true, false, not, ◌&&◌, ◌||◌, Option, none, some, ◌∷◌, ltb, if◌then◌else◌, is_some,
}
use sidewisp_plugin.Prelude.Codes.{Text, same_text}
use sidewisp_plugin.Prelude.Assoc.{lookup, modify}
use sidewisp_plugin.OpenClaw.QuestionCalls.{
  Field, Question, Claim, Host, Call, State, has_text, retire, ids_of, each, session_of, assign,
  is_other, bind, wait_of, is_finished, present, wait_started, wait_ended,
}

-- `finishContinuation`
unfoldable pub finish : (max : ℕ) → Text → State → State
unfolding lookup retire
finish max id s = elim (lookup same_text id s.calls) [
  | none ↦ s
  | some call ↦
      if is_finished call
      then retire max id (record s { emitted = wait_ended (wait_of call) ∷ s.emitted })
      else s
]

abbrev pub is_claim_of : Call → Option Claim → Bool
is_claim_of call none = false
is_claim_of call (some claim) =
    claim.is_gateway
    && same_text claim.claimed_id call.question_id
    && not (is_other claim.claimed_session call.session)
    && is_some call.session
    && claim.has_promise

abbrev pub claim_of : Host → Call → Option Claim
claim_of h call = elim call.session [ none ↦ none | some key ↦ h.claims key ]

-- `captureResolution`, up to what its promise leads to
unfoldable pub capture : Host → Text → Call → State → State
unfolding modify
capture h id call s =
    if not call.captured && call.waiting && is_claim_of call (claim_of h call)
    then assign id (λ c. record c { captured = true }) s
    else s

abbrev pub is_own : Call → Question → Bool
is_own call q = elim q.own_id [ none ↦ true | some id ↦ same_text id call.question_id ]

-- The first loop of `scan`
unfoldable pub identify_by : (max : ℕ) → Host → Text → Call → Option Text → State → State
unfolding bind capture
identify_by max h id call none s = s
identify_by max h id call (some key) s =
    let bound = bind max id call key s in
    if bound.1 then capture h id (record call { session = some key }) bound.0 else bound.0

unfoldable pub identify : (max : ℕ) → Host → (Text → Option Question) → Text → Call → State → State
unfolding identify_by
identify max h registry id call s =
    if has_text s.conflicted call.run then s else elim (registry call.question_id) [
      | none ↦ s
      | some q ↦ if is_own call q then identify_by max h id call (session_of q.session_key) s else s
    ]

abbrev pub is_session : Field → Option Text → Bool
is_session (present s) (some k) = same_text s k
is_session _ _ = false

abbrev pub is_open : Host → Call → Question → Bool
is_open h call q =
    is_session q.session_key call.session
    && is_own call q
    && q.is_answerable
    && elim q.expires_at [ none ↦ false | some t ↦ ltb h.now t ]

unfoldable pub start_wait : Host → Text → Call → State → State
unfolding modify capture
start_wait h id call s =
    capture h id (record call { waiting = true })
      (assign id (λ c. record c { waiting = true })
        (record s { emitted = wait_started (wait_of call) ∷ s.emitted }))

-- The second loop of `scan`
unfoldable pub begin : Host → (Text → Option Question) → Text → Call → State → State
unfolding start_wait
begin h registry id call s =
    if has_text s.conflicted call.run || not (is_some call.session) || call.waiting || call.settled
    then s
    else elim (registry call.question_id) [
      | none ↦ s
      | some q ↦ if is_open h call q then start_wait h id call s else s
    ]

unfoldable pub scan : (max : ℕ) → Host → State → State
unfolding each identify begin
scan max h s = elim h.registry [
  | none ↦ s
  | some registry ↦
      let identified = each (identify max h registry) (ids_of s.calls) s in
      each (begin h registry) (ids_of identified.calls) identified
]

unfoldable pub bind_if : (max : ℕ) → (run key : Text) → Text → State → Option Call → State × Bool
unfolding bind
bind_if max run key id s none = (s, true)
bind_if max run key id s (some call) =
    if same_text call.run run then bind max id call key s else (s, true)
