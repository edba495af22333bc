-- ===== src/Core/Normalize/Reports.antt =====
-- src/core/normalize.js: which type and outcome each semantic reports, as rules apart from the code.
use sidewisp_plugin.Prelude.{
  ℕ, eqb_iff, ◌≡◌, ◌≢◌, refl, ap, sym, ◌∙◌, ◌⊎◌, inl, inr, Bool, true, false, ◌||◌, String, Option,
  none, some, [], ◌∷◌, arith, if◌then◌else◌,
}
use mathlib.Core.Option.{some_inj}
use sidewisp_plugin.Prelude.Codes.{Text, codes, same_text, same_text→eq, same_text_refl}
use sidewisp_plugin.Core.Sanitize.{Integer, pos, negsuc, Source, integer, flag, text}
use sidewisp_plugin.Core.Normalize.{
  RuntimeInput, Fact, fact, fact_of, is_word, or_false, is_expected, is_status, ended,
  cancelled_details, timeout_details, provider_fact,
}
use sidewisp_plugin.Core.RuntimeMappings.{
  Semantic, runtime_start, runtime_stop, runtime_crash, gateway_up, gateway_down, turn_start,
  turn_end, turn_progress, tool_start, tool_end, message_received, delivery_end, provider_error,
  config_invalid, queue_stuck, context_exhausted,
}

abbrev pub Says : RuntimeInput → String → Type 0
Says i word = i.outcome ≡ some (codes word)

abbrev pub SaysNot : RuntimeInput → String → Type 0
SaysNot i word = i.outcome ≢ some (codes word)

-- The end of a turn or of a tool: a cancellation and an expected timeout are no failures, and an outcome that is
-- none of the three words is one.
pub data Ends (i : RuntimeInput) (cancelled timeout completed failed : String)
    : String → String → Type 0 where
  was_cancelled : Says i "cancelled" → Ends i cancelled timeout completed failed cancelled "info"
  timed_out :
      Says i "timeout"
      → i.expected ≢ some true
      → Ends i cancelled timeout completed failed timeout "failure"
  timed_out_as_expected :
      Says i "timeout"
      → i.expected ≡ some true
      → Ends i cancelled timeout completed failed timeout "info"
  was_completed : Says i "success" → Ends i cancelled timeout completed failed completed "success"
  has_failed :
      SaysNot i "cancelled"
      → SaysNot i "timeout"
      → SaysNot i "success"
      → Ends i cancelled timeout completed failed failed "failure"

pub data Reports (i : RuntimeInput) : Semantic → String → String → Type 0 where
  runtime_started : Reports i runtime_start "runtime.started" "success"
  runtime_stopped : Reports i runtime_stop "runtime.stopped" "success"
  runtime_crashed : Reports i runtime_crash "runtime.crashed" "failure"
  gateway_connected : Reports i gateway_up "gateway.connected" "success"
  gateway_disconnected : Reports i gateway_down "gateway.disconnected" "failure"
  turn_started : Reports i turn_start "turn.started" "info"
  turn_progressed : Reports i turn_progress "turn.progress" "info"
  turn_ended :
      {type outcome : String}
      → Ends i "turn.cancelled" "turn.timeout" "turn.completed" "turn.failed" type outcome
      → Reports i turn_end type outcome
  tool_started : Reports i tool_start "tool.started" "info"
  tool_ended :
      {type outcome : String}
      → Ends i "tool.cancelled" "tool.timeout" "tool.completed" "tool.failed" type outcome
      → Reports i tool_end type outcome
  was_received : Reports i message_received "message.received" "info"
  was_rejected : Says i "policy-rejected" → Reports i delivery_end "message.rejected" "info"
  was_delivered : Says i "success" → Reports i delivery_end "message.delivered" "success"
  was_lost :
      SaysNot i "policy-rejected"
      → SaysNot i "success"
      → Reports i delivery_end "message.failed" "failure"
  auth_failed :
      (i.http_status ≡ some (pos 401)) ⊎ (i.http_status ≡ some (pos 403))
      → Reports i provider_error "provider.auth_failed" "failure"
  rate_limited :
      i.http_status ≡ some (pos 429) → Reports i provider_error "provider.rate_limited" "degraded"
  unavailable :
      i.http_status ≢ some (pos 401)
      → i.http_status ≢ some (pos 403)
      → i.http_status ≢ some (pos 429)
      → Reports i provider_error "provider.unavailable" "failure"
  config_was_invalid : Reports i config_invalid "config.invalid" "failure"
  queue_was_stuck : Reports i queue_stuck "queue.stuck" "failure"
  context_was_exhausted : Reports i context_exhausted "context.exhausted" "failure"

abbrev ReportsFact : RuntimeInput → Semantic → Fact → Type 0
ReportsFact i s f = Reports i s f.type f.outcome

word-some : (o : Option Text) (w : String) → is_word o w ≡ true → o ≡ some (codes w)
word-some none w h = ground arith
word-some (some s) w h = ap some (same_text→eq s (codes w) h)

word-other : (o : Option Text) (w : String) → is_word o w ≡ false → o ≢ some (codes w)
word-other none w h e = ground (arith, e)
word-other (some s) w h e =
    ground (arith, h, ap (λ t. same_text t (codes w)) (some_inj.0 e), same_text_refl (codes w))

EndsIn : RuntimeInput → (cancelled timeout completed failed : String) → Fact → Type 0
EndsIn i cancelled timeout completed failed f =
    Ends i cancelled timeout completed failed f.type f.outcome

module _ (i : RuntimeInput) (cancelled timeout completed failed : String) where
  expected-Ends :
      (o : Option Bool)
      → i.expected ≡ o
      → Says i "timeout"
      → Ends i cancelled timeout completed failed timeout (if or_false o then "info" else "failure")
  expected-Ends none e h = timed_out h (λ k. ground (arith, sym e ∙ k))
  expected-Ends (some true) e h = timed_out_as_expected h e
  expected-Ends (some false) e h = timed_out h (λ k. ground (arith, sym e ∙ k))

  ended-Ends :
      EndsIn i cancelled timeout completed failed (ended cancelled timeout completed failed i)
  unfolding EndsIn
  ended-Ends =
      by_words (is_word i.outcome "cancelled") (is_word i.outcome "timeout")
        (is_word i.outcome "success") refl refl refl
    where
      by_words :
          (c t s : Bool)
          → is_word i.outcome "cancelled" ≡ c
          → is_word i.outcome "timeout" ≡ t
          → is_word i.outcome "success" ≡ s
          → let f : Fact =
              (if c
                then fact cancelled "info" cancelled_details
                else if t
                then fact timeout
                    (if is_expected i then "info" else "failure")
                    (timeout_details (is_expected i))
                else if s
                then fact completed "success" []
                else fact failed "failure" []) in
            Ends i cancelled timeout completed failed f.type f.outcome
      by_words true t s h k g = was_cancelled (word-some i.outcome "cancelled" h)
      by_words false true s h k g = expected-Ends i.expected refl (word-some i.outcome "timeout" k)
      by_words false false true h k g = was_completed (word-some i.outcome "success" g)
      by_words false false false h k g =
          has_failed (word-other i.outcome "cancelled" h) (word-other i.outcome "timeout" k)
            (word-other i.outcome "success" g)

integer-some : (n : ℕ) (o : Option Integer) → is_status n o ≡ true → o ≡ some (pos n)
integer-some n none h = ground arith
integer-some n (some (pos m)) h = ap (λ k. some (pos k)) ((eqb_iff m n).0 h)
integer-some n (some (negsuc m)) h = ground arith

integer-other : (n : ℕ) (o : Option Integer) → is_status n o ≡ false → o ≢ some (pos n)
integer-other n none h e = ground (arith, e)
integer-other n (some (pos m)) h e = ground (arith, h, e)
integer-other n (some (negsuc m)) h e = ground (arith, e)

provider-Reports : (i : RuntimeInput) → ReportsFact i provider_error (provider_fact i.http_status)
provider-Reports i =
    by_status (is_status 401 i.http_status) (is_status 403 i.http_status)
      (is_status 429 i.http_status) refl refl refl
  where
    auth : Source
    auth = elim i.http_status [ none ↦ [] | some n ↦ ("httpStatus", integer n) ∷ [] ]

    by_status :
        (a b c : Bool)
        → is_status 401 i.http_status ≡ a
        → is_status 403 i.http_status ≡ b
        → is_status 429 i.http_status ≡ c
        → ReportsFact i provider_error (
            if a || b
            then fact "provider.auth_failed" "failure" auth
            else if c
            then fact "provider.rate_limited" "degraded"
                (("httpStatus", integer (pos 429)) ∷ ("recoverable", flag true) ∷ [])
            else fact "provider.unavailable" "failure" (("recoverable", flag true) ∷ []))
    by_status true b c h k g = auth_failed (inl (integer-some 401 i.http_status h))
    by_status false true c h k g = auth_failed (inr (integer-some 403 i.http_status k))
    by_status false false true h k g = rate_limited (integer-some 429 i.http_status g)
    by_status false false false h k g =
        unavailable (integer-other 401 i.http_status h) (integer-other 403 i.http_status k)
          (integer-other 429 i.http_status g)

delivery-Reports : (i : RuntimeInput) → ReportsFact i delivery_end (fact_of delivery_end i)
unfolding fact_of
delivery-Reports i =
    by_words (is_word i.outcome "policy-rejected") (is_word i.outcome "success") refl refl
  where
    by_words :
        (r s : Bool)
        → is_word i.outcome "policy-rejected" ≡ r
        → is_word i.outcome "success" ≡ s
        → ReportsFact i delivery_end (
            if r
            then fact "message.rejected" "info"
                (("reason", text (codes "policy-rejection")) ∷ ("expected", flag true) ∷ [])
            else if s
            then fact "message.delivered" "success" []
            else fact "message.failed" "failure" [])
    by_words true s h k = was_rejected (word-some i.outcome "policy-rejected" h)
    by_words false true h k = was_delivered (word-some i.outcome "success" k)
    by_words false false h k =
        was_lost (word-other i.outcome "policy-rejected" h) (word-other i.outcome "success" k)

pub fact-Reports :
    (s : Semantic) (i : RuntimeInput) → Reports i s (fact_of s i).type (fact_of s i).outcome
unfolding fact_of EndsIn
fact-Reports runtime_start i = runtime_started
fact-Reports runtime_stop i = runtime_stopped
fact-Reports runtime_crash i = runtime_crashed
fact-Reports gateway_up i = gateway_connected
fact-Reports gateway_down i = gateway_disconnected
fact-Reports turn_start i = turn_started
fact-Reports turn_end i =
    turn_ended (ended-Ends i "turn.cancelled" "turn.timeout" "turn.completed" "turn.failed")
fact-Reports turn_progress i = turn_progressed
fact-Reports tool_start i = tool_started
fact-Reports tool_end i =
    tool_ended (ended-Ends i "tool.cancelled" "tool.timeout" "tool.completed" "tool.failed")
fact-Reports message_received i = was_received
fact-Reports delivery_end i = delivery-Reports i
fact-Reports provider_error i = provider-Reports i
fact-Reports config_invalid i = config_was_invalid
fact-Reports queue_stuck i = queue_was_stuck
fact-Reports context_exhausted i = context_was_exhausted
