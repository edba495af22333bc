-- ===== src/Delivery/Uploader/Drain.antt =====
-- src/delivery/uploader.js: `drain`, with its retries and their delays.
use sidewisp_plugin.Prelude.{
  ℕ, zero, suc, ◌+◌, ◌*◌, ◌^◌, min, Bool, true, false, ◌&&◌, Option, none, some, List, [], ◌∷◌, eqb,
  if◌then◌else◌,
}
use sidewisp_plugin.Delivery.Spool.{Sqlite}
use sidewisp_plugin.Delivery.Uploader.{
  Limits, Status, disabled, idle, retry, credential_rejected, rejected, sent, backpressure, Outcome,
  Uploader, World, backlog, outcome, finish,
}
use sidewisp_plugin.Delivery.Uploader.Send.{perform_send}

-- The results at which `drain` returns at once.
abbrev pub is_final : Status → Bool
is_final idle = true
is_final disabled = true
is_final credential_rejected = true
is_final rejected = true
is_final _ = false

abbrev pub is_sent : Status → Bool
is_sent sent = true
is_sent _ = false

abbrev pub is_retry : Status → Bool
is_retry retry = true
is_retry _ = false

-- `Math.round(base * (0.5 + random() * 0.5))` is a parameter: `jitter n base` is what the random
-- number of the round `n` makes of it.
abbrev pub Jitter : Type 0
Jitter = ℕ → ℕ → ℕ

unfoldable pub backoff : Limits → ℕ → ℕ
backoff limits attempt = min limits.max_backoff_ms (1000 * 2 ^ attempt)

abbrev pub delay_of : Limits → Jitter → ℕ → ℕ → Option ℕ → ℕ
delay_of limits jitter round attempt (some ms) = ms
delay_of limits jitter round attempt none = jitter round (backoff limits attempt)

-- A drain returns, with the delays that it slept; `none` as an outcome means that a send threw.
pub record Drained : Type 0 where
  pub uploader : Uploader
  pub result : Option Outcome
  pub delays : List ℕ

-- The result after the last attempt.
abbrev pub give_up : Option Outcome → Uploader → Drained
give_up last u =
    let o =
      record (outcome backpressure
        (elim last [ none ↦ 0 | some l ↦ if is_sent l.status then l.sent_count else 0 ])
        (backlog u.spool)) {
          transport_code = elim last [ none ↦ none | some l ↦ l.transport_code ];
        } in
    let (u', r) = finish o u in record { uploader = u'; result = r; delays = [] }

-- What is done with the result of a send, `more` being the rest of the loop.
abbrev pub continue :
    Limits → Jitter → ℕ → (Option Outcome → Uploader → Drained) → Outcome → Uploader → Drained
continue limits jitter round more o u =
    if is_final o.status
    then record { uploader = u; result = some o; delays = [] }
    else if is_sent o.status && eqb o.remaining 0
    then (let (u', r) = finish (outcome idle o.sent_count 0) u in
        record { uploader = u'; result = r; delays = [] })
    else if is_retry o.status
    then (let d = more (some o) (record u { attempt = min (u.attempt + 1) 20 }) in
        record d { delays = delay_of limits jitter round u.attempt o.retry_after_ms ∷ d.delays })
    else more (some o) u

-- The loop, with the attempts that are left; each has its own world.
unfoldable pub drain :
    Sqlite → Limits → (ℕ → World) → Jitter → ℕ → ℕ → Option Outcome → Uploader → Drained
unfolding perform_send backlog backoff
drain db limits worlds jitter round zero last u = give_up last u
drain db limits worlds jitter round (suc attempts) last u =
    let more = drain db limits worlds jitter (suc round) attempts in
    let (u', r) = perform_send db limits (worlds round) u in
    elim r [
      | none ↦ record { uploader = u'; result = none; delays = [] }
      | some o ↦ continue limits jitter round more o u'
    ]
