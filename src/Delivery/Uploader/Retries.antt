-- ===== src/Delivery/Uploader/Retries.antt =====
-- src/delivery/uploader.js: `drain` ends, waits no longer than it may, and says how it ended.
use sidewisp_plugin.Prelude.{
  ℕ, zero, suc, ◌+◌, ◌≤◌, min, ◌≡◌, Bool, true, Option, none, some, [], arith, length,
}
use sidewisp_plugin.Delivery.Spool.{Sqlite}
use sidewisp_plugin.Delivery.Uploader.{Limits, Status, backpressure, Outcome, Uploader, World}
use sidewisp_plugin.Delivery.Uploader.Send.{perform_send}
use sidewisp_plugin.Delivery.Uploader.Drain.{is_final, Jitter, Drained, give_up, continue, drain}

-- The results that a drain can have.
abbrev pub is_ending : Status → Bool
is_ending backpressure = true
is_ending s = is_final s

-- A drain with so many attempts: it slept at most so often, and its outcome, unless a send threw,
-- is an ending.
pub record IsBounded (attempts : ℕ) (d : Drained) : Type 0 where
  pub naps : length d.delays ≤ attempts
  pub ends : (o : Outcome) → d.result ≡ some o → is_ending o.status ≡ true

give_up-IsBounded : (last : Option Outcome) (u : Uploader) → IsBounded 0 (give_up last u)
give_up-IsBounded last u = record { naps = omega arith; ends = λ o h. ground arith }

continue-IsBounded :
    (limits : Limits) (jitter : Jitter) (round attempts : ℕ)
    (more : Option Outcome → Uploader → Drained)
    → ((last : Option Outcome) (u : Uploader) → IsBounded attempts (more last u))
    → (o : Outcome) (u : Uploader)
    → IsBounded (suc attempts) (continue limits jitter round more o u)
continue-IsBounded limits jitter round attempts more h o u = record {
  naps = ground (
    arith,
    (h (some o) u).naps,
    (h (some o) (record u { attempt = min (u.attempt + 1) 20 })).naps,
  );
  ends = λ p e. ground (
    arith,
    (h (some o) u).ends p,
    (h (some o) (record u { attempt = min (u.attempt + 1) 20 })).ends p,
  );
}

drain_step-IsBounded :
    (limits : Limits) (jitter : Jitter) (round attempts : ℕ)
    (more : Option Outcome → Uploader → Drained)
    → ((last : Option Outcome) (u : Uploader) → IsBounded attempts (more last u))
    → (r : Option Outcome) (u : Uploader)
    → IsBounded (suc attempts) (elim r [
      | none ↦ record { uploader = u; result = none; delays = [] }
      | some o ↦ continue limits jitter round more o u
    ])
drain_step-IsBounded limits jitter round attempts more h none u = record {
  naps = omega arith;
  ends = λ o e. absurd (ground arith);
}
drain_step-IsBounded limits jitter round attempts more h (some o) u =
    continue-IsBounded limits jitter round attempts more h o u

-- A drain of so many attempts sleeps at most once for each, and unless a send throws it returns an
-- outcome that is idle, disabled, a refused credential, a rejection or back pressure.
pub drain-IsBounded :
    (db : Sqlite) (limits : Limits) (worlds : ℕ → World) (jitter : Jitter) (round attempts : ℕ)
    (last : Option Outcome) (u : Uploader)
    → IsBounded attempts (drain db limits worlds jitter round attempts last u)
unfolding drain
drain-IsBounded db limits worlds jitter round zero last u = give_up-IsBounded last u
drain-IsBounded db limits worlds jitter round (suc attempts) last u =
    drain_step-IsBounded limits jitter round attempts _
      (drain-IsBounded db limits worlds jitter (suc round) attempts)
      (perform_send db limits (worlds round) u).1 (perform_send db limits (worlds round) u).0
