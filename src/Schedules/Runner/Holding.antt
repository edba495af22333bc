-- ===== src/Schedules/Runner/Holding.antt =====
-- src/schedules/runner.js: a result that the file holds.
use mathlib.Core.Path.{subst}
use sidewisp_plugin.Prelude.{
  ◌≡◌, refl, ◌⊎◌, inl, inr, Bool, true, false, not, Option, none, some, List, [], ◌∷◌, ◌++◌, sym,
  ap, ◌∙◌, arith, if◌then◌else◌,
}
use sidewisp_plugin.Prelude.Codes.{same_text}
use sidewisp_plugin.Schedules.Runner.{
  acked, settle, is_bound, isolate, take_up, resume, execute_as, execute,
}
use sidewisp_plugin.Schedules.RunnerState.{
  Result, Entry, Credential, Ack, ack_fails, not_found, acknowledged_run, World, Config, Report,
  Runner,
}

-- The server has the result, or does not know the run.
abbrev pub is_final : Ack → Entry → Bool
is_final ack_fails e = false
is_final not_found e = true
is_final (acknowledged_run id) e = same_text id e.job.run_id

-- Nothing new is polled or launched, and the file is as it was, or gone for a final answer.
pub record IsHeld (w : World) (e : Entry) (s t : Runner) : Type 0 where
  pub launches : t.launches ≡ s.launches
  pub polled : t.polled ≡ s.polled
  pub kept : (t.file ≡ s.file) ⊎ ((t.file ≡ none) × (is_final w.ack e ≡ true))

acked-IsHeld :
    (w : World) (e : Entry) (s : Runner) (a : Ack) (rs : List Report)
    → w.ack ≡ a
    → IsHeld w e s (acked a e (record s { reports = rs }))
acked-IsHeld w e s ack_fails rs q = record { launches = refl; polled = refl; kept = inl refl }
acked-IsHeld w e s not_found rs q = record {
  launches = refl;
  polled = refl;
  kept = inr (refl, rw q refl);
}
acked-IsHeld w e s (acknowledged_run id) rs q = by_test (same_text id e.job.run_id) refl
  where
    by_test :
        (b : Bool)
        → same_text id e.job.run_id ≡ b
        → IsHeld w e s
            (if b then record s { reports = rs; file = none } else record s { reports = rs })
    by_test true r = record { launches = refl; polled = refl; kept = inr (refl, rw q r) }
    by_test false r = record { launches = refl; polled = refl; kept = inl refl }

take_up-IsHeld :
    (w : World) (k : Credential) (e : Entry) (s : Runner) (o : Option Result) (r : Result)
    → o ≡ some r
    → IsHeld w e s (take_up w k o e s)
unfolding settle
take_up-IsHeld w k e s none r q = absurd (ground (arith, q))
take_up-IsHeld w k e s (some r') r q =
    acked-IsHeld w e s w.ack
      (record { receiver = w.origin; sender = k.installation_id; reported = e } ∷ s.reports) refl

isolate-own :
    (w : World) (k : Credential) (e : Entry) (o : Option Entry) (s : Runner)
    → o ≡ some e
    → is_bound w k e ≡ true
    → isolate w k o s ≡ s
isolate-own w k e o s held bound = ap (λ o'. isolate w k o' s) held ∙ own (is_bound w k e) bound
  where
    own :
        (b : Bool)
        → b ≡ true
        → (if b then s else record s { file = none; quarantined = s.quarantined ++ e ∷ [] }) ≡ s
    own true q = refl
    own false q = absurd (ground (arith, q))

resume-IsHeld :
    (c : Config) (w : World) (k : Credential) (e : Entry) (r : Result) (s : Runner)
    → s.file ≡ some e
    → e.result ≡ some r
    → IsHeld w e s (resume c w k s.file s)
resume-IsHeld c w k e r s held done =
    subst (λ o. IsHeld w e s (resume c w k o s)) (sym held) (take_up-IsHeld w k e s e.result r done)

execute_as-IsHeld :
    (c : Config) (w : World) (k : Credential) (e : Entry) (r : Result) (s : Runner)
    → s.file ≡ some e
    → e.result ≡ some r
    → is_bound w k e ≡ true
    → IsHeld w e s (execute_as c w (some k) s)
execute_as-IsHeld c w k e r s held done bound = by_status k.active
  where
    by_status :
        (a : Bool)
        → IsHeld w e s
            (if not a then s else (let t = isolate w k s.file s in resume c w k t.file t))
    by_status false = record { launches = refl; polled = refl; kept = inl refl }
    by_status true =
        subst (λ t. IsHeld w e s (resume c w k t.file t))
          (sym (isolate-own w k e s.file s held bound)) (resume-IsHeld c w k e r s held done)

-- While the file holds a result of the present binding, a turn polls no job and launches no run, and
-- it removes the file only when the server has acknowledged this run or does not know it.
pub execute-IsHeld :
    (c : Config) (w : World) (k : Credential) (e : Entry) (r : Result) (s : Runner)
    → w.credential ≡ some k
    → s.file ≡ some e
    → e.result ≡ some r
    → is_bound w k e ≡ true
    → IsHeld w e s (execute c w s)
unfolding execute
execute-IsHeld c w k e r s known held done bound = by_admission w.can_execute
  where
    by_admission : (a : Bool) → IsHeld w e s (if not a then s else execute_as c w w.credential s)
    by_admission false = record { launches = refl; polled = refl; kept = inl refl }
    by_admission true =
        subst (λ o. IsHeld w e s (execute_as c w o s)) (sym known)
          (execute_as-IsHeld c w k e r s held done bound)
