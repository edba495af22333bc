-- ===== src/OpenClaw/Observers/Accounting.antt =====
-- src/adapters/openclaw/hooks.js: every call of a hook is counted once, and never more than `maxPending` dispatches
-- are under way.
use sidewisp_plugin.Prelude.{
  ℕ, suc, ◌+◌, ◌≤◌, String, Bool, true, false, ◌≡◌, refl, List, [], ◌∷◌, ltb, if◌then◌else◌, arith,
}
use sidewisp_plugin.OpenClaw.Observers.{
  Observers, nothing_observed, throws, nothing, input, Ending, buffered, neither, Happening, calls,
  ends, settles, count, observe, dispatched, settle, happen, happen_all,
}

-- The calls of hooks and of `settle`
abbrev pub attempts : List Happening → ℕ
attempts [] = 0
attempts (calls name r ∷ hs) = suc (attempts hs)
attempts (ends e ∷ hs) = attempts hs
attempts (settles s ∷ hs) = suc (attempts hs)

abbrev pub hook_calls : List Happening → ℕ
hook_calls [] = 0
hook_calls (calls name r ∷ hs) = suc (hook_calls hs)
hook_calls (ends e ∷ hs) = hook_calls hs
hook_calls (settles s ∷ hs) = hook_calls hs

-- A dispatch whose event is buffered or absent ends uncounted.
abbrev pub is_silent : Ending → Bool
is_silent buffered = true
is_silent neither = true
is_silent _ = false

abbrev pub silent_of : Happening → Observers → ℕ
silent_of (calls name r) o = 0
silent_of (ends e) o = if ltb 0 o.pending then (if is_silent e then 1 else 0) else 0
silent_of (settles s) o = 0

abbrev pub silent : ℕ → List Happening → Observers → ℕ
silent max [] o = 0
silent max (h ∷ hs) o = silent_of h o + silent max hs (happen max h o)

abbrev pub total : Observers → ℕ
total o = o.emitted + o.ignored + o.failed + o.pending

abbrev pub sum : List (String × ℕ) → ℕ
sum [] = 0
sum ((k, n) ∷ entries) = n + sum entries

sum-count :
    (name : String) (entries : List (String × ℕ)) → sum (count name entries) ≡ suc (sum entries)
unfolding count
sum-count name [] = refl
sum-count name ((k, n) ∷ entries) = ground (arith, sum-count name entries)

happen-total :
    (max : ℕ) (h : Happening) (o : Observers)
    → attempts (h ∷ []) + total o ≡ total (happen max h o) + silent_of h o
unfolding happen observe dispatched settle
happen-total max (calls name throws) o = ground arith
happen-total max (calls name nothing) o = ground arith
happen-total max (calls name input) o = ground arith
happen-total max (ends e) o = ground arith
happen-total max (settles s) o = ground arith

happen-pending :
    (max : ℕ) (h : Happening) (o : Observers) → o.pending ≤ max → (happen max h o).pending ≤ max
unfolding happen observe dispatched settle
happen-pending max (calls name throws) o k = ground arith
happen-pending max (calls name nothing) o k = ground arith
happen-pending max (calls name input) o k = ground arith
happen-pending max (ends e) o k = ground arith
happen-pending max (settles s) o k = ground arith

happen-observed :
    (max : ℕ) (h : Happening) (o : Observers)
    → sum (happen max h o).observed ≡ hook_calls (h ∷ []) + sum o.observed
unfolding happen observe dispatched settle
happen-observed max (calls name throws) o = ground (arith, sum-count name o.observed)
happen-observed max (calls name nothing) o = ground (arith, sum-count name o.observed)
happen-observed max (calls name input) o = ground (arith, sum-count name o.observed)
happen-observed max (ends e) o = ground arith
happen-observed max (settles s) o = ground arith

-- From the state `o`, the happenings `hs` lead to `p`.
abbrev pub AreCounted : ℕ → List Happening → Observers → Observers → Type 0
AreCounted max hs o p =
    (p.pending ≤ max)
    × ((attempts hs + total o ≡ total p + silent max hs o)
        × (sum p.observed ≡ hook_calls hs + sum o.observed))

attempts_cons :
    (h : Happening) (hs : List Happening) → attempts (h ∷ hs) ≡ attempts (h ∷ []) + attempts hs
attempts_cons (calls name r) hs = omega arith
attempts_cons (ends e) hs = omega arith
attempts_cons (settles s) hs = omega arith

hook_calls_cons :
    (h : Happening) (hs : List Happening)
    → hook_calls (h ∷ hs) ≡ hook_calls (h ∷ []) + hook_calls hs
hook_calls_cons (calls name r) hs = omega arith
hook_calls_cons (ends e) hs = omega arith
hook_calls_cons (settles s) hs = omega arith

happen_all-counted :
    (max : ℕ) (hs : List Happening) (o : Observers)
    → o.pending ≤ max
    → AreCounted max hs o (happen_all max hs o)
unfolding happen_all
happen_all-counted max [] o k = (k, (omega arith, omega arith))
happen_all-counted max (h ∷ hs) o k =
    let rest = happen_all-counted max hs (happen max h o) (happen-pending max h o k) in
    (
      rest.0,
      (
        omega (arith, rest.1.0, happen-total max h o, attempts_cons h hs),
        omega (arith, rest.1.1, happen-observed max h o, hook_calls_cons h hs),
      ),
    )

-- In any run of the observers, every call of a hook and of `settle` is emitted, ignored, failed, pending, or ends
-- silently; the counts by name add up to the calls; and `maxPending` dispatches at most are under way.
pub happen_all-AreCounted :
    (max : ℕ) (hs : List Happening)
    → AreCounted max hs nothing_observed (happen_all max hs nothing_observed)
happen_all-AreCounted max hs = happen_all-counted max hs nothing_observed (omega arith)
