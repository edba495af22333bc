-- ===== src/OpenClaw/Observers/Correlating.antt =====
-- src/adapters/openclaw/hooks.js: a dispatch is correlated with the message that its session received last.
use sidewisp_plugin.Prelude.{
  ℕ, zero, suc, ◌≤◌, String, Bool, true, false, not, ◌||◌, ◌≡◌, refl, sym, ap, ◌∙◌, Option, none,
  some, List, [], ◌∷◌, ◌++◌, if◌then◌else◌, length, All, All-filter_self, length-append, arith,
}
use mathlib.Core.Path.{subst}
use mathlib.Core.Option.{some_inj}
use text.Mathlib.TextPositions.{eq_refl}
use sidewisp_plugin.Prelude.Assoc.{evict, lookup, delete, All-evict, length-evict-le}
use sidewisp_plugin.OpenClaw.Observers.{
  Ids, Correlation, or_id, correlation, is_blank, same_session, one_at_least, remember,
  remember_inbound_run, matched, correlate_with, correlate_in, correlate_dispatch,
}

-- The last entry of a key is found where no earlier one has it.
lookup-last :
    (s : String) (v : Correlation) (runs : List (String × Correlation))
    → All (λ e. not (same_session e.0 s) ≡ true) runs
    → lookup same_session s (runs ++ (s, v) ∷ []) ≡ some v
unfolding lookup
lookup-last s v [] h = ground (arith, eq_refl s)
lookup-last s v ((k, u) ∷ runs) h = ground (arith, h.0, lookup-last s v runs h.1)

lookup-remember :
    (max : ℕ) (s : String) (v : Correlation) (runs : List (String × Correlation))
    → v.session_id ≡ some s
    → is_blank v.session_id ≡ false
    → is_blank v.message_id ≡ false
    → lookup same_session s (remember_inbound_run max v runs) ≡ some v
unfolding remember_inbound_run delete
lookup-remember max s v runs h k n =
    by_session v.session_id h (is_blank v.session_id) (is_blank v.message_id) k n
  where
    by_session :
        (o : Option String)
        → o ≡ some s
        → (b d : Bool) → b ≡ false
        → d ≡ false
        → lookup same_session s (if b || d then runs else remember max v o runs) ≡ some v
    by_session none e b d x y = ground arith
    by_session (some t) e true d x y = ground arith
    by_session (some t) e false true x y = ground arith
    by_session (some t) e false false x y =
        subst (λ u. lookup same_session s (remember max v (some u) runs) ≡ some v)
          (sym (some_inj.0 e))
          (lookup-last s v (evict (one_at_least max) (delete same_session s runs)) (
            All-evict (λ r. not (same_session r.0 s) ≡ true) (one_at_least max)
              (delete same_session s runs) (All-filter_self (λ r. not (same_session r.0 s)) runs)))

-- However many sessions are remembered, the map stays within its bound.
pub length-remember-le :
    (max : ℕ) (v : Correlation) (runs : List (String × Correlation))
    → length runs ≤ one_at_least max
    → length (remember_inbound_run max v runs) ≤ one_at_least max
unfolding remember_inbound_run
length-remember-le max v runs h =
    by_session v.session_id (is_blank v.session_id || is_blank v.message_id)
  where
    one_or_more : (n : ℕ) → 1 ≤ one_at_least n
    one_or_more zero = omega arith
    one_or_more (suc n) = omega arith

    by_session :
        (o : Option String) (b : Bool)
        → length (if b then runs else remember max v o runs) ≤ one_at_least max
    by_session o true = h
    by_session none false = h
    by_session (some s) false = ground (
      arith,
      length-append (evict (one_at_least max) (delete same_session s runs)) ((s, v) ∷ []),
      length-evict-le (one_at_least max) (delete same_session s runs) (one_or_more max),
    )

lookup-delete :
    (s : String) (runs : List (String × Correlation))
    → lookup same_session s (delete same_session s runs) ≡ none
unfolding lookup delete
lookup-delete s [] = refl
lookup-delete s ((k, u) ∷ runs) = by_test (same_session k s) refl (lookup-delete s runs)
  where
    by_test :
        (b : Bool)
        → same_session k s ≡ b
        → lookup same_session s (delete same_session s runs) ≡ none
        → lookup same_session s
            (if not b then (k, u) ∷ delete same_session s runs else delete same_session s runs)
          ≡ none
    by_test true e r = r
    by_test false e r =
        ap (λ b. if b then some u else lookup same_session s (delete same_session s runs)) e ∙ r

-- What the dispatch `v` of the session `s` takes from the message `m`, and that the message is taken once.
abbrev pub IsCorrelated :
    String → Correlation → Correlation → Correlation × List (String × Correlation) → Type 0
IsCorrelated s v m p =
    (p.0.message_id ≡ m.message_id)
    × ((p.0.turn_id ≡ or_id v.turn_id m.turn_id) × (lookup same_session s p.1 ≡ none))

matched-IsCorrelated :
    (s : String) (v m : Correlation) (runs : List (String × Correlation))
    → v.message_id ≡ none
    → IsCorrelated s v m (matched v m, delete same_session s runs)
matched-IsCorrelated s v m runs g = (ground (arith, g), (ground (arith, g), lookup-delete s runs))

-- A dispatch without a message of its own is that of the message that its session received last, and takes its
-- run where it has none.
pub correlate-remember :
    (max : ℕ) (s : String) (m : Correlation) (runs : List (String × Correlation))
    (event context : Ids)
    → m.session_id ≡ some s
    → is_blank m.session_id ≡ false
    → is_blank m.message_id ≡ false
    → (correlation event context).session_id ≡ some s
    → (correlation event context).message_id ≡ none
    → IsCorrelated s
        (correlation event context)
        m
        (correlate_dispatch event context (remember_inbound_run max m runs))
unfolding correlate_dispatch delete
correlate-remember max s m runs event context h k n e g =
    let v = correlation event context in
    let kept = remember_inbound_run max m runs in
    subst (λ o. IsCorrelated s v m (correlate_in v o kept)) (sym e)
      (subst
        (λ b.
          IsCorrelated s v m
            (if b then (v, kept) else correlate_with v s (lookup same_session s kept) kept))
        (sym (subst (λ o. is_blank o ≡ false) h k))
        (subst (λ o. IsCorrelated s v m (correlate_with v s o kept))
          (sym (lookup-remember max s m runs h k n)) (matched-IsCorrelated s v m kept g)))
