-- ===== src/OpenClaw/Lifecycle/Retries.antt =====
-- src/adapters/openclaw/hooks.js: the timer of a pending terminal, `attemptPending` and its retries.
use sidewisp_plugin.Prelude.{
  ℕ, ◌+◌, ◌≤◌, Bool, true, false, ◌≡◌, refl, ap, sym, ◌∙◌, ◌⊎◌, inl, inr, none, some, ◌∷◌,
  if◌then◌else◌, arith,
}
use mathlib.Core.Path.{subst}
use sidewisp_plugin.Prelude.Assoc.{lookup, lookup-modify}
use sidewisp_plugin.OpenClaw.Lifecycle.{Event, Key, same_key, Work, Config, Lifecycle, World}
use sidewisp_plugin.OpenClaw.Lifecycle.Registry.{find, assign, clear_current}
use sidewisp_plugin.OpenClaw.Lifecycle.Settlement.{
  persisted, later, retry_at, unpersisted, timer_of, attempt_event, attempt_work, attempt_pending,
}
use sidewisp_plugin.OpenClaw.Lifecycle.ActiveWork.{is_due, fired, fire_work, fire_timer}

pub clear_current-records :
    (key : Key) (w : Work) (l : Lifecycle) → (clear_current key w l).records ≡ l.records
clear_current-records key w l = ground arith

clear_current-deferred :
    (key : Key) (w : Work) (l : Lifecycle) → (clear_current key w l).deferred ≡ l.deferred
clear_current-deferred key w l = ground arith

-- The delay of a retry is positive where the base is, and never above the maximum.
retry_at-bounds :
    (c : Config) (now n : ℕ)
    → (now ≤ retry_at c now n) × (retry_at c now n ≤ now + c.persist_retry_max_ms)
unfolding retry_at
retry_at-bounds c now n = (omega arith, omega arith)

-- What an attempt makes of the record `w` with the pending terminal `e`.
abbrev pub IsPersisted : Key → Event → Lifecycle → Lifecycle → Type 0
IsPersisted key e l m =
    ((v : Work) × ((find key m ≡ some v)
        × ((v.terminal ≡ true) × ((v.terminal_event ≡ some e) × (v.pending ≡ none)))))
    × (m.deferred ≡ e ∷ l.deferred)

abbrev pub IsRescheduled : Config → ℕ → Key → Event → Lifecycle → Lifecycle → Type 0
IsRescheduled c now key e l m =
    ((v : Work) × (d : ℕ) × ((find key m ≡ some v)
        × ((v.terminal ≡ false)
            × ((v.pending ≡ some e)
                × ((v.timer ≡ some d) × ((now ≤ d) × (d ≤ now + c.persist_retry_max_ms)))))))
    × (m.deferred ≡ l.deferred)

module _ (c : Config) (world : World) (key : Key) (w : Work) (e : Event) where
  attempt-IsPersisted :
      (l : Lifecycle)
      → find key l ≡ some w
      → IsPersisted key e l (
          clear_current key w (record l {
            records = (assign key (persisted e) l).records;
            deferred = e ∷ l.deferred;
          }))
  attempt-IsPersisted l h =
      let m = record l {
        records = (assign key (persisted e) l).records;
        deferred = e ∷ l.deferred;
      } in
      (
        (
          persisted e w,
          (
            ap (lookup same_key key) (clear_current-records key w m)
                ∙ lookup-modify same_key key (persisted e) l.records w h,
            (refl, (refl, refl)),
          ),
        ),
        clear_current-deferred key w m,
      )

  attempt-IsRescheduled :
      (l : Lifecycle)
      → find key l ≡ some w
      → w.pending ≡ some e
      → IsRescheduled c world.now key e l (assign key (unpersisted c world.now) l)
  attempt-IsRescheduled l h p =
      let at = retry_at c world.now (w.persist_attempts + 1) in
      let within = retry_at-bounds c world.now (w.persist_attempts + 1) in
      (
        (
          unpersisted c world.now w,
          later world.now at,
          (
            lookup-modify same_key key (unpersisted c world.now) l.records w h,
            (
              refl,
              (
                p,
                (
                  ap (λ o. timer_of world.now o (some at)) p,
                  (ground (arith, within), ground (arith, within)),
                ),
              ),
            ),
          ),
        ),
        refl,
      )

  -- The two outcomes of an attempt to persist the pending terminal.
  abbrev pub Outcomes : Lifecycle → Lifecycle → Type 0
  Outcomes l m =
      ((world.persists e ≡ true) × IsPersisted key e l m)
      ⊎ ((world.persists e ≡ false) × IsRescheduled c world.now key e l m)

  attempt_event-Outcomes :
      (l : Lifecycle)
      → find key l ≡ some w
      → w.pending ≡ some e
      → w.terminal ≡ false
      → Outcomes l (attempt_event c world key w (some e) l).0
  attempt_event-Outcomes l h p t = by_tests w.terminal (world.persists e) t
    where
      outcome : Bool → Bool → Lifecycle
      outcome b q =
          (if◌then◌else◌ {A = Lifecycle × Bool} b (l, false)
            (if q
              then (
                clear_current key w (record l {
                  records = (assign key (persisted e) l).records;
                  deferred = e ∷ l.deferred;
                }),
                true,
              )
              else (assign key (unpersisted c world.now) l, false))).0

      by_tests :
          (b q : Bool)
          → b ≡ false
          → ((q ≡ true) × IsPersisted key e l (outcome b q))
            ⊎ ((q ≡ false) × IsRescheduled c world.now key e l (outcome b q))
      by_tests true q k = ground arith
      by_tests false true k = inl (refl, attempt-IsPersisted l h)
      by_tests false false k = inr (refl, attempt-IsRescheduled l h p)

  pub attempt_pending-Outcomes :
      (l : Lifecycle)
      → find key l ≡ some w
      → w.pending ≡ some e
      → w.terminal ≡ false
      → Outcomes l (attempt_pending c world key l).0
  unfolding attempt_pending
  attempt_pending-Outcomes l h p t =
      subst (λ o. Outcomes l (attempt_work c world key o l).0) (sym h)
        (subst (λ q. Outcomes l (attempt_event c world key w q l).0) (sym p)
          (attempt_event-Outcomes l h p t))

module _ (c : Config) (world : World) (key : Key) (w : Work) (e : Event) where
  -- When the timer of a pending terminal fires, the terminal is persisted and ends its record, or it stays pending and
  -- fires again within the longest back-off.
  pub fire_timer-Outcomes :
      (l : Lifecycle)
      → find key l ≡ some w
      → w.pending ≡ some e
      → w.terminal ≡ false
      → is_due world.now w ≡ true
      → Outcomes c world key w e l (fire_timer c world key l)
  unfolding fire_timer
  fire_timer-Outcomes l h p t d =
      let m = assign key fired l in
      let found_fired = lookup-modify same_key key fired l.records w h in
      let outcomes = attempt_pending-Outcomes c world key (fired w) e m found_fired p t in
      subst (λ o. Outcomes c world key w e l (fire_work c world key o l)) (sym h)
        (subst
          (λ b. Outcomes c world key w e l (if b then (attempt_pending c world key m).0 else l))
          (sym d) outcomes)
