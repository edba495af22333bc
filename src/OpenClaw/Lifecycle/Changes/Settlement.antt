-- ===== src/OpenClaw/Lifecycle/Changes/Settlement.antt =====
-- src/adapters/openclaw/hooks.js: `attemptPending`, `deferTerminal`, `complete` and `retire`, as sequences of
-- changes.
use sidewisp_plugin.Prelude.{
  ℕ, Bool, true, false, ◌≡◌, refl, sym, ap, ◌∙◌, Option, none, some, ◌∷◌, if◌then◌else◌,
}
use sidewisp_plugin.OpenClaw.Lifecycle.{Event, Key, Work, Config, Lifecycle, World, retarget, touch}
use sidewisp_plugin.OpenClaw.Lifecycle.Registry.{find, assign, clear_current}
use sidewisp_plugin.OpenClaw.Lifecycle.Settlement.{
  persisted, unpersisted, attempt_event, attempt_work, attempt_pending, Rivalry, keeps, gives_way,
  replaced, rivalry, with_preview, deferring, giving_way, defer_by, defer_terminal, completing,
  complete, retiring, retire,
}
use sidewisp_plugin.OpenClaw.Lifecycle.Changes.{
  IsUpdate, same_flags, ended, assigned, persisted_one, Changes, done, next, Leads, Changes-trans,
  one, answer,
}
use sidewisp_plugin.OpenClaw.Lifecycle.Changes.Removal.{suppress-Changes, clear_current-Changes}

unpersisted-IsUpdate :
    (c : Config) (now : ℕ) (w : Work) → w.terminal ≡ false → IsUpdate w (unpersisted c now w)
unpersisted-IsUpdate c now w h = same_flags w (unpersisted c now w) refl refl refl refl refl (sym h)

same_terminal : (v w : Work) → some v ≡ some w → v.terminal ≡ w.terminal
same_terminal v w h = ap (λ (o : Option Work). elim o [ none ↦ false | some u ↦ u.terminal ]) h

module _ (c : Config) (inbox : Bool) where
  -- An assignment that keeps the flags, and one that ends the work.
  pub assign-Changes :
      (key : Key) (f : Work → Work) (l : Lifecycle)
      → ((w : Work) → IsUpdate w (f w))
      → Changes c inbox l (assign key f l)
  assign-Changes key f l h = one c inbox (assigned key f (λ w e. h w))

  pub touch-Changes :
      (now : ℕ) (key : Key) (l : Lifecycle) → Changes c inbox l (assign key (touch now) l)
  touch-Changes now key l =
      assign-Changes key (touch now) l (λ w. same_flags w _ refl refl refl refl refl refl)

  attempt_event-Changes :
      (world : World) (key : Key) (w : Work) (p : Option Event) (l : Lifecycle)
      → find key l ≡ some w
      → Changes c inbox l (attempt_event c world key w p l).0
  attempt_event-Changes world key w none l h = done
  attempt_event-Changes world key w (some e) l h = by_tests w.terminal refl (world.persists e)
    where
      by_tests :
          (b : Bool)
          → w.terminal ≡ b
          → (p : Bool)
          → Changes c inbox l
              (if◌then◌else◌ {A = Lifecycle × Bool} b
                (l, false)
                (if p
                  then (
                    clear_current key w (record l {
                      records = (assign key (persisted e) l).records;
                      deferred = e ∷ l.deferred;
                    }),
                    true,
                  )
                  else (assign key (unpersisted c world.now) l, false))).0
      by_tests true t p = done
      by_tests false t true =
          Changes-trans c inbox
            (assign-Changes key (persisted e) l (λ v. ended v _ refl refl refl refl refl refl))
            (next (persisted_one e) (clear_current-Changes c inbox key w _))
      by_tests false t false = one c inbox (
          assigned key (unpersisted c world.now)
            (λ v k. unpersisted-IsUpdate c world.now v (same_terminal v w (sym k ∙ h) ∙ t)))

  pub attempt_pending-Changes :
      (world : World) (key : Key) (l : Lifecycle)
      → Changes c inbox l (attempt_pending c world key l).0
  unfolding attempt_pending
  attempt_pending-Changes world key l = by_find (find key l) refl
    where
      by_find :
          (o : Option Work) → find key l ≡ o → Changes c inbox l (attempt_work c world key o l).0
      by_find none h = done
      by_find (some w) h = attempt_event-Changes world key w w.pending l h

  defer_by-Changes :
      (world : World) (key : Key) (w : Work) (e : Event) (r : Rivalry) (l : Lifecycle)
      → Leads c inbox l (defer_by c world key w e r l)
  defer_by-Changes world key w e keeps l = answer c inbox done
  defer_by-Changes world key w e gives_way l = answer c inbox (
      Changes-trans c inbox (suppress-Changes c inbox w.pending l) (
        Changes-trans c inbox
          (assign-Changes key
            (giving_way world.now (retarget l.copies (with_preview w.pending e) w)) _
            (λ v. same_flags v _ refl refl refl refl refl refl))
          (attempt_pending-Changes world key _)))
  defer_by-Changes world key w e (replaced deadline) l = answer c inbox (
      Changes-trans c inbox (suppress-Changes c inbox w.pending l) (
        assign-Changes key (deferring c world.now e deadline (retarget l.copies e w)) _
          (λ v. same_flags v _ refl refl refl refl refl refl)))

  pub defer_terminal-Changes :
      (world : World) (key : Key) (w : Work) (e : Event) (l : Lifecycle)
      → Leads c inbox l (defer_terminal c world key w e l)
  unfolding defer_terminal
  defer_terminal-Changes world key w e l = defer_by-Changes world key w e (rivalry w e) l

  pub complete-Changes :
      (now : ℕ) (key : Key) (w : Work) (e : Event) (l : Lifecycle)
      → Changes c inbox l (complete now key w e l)
  unfolding complete
  complete-Changes now key w e l =
      Changes-trans c inbox
        (assign-Changes key (completing now e) l (λ v. ended v _ refl refl refl refl refl refl))
        (clear_current-Changes c inbox key w _)

  pub retire-Changes :
      (now : ℕ) (key : Key) (w : Work) (l : Lifecycle) → Changes c inbox l (retire now key w l)
  unfolding retire
  retire-Changes now key w l = Changes-trans c inbox (suppress-Changes c inbox w.pending l) (
      Changes-trans c inbox
        (assign-Changes key (retiring now) _ (λ v. ended v _ refl refl refl refl refl refl))
        (clear_current-Changes c inbox key w _))
