-- ===== src/OpenClaw/Lifecycle/Changes/Admission.antt =====
-- src/adapters/openclaw/hooks.js: the branches for an inbound message, as sequences of changes.
use sidewisp_plugin.Prelude.{
  ℕ, ◌≤◌, String, Bool, true, false, ◌≡◌, refl, sym, ◌∙◌, ◌<◌, length-append, Option, none, some,
  List, [], ◌∷◌, ◌++◌, if◌then◌else◌, length, All, arith, length-append,
}
use mathlib.Core.Path.{subst}
use sidewisp_plugin.Prelude.Assoc.{
  evict, lookup, length-evict-le, length-delete-lt, lookup-All, All-evict,
}
use sidewisp_plugin.OpenClaw.Lifecycle.{
  Event, Key, task_key, Work, Inbound, Config, Lifecycle, World, same_string,
}
use sidewisp_plugin.OpenClaw.Lifecycle.Registry.{find, remove, remember_retired, track, with_outer}
use sidewisp_plugin.OpenClaw.Lifecycle.Settlement.{attempt_pending, retire}
use sidewisp_plugin.OpenClaw.Lifecycle.Admission.{
  of_message, put_inbound, observe_ids, observe, Displaced, nobody, kept, snapshot, detach,
  reattach, set_current, reinstate, reinstate_found, bind_work, reinstate_tracked, restore_previous,
  may_attempt, set_aside, after_attempt, displace_by, unless_continuation, displace_found, displace,
  new_task, give_back, runs_of, admit_tracked, take_inbound, admit, dispatch_ids, dispatch,
}
use sidewisp_plugin.OpenClaw.Lifecycle.Changes.{
  HasFewRuns, IsSmall, IsInbox, same_flags, received, pointed, Changes, done, Leads, Changes-trans,
  one, quiet-Changes, either_way, answer, first, either_answer,
}
use sidewisp_plugin.OpenClaw.Lifecycle.Changes.Bounds.{IsBounded, Changes-IsBounded, find-IsSmall}
use sidewisp_plugin.OpenClaw.Lifecycle.Changes.Registry.{
  track-Changes, bind-Changes, bind_all-Changes, forget_retired-Changes,
}
use sidewisp_plugin.OpenClaw.Lifecycle.Changes.Removal.{
  clear_current-Changes, remember_retired_runs-Changes, drop_inbound-Changes, remove-Changes,
  IsInbox-delete,
}
use sidewisp_plugin.OpenClaw.Lifecycle.Changes.Settlement.{
  assign-Changes, attempt_pending-Changes, retire-Changes,
}

All-snoc :
    {A : Type 0} (P : A → Type 0) (xs : List A) (x : A) → All P xs → P x → All P (xs ++ x ∷ [])
All-snoc P [] x h k = (k, tt)
All-snoc P (y ∷ xs) x h k = (h.0, All-snoc P xs x h.1 k)

IsInbox-put :
    (c : Config) (s : String) (p : Inbound) (entries : List (String × Inbound))
    → 1 ≤ c.max_runs
    → HasFewRuns p
    → IsInbox c entries
    → IsInbox c (evict c.max_runs entries ++ (s, p) ∷ [])
IsInbox-put c s p entries h k i = (
  ground (
    arith,
    length-append (evict c.max_runs entries) ((s, p) ∷ []),
    length-evict-le c.max_runs entries h,
  ),
  All-snoc (λ e. HasFewRuns e.1) _ (s, p) (All-evict (λ e. HasFewRuns e.1) c.max_runs entries i.1)
      k,
)

-- The snapshot of a displaced task is as small as the task.
abbrev IsSmallDisplaced : Displaced → Type 0
IsSmallDisplaced nobody = Unit
IsSmallDisplaced (kept key) = Unit
IsSmallDisplaced (snapshot key w) = IsSmall w

module _ (c : Config) (inbox : Bool) (has_room : 1 ≤ c.max_runs) where
  pub set_current-Changes :
      (s : Option String) (key : Key) (l : Lifecycle) → Changes c inbox l (set_current s key l)
  set_current-Changes none key l = done
  set_current-Changes (some s) key l = one c inbox (pointed _)

  reinstate-Changes : (key : Key) (w : Work) (l : Lifecycle) → Changes c inbox l (reinstate key w l)
  reinstate-Changes key w l = either_way c inbox _ done (
      Changes-trans c inbox
        (assign-Changes c inbox key reattach l (λ v. same_flags v _ refl refl refl refl refl refl))
        (set_current-Changes w.session_id key _))

  reinstate_found-Changes :
      (key : Key) (o : Option Work) (l : Lifecycle) → Changes c inbox l (reinstate_found key o l)
  reinstate_found-Changes key none l = done
  reinstate_found-Changes key (some w) l = reinstate-Changes key w l

  pub bind_work-Changes :
      (key : Key) (w : Work) (runs : List String) (l : Lifecycle)
      → Changes c inbox l (bind_work c key w runs l)
  bind_work-Changes key w runs l =
      Changes-trans c inbox (bind-Changes c inbox w.session_id key w.outer_run_id l has_room)
        (bind_all-Changes c inbox w.session_id key runs _ has_room)

  reinstate_tracked-Changes :
      (key : Key) (w : Work) (p : Lifecycle × Bool)
      → Changes c inbox p.0 (reinstate_tracked c key w p)
  reinstate_tracked-Changes key w (l, false) = done
  reinstate_tracked-Changes key w (l, true) =
      Changes-trans c inbox (forget_retired-Changes c inbox w l) (
        Changes-trans c inbox (bind_work-Changes key w w.internal_run_ids _)
          (reinstate-Changes key w _))

  restore_previous-Changes :
      (d : Displaced) (l : Lifecycle)
      → IsSmallDisplaced d
      → Changes c inbox l (restore_previous c d l)
  unfolding restore_previous
  restore_previous-Changes nobody l h = done
  restore_previous-Changes (kept key) l h = reinstate_found-Changes key (find key l) l
  restore_previous-Changes (snapshot key w) l h =
      either_way c inbox _ (reinstate_found-Changes key (find key l) l) (
        Changes-trans c inbox (track-Changes c inbox key w l h)
          (reinstate_tracked-Changes key w (track c key w l)))

  set_aside-Changes : (key : Key) (w : Work) (l : Lifecycle) → Leads c inbox l (set_aside key w l)
  set_aside-Changes key w l = answer c inbox (
      Changes-trans c inbox
        (assign-Changes c inbox key detach l (λ v. same_flags v _ refl refl refl refl refl refl))
        (clear_current-Changes c inbox key w _))

  after_attempt-Changes :
      (key : Key) (w : Work) (p : Lifecycle × Bool) → Leads c inbox p.0 (after_attempt c key w p)
  after_attempt-Changes key w (l, true) = answer c inbox (
      Changes-trans c inbox
        (remember_retired_runs-Changes c inbox w.session_id
          (with_outer w.internal_run_ids w.outer_run_id) l)
        (remove-Changes c inbox key _))
  after_attempt-Changes key w (l, false) = set_aside-Changes key w l

  displace_by-Changes :
      (world : World) (key : Key) (w : Work) (p : Option Event) (l : Lifecycle)
      → Leads c inbox l (displace_by c world key w p l)
  displace_by-Changes world key w none l = either_answer c inbox _ (set_aside-Changes key w l) (
      answer c inbox (
        Changes-trans c inbox (retire-Changes c inbox world.now key w l) (
          Changes-trans c inbox
            (remember_retired_runs-Changes c inbox w.session_id
              (with_outer w.internal_run_ids w.outer_run_id) _)
            (remove-Changes c inbox key _))))
  displace_by-Changes world key w (some p) l =
      either_answer c inbox _
        (first c inbox (attempt_pending-Changes c inbox world key l)
          (after_attempt-Changes key w (attempt_pending c world key l)))
        (set_aside-Changes key w l)

  displace_by-IsSmall :
      (world : World) (key : Key) (w : Work) (p : Option Event) (l : Lifecycle)
      → IsSmall w
      → IsSmallDisplaced (displace_by c world key w p l).1
  displace_by-IsSmall world key w none l h = by_started w.started
    where
      by_started :
          (b : Bool)
          → IsSmallDisplaced
              (if◌then◌else◌ {A = Lifecycle × Displaced} b
                (set_aside key w l)
                (remove key (remember_retired c w (retire world.now key w l)), snapshot key w)).1
      by_started true = tt
      by_started false = h
  displace_by-IsSmall world key w (some p) l h =
      by_attempt (may_attempt world.now w p) (attempt_pending c world key l)
    where
      by_attempt :
          (b : Bool) (q : Lifecycle × Bool)
          → IsSmallDisplaced (if b then after_attempt c key w q else set_aside key w l).1
      by_attempt true (m, true) = tt
      by_attempt true (m, false) = tt
      by_attempt false q = tt

  displace_found-Changes :
      (world : World) (key : Key) (o : Option Work) (l : Lifecycle)
      → Leads c inbox l (displace_found c world key o l)
  displace_found-Changes world key none l = answer c inbox done
  displace_found-Changes world key (some w) l =
      either_answer c inbox _ (answer c inbox done) (displace_by-Changes world key w _ l)

  displace_found-IsSmall :
      (world : World) (key : Key) (o : Option Work) (l : Lifecycle)
      → ((w : Work) → o ≡ some w → IsSmall w)
      → IsSmallDisplaced (displace_found c world key o l).1
  displace_found-IsSmall world key none l h = tt
  displace_found-IsSmall world key (some w) l h =
      by_terminal w.terminal
        (displace_by-IsSmall world key w (unless_continuation w.pending) l (h w refl))
    where
      by_terminal :
          (b : Bool)
          → IsSmallDisplaced (displace_by c world key w (unless_continuation w.pending) l).1
          → IsSmallDisplaced
              (if b
                then (l, nobody)
                else displace_by c world key w (unless_continuation w.pending) l).1
      by_terminal true g = tt
      by_terminal false g = g

  displace-Changes :
      (world : World) (o : Option Key) (l : Lifecycle) → Leads c inbox l (displace c world o l)
  unfolding displace
  displace-Changes world none l = answer c inbox done
  displace-Changes world (some key) l = displace_found-Changes world key (find key l) l

  displace-IsSmall :
      (world : World) (o : Option Key) (l : Lifecycle)
      → IsBounded c l
      → IsSmallDisplaced (displace c world o l).1
  unfolding displace
  displace-IsSmall world none l h = tt
  displace-IsSmall world (some key) l h =
      displace_found-IsSmall world key (find key l) l (λ w e. find-IsSmall c l key w h e)

module _ (c : Config) (has_room : 1 ≤ c.max_runs) where
  put_inbound-Changes :
      (now : ℕ) (e : Event) (s m : String) (l : Lifecycle)
      → Changes c true l (put_inbound c now e s m l)
  put_inbound-Changes now e s m l =
      either_way c true _ (one c true (received _ refl (IsInbox-delete c s l.inbound))) (
        one c true (
          received _ refl
            (λ i. IsInbox-put c s _ _ has_room (omega arith) (IsInbox-delete c s l.inbound i))))

  observe_ids-Changes :
      (now : ℕ) (e : Event) (s m : Option String) (l : Lifecycle)
      → Changes c true l (observe_ids c now e s m l)
  observe_ids-Changes now e none m l = done
  observe_ids-Changes now e (some s) none l = done
  observe_ids-Changes now e (some s) (some m) l =
      either_way c true _ done (put_inbound-Changes now e s m l)

  pub observe-Changes : (now : ℕ) (e : Event) (l : Lifecycle) → Changes c true l (observe c now e l)
  unfolding observe
  observe-Changes now e l = observe_ids-Changes now e e.session_id e.message_id l

-- The message that a session has pending holds few runs.
abbrev HasFew : Option Inbound → Type 0
HasFew none = Unit
HasFew (some p) = HasFewRuns p

-- There is room to give the message back, where there is one.
abbrev HasPlace : Config → Option Inbound → Lifecycle → Type 0
HasPlace c none l = Unit
HasPlace c (some p) l = length l.inbound < c.max_runs

module _ (c : Config) (has_room : 1 ≤ c.max_runs) where
  take_inbound-Changes :
      (s : String) (own : Option Inbound) (l : Lifecycle) → Changes c true l (take_inbound s own l)
  take_inbound-Changes s none l = done
  take_inbound-Changes s (some p) l = one c true (received _ refl (IsInbox-delete c s l.inbound))

  take_inbound-HasPlace :
      (s : String) (own : Option Inbound) (l : Lifecycle)
      → IsBounded c l
      → ((p : Inbound) → own ≡ some p → lookup same_string s l.inbound ≡ some p)
      → HasPlace c own (take_inbound s own l)
  take_inbound-HasPlace s none l b h = tt
  take_inbound-HasPlace s (some p) l b h =
      ground (arith, b.few_inbound.0, length-delete-lt same_string s p l.inbound (h p refl))

  HasPlace-quiet :
      (own : Option Inbound) (l m : Lifecycle)
      → m.inbound ≡ l.inbound
      → HasPlace c own l
      → HasPlace c own m
  HasPlace-quiet none l m e h = tt
  HasPlace-quiet (some p) l m e h = subst (λ i. length i < c.max_runs) (sym e) h

  give_back-Changes :
      (s : String) (own : Option Inbound) (l : Lifecycle)
      → HasFew own
      → HasPlace c own l
      → Changes c true l (give_back s own l)
  give_back-Changes s none l h k = done
  give_back-Changes s (some p) l h k = by_lookup (lookup same_string s l.inbound)
    where
      by_lookup :
          (o : Option Inbound)
          → Changes c true l
              (elim o [ none ↦ record l { inbound = l.inbound ++ (s, p) ∷ [] } | some _ ↦ l ])
      by_lookup none = one c true (
          received _ refl (λ i. (
            ground (arith, k, length-append l.inbound ((s, p) ∷ [])),
            All-snoc (λ e. HasFewRuns e.1) l.inbound (s, p) i.1 h,
          )))
      by_lookup (some q) = done

  admit_tracked-Changes :
      (e : Event) (s : String) (key : Key) (w : Work) (own : Option Inbound) (d : Displaced)
      (p : Lifecycle × Bool)
      → HasFew own
      → HasPlace c own p.0
      → IsSmallDisplaced d
      → Leads c true p.0 (admit_tracked c e s key w own d p)
  admit_tracked-Changes e s key w own d (l, false) h k i = answer c true (
      Changes-trans c true (give_back-Changes s own l h k)
        (restore_previous-Changes c true has_room d _ i))
  admit_tracked-Changes e s key w own d (l, true) h k i = answer c true (
      Changes-trans c true (set_current-Changes c true has_room (some s) key l)
        (bind_work-Changes c true has_room key w w.internal_run_ids _))

  IsSmall-runs_of : (own : Option Inbound) → HasFew own → length (runs_of own) ≤ 64
  IsSmall-runs_of none h = omega arith
  IsSmall-runs_of (some p) h = h

  admit-Changes :
      (world : World) (e : Event) (s m : String) (own : Option Inbound) (l : Lifecycle)
      → IsBounded c l
      → HasFew own
      → ((p : Inbound) → own ≡ some p → lookup same_string s l.inbound ≡ some p)
      → Leads c true l (admit c world e s m own l)
  unfolding admit
  admit-Changes world e s m own l b h k =
      let key = task_key s m in
      let w = new_task world.now s m e.turn_id (runs_of own) in
      let current = lookup same_string s l.current in
      let taken = take_inbound s own l in
      let takes = take_inbound-Changes s own l in
      let displaced = displace c world current taken in
      let small = IsSmall-runs_of own h in
      let quiet =
        quiet-Changes c (track-Changes c false key w displaced.0 small)
        ∙ quiet-Changes c (displace-Changes c false has_room world current taken).changes in
      first c true
        (Changes-trans c true takes (
          Changes-trans c true (displace-Changes c true has_room world current taken).changes
            (track-Changes c true key w displaced.0 small)))
        (admit_tracked-Changes e s key w own displaced.1 (track c key w displaced.0) h
          (HasPlace-quiet own taken _ quiet (take_inbound-HasPlace s own l b k))
          (displace-IsSmall c true has_room world current taken (Changes-IsBounded c true takes b)))

  of_message-owned :
      (m : Option String) (o : Option Inbound) (p : Inbound) → of_message m o ≡ some p → o ≡ some p
  of_message-owned none o p h = ground arith
  of_message-owned (some m) none p h = ground arith
  of_message-owned (some m) (some q) p h = ground (arith, h)

  HasFew-lookup :
      (s : String) (l : Lifecycle) (own : Option Inbound)
      → IsBounded c l
      → ((p : Inbound) → own ≡ some p → lookup same_string s l.inbound ≡ some p)
      → HasFew own
  HasFew-lookup s l none b h = tt
  HasFew-lookup s l (some p) b h =
      lookup-All same_string HasFewRuns s p l.inbound b.few_inbound.1 (h p refl)

  dispatch_ids-Changes :
      (world : World) (e : Event) (s m : Option String) (l : Lifecycle)
      → IsBounded c l
      → Leads c true l (dispatch_ids c world e s m l)
  dispatch_ids-Changes world e none m l b = answer c true done
  dispatch_ids-Changes world e (some s) none l b = answer c true done
  dispatch_ids-Changes world e (some s) (some m) l b =
      let owned = of_message-owned (some m) (lookup same_string s l.inbound) in
      either_answer c true _ (answer c true (drop_inbound-Changes c world.now (some s) _ l))
        (admit-Changes world e s m _ l b (HasFew-lookup s l _ b owned) owned)

  pub dispatch-Changes :
      (world : World) (e : Event) (l : Lifecycle)
      → IsBounded c l
      → Leads c true l (dispatch c world e l)
  unfolding dispatch
  dispatch-Changes world e l b = dispatch_ids-Changes world e e.session_id e.message_id l b
