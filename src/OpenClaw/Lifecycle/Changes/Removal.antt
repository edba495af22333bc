-- ===== src/OpenClaw/Lifecycle/Changes/Removal.antt =====
-- src/adapters/openclaw/hooks.js: retiring, removing and pruning a record are permitted changes.
use sidewisp_plugin.Prelude.{
  ℕ, ◌+◌, ◌≤◌, String, Bool, true, false, not, ◌≡◌, refl, Option, none, some, List, [], ◌∷◌, ◌++◌,
  ltb, if◌then◌else◌, length, arith, length-append, length-filter-le, All-filter,
}
use sidewisp_plugin.Prelude.Assoc.{evict, delete, drop_key, length-evict-le, length-delete-le}
use sidewisp_plugin.OpenClaw.Lifecycle.{
  Event, Key, same_key, run_key, or_blank, task_key, Work, Inbound, Config, Lifecycle, same_string,
  suppress,
}
use sidewisp_plugin.OpenClaw.Lifecycle.Registry.{
  find, add_retired, add_retired_runs, remember_retired_runs, with_outer, retire_inbound,
  drop_inbound, clear_current, drop_record, remove, prune_records, prune_inbound, prune,
}
use sidewisp_plugin.OpenClaw.Lifecycle.Changes.{
  HasFewRuns, IsInbox, removed, bound, retired_runs, received, retired_messages, pointed,
  suppressed_one, Changes, done, next, Changes-trans, one, either_way,
}

pub suppress-Changes :
    (c : Config) (inbox : Bool) (p : Option Event) (l : Lifecycle)
    → Changes c inbox l (suppress p l)
suppress-Changes c inbox none l = done
suppress-Changes c inbox (some e) l = one c inbox (suppressed_one e)

pub clear_current-Changes :
    (c : Config) (inbox : Bool) (key : Key) (w : Work) (l : Lifecycle)
    → Changes c inbox l (clear_current key w l)
clear_current-Changes c inbox key w l = either_way c inbox _ (one c inbox (pointed _)) done

at_most : {i j k : ℕ} → i ≤ j → j ≤ k → i ≤ k
at_most h k = omega arith

length-add_retired-le :
    (c : Config) (key : Key) (keys : List Key)
    → 1 ≤ c.max_runs
    → length (add_retired c key keys) ≤ c.max_runs
length-add_retired-le c key keys h = ground (
  arith,
  length-append (evict c.max_runs (drop_key same_key key keys)) (key ∷ []),
  length-evict-le c.max_runs (drop_key same_key key keys) h,
)

length-add_retired_runs-le :
    (c : Config) (session : Option String) (runs : List String) (keys : List Key)
    → 1 ≤ c.max_runs
    → length keys ≤ c.max_runs
    → length (add_retired_runs c session runs keys) ≤ c.max_runs
length-add_retired_runs-le c session [] keys h k = k
length-add_retired_runs-le c session (r ∷ runs) keys h k =
    length-add_retired_runs-le c session runs _ h
      (length-add_retired-le c (run_key (or_blank session) r) keys h)

pub remember_retired_runs-Changes :
    (c : Config) (inbox : Bool) (session : Option String) (runs : List String) (l : Lifecycle)
    → Changes c inbox l (remember_retired_runs c session runs l)
unfolding remember_retired_runs
remember_retired_runs-Changes c inbox session runs l = by_max (ltb c.max_runs 1) refl
  where
    by_max :
        (b : Bool)
        → ltb c.max_runs 1 ≡ b
        → Changes c inbox l (
            if b
            then l
            else record l { retired_bindings = add_retired_runs c session runs l.retired_bindings })
    by_max true h = done
    by_max false h = one c inbox (
        retired_runs _
          (length-add_retired_runs-le c session runs l.retired_bindings (ground arith)))

pub length-after_evict-le :
    {A : Type 0} (max : ℕ) (xs : List A) (x : A) → 1 ≤ max → length (evict max xs ++ x ∷ []) ≤ max
length-after_evict-le max xs x h =
    ground (arith, length-append (evict max xs) (x ∷ []), length-evict-le max xs h)

pub retire_inbound-Changes :
    (c : Config) (inbox : Bool) (now : ℕ) (session : String) (p : Inbound) (l : Lifecycle)
    → Changes c inbox l (retire_inbound c now session p l)
unfolding retire_inbound
retire_inbound-Changes c inbox now session p l =
    Changes-trans c inbox
      (remember_retired_runs-Changes c inbox (some session) (with_outer p.run_ids p.outer_run) l)
      (by_max _ (ltb c.max_runs 1) refl)
  where
    by_max :
        (m : Lifecycle) (b : Bool)
        → ltb c.max_runs 1 ≡ b
        → Changes c inbox m (
            if b then m else record m {
              retired_inbound =
                  evict c.max_runs
                    (delete same_key (task_key session p.inbound_message) m.retired_inbound)
                  ++ (task_key session p.inbound_message, now + c.ttl_ms) ∷ [];
            })
    by_max m true h = done
    by_max m false h =
        one c inbox (retired_messages _ (λ k. length-after_evict-le c.max_runs _ _ (ground arith)))

pub IsInbox-delete :
    (c : Config) (s : String) (entries : List (String × Inbound))
    → IsInbox c entries
    → IsInbox c (delete same_string s entries)
unfolding delete
IsInbox-delete c s entries h = (
  ground (arith, h.0, length-delete-le same_string s entries),
  All-filter (λ e. HasFewRuns e.1) (λ e. not (same_string e.0 s)) entries h.1,
)

pub drop_inbound-Changes :
    (c : Config) (now : ℕ) (session : Option String) (p : Option Inbound) (l : Lifecycle)
    → Changes c true l (drop_inbound c now session p l)
drop_inbound-Changes c now none p l = done
drop_inbound-Changes c now (some s) none l = done
drop_inbound-Changes c now (some s) (some p) l =
    Changes-trans c true (retire_inbound-Changes c true now s p l)
      (one c true (received _ refl (IsInbox-delete c s _)))

drop_record-Changes :
    (c : Config) (inbox : Bool) (key : Key) (w : Option Work) (l : Lifecycle)
    → Changes c inbox l (drop_record key w l)
drop_record-Changes c inbox key none l = done
drop_record-Changes c inbox key (some w) l =
    Changes-trans c inbox (suppress-Changes c inbox w.pending l) (
      Changes-trans c inbox (clear_current-Changes c inbox key w _) (
        next (bound _ (at_most (length-filter-le {A = Key × Key} (λ b. not (same_key b.1 key)) _)))
          (one c inbox (removed key))))

pub remove-Changes :
    (c : Config) (inbox : Bool) (key : Key) (l : Lifecycle) → Changes c inbox l (remove key l)
unfolding remove
remove-Changes c inbox key l = drop_record-Changes c inbox key (find key l) l

prune_records-Changes :
    (c : Config) (inbox : Bool) (now : ℕ) (entries : List (Key × Work)) (l : Lifecycle)
    → Changes c inbox l (prune_records c now entries l)
prune_records-Changes c inbox now [] l = done
prune_records-Changes c inbox now ((key, w) ∷ entries) l =
    Changes-trans c inbox (either_way c inbox _ (remove-Changes c inbox key l) done)
      (prune_records-Changes c inbox now entries _)

prune_inbound-Changes :
    (c : Config) (now : ℕ) (entries : List (String × Inbound)) (l : Lifecycle)
    → Changes c true l (prune_inbound c now entries l)
prune_inbound-Changes c now [] l = done
prune_inbound-Changes c now ((s, p) ∷ entries) l =
    Changes-trans c true (either_way c true _ done (drop_inbound-Changes c now (some s) (some p) l))
      (prune_inbound-Changes c now entries _)

pub prune-Changes : (c : Config) (now : ℕ) (l : Lifecycle) → Changes c true l (prune c now l)
unfolding prune
prune-Changes c now l = Changes-trans c true (prune_records-Changes c true now l.records l) (
    Changes-trans c true (prune_inbound-Changes c now (prune_records c now l.records l).inbound _) (
      one c true
        (retired_messages _ (at_most (length-filter-le {A = Key × ℕ} (λ e. ltb now e.1) _)))))
