-- ===== src/OpenClaw/Lifecycle/Changes/Registry.antt =====
-- src/adapters/openclaw/hooks.js: the maps of the task lifecycle, as sequences of changes.
use sidewisp_plugin.Prelude.{
  ℕ, zero, suc, ◌≤◌, ◌<◌, String, Bool, true, false, ◌≡◌, refl, Option, none, some, List, [], ◌∷◌,
  ◌++◌, ltb, if◌then◌else◌, length, arith, length-append,
}
use sidewisp_plugin.Prelude.Assoc.{drop_key, length-drop_key-le}
use sidewisp_plugin.OpenClaw.Lifecycle.{Key, same_key, run_key, or_blank, Work, Config, Lifecycle}
use sidewisp_plugin.OpenClaw.Lifecycle.Registry.{
  with_outer, remove, evictable, make_room, add_record, track, push_run, note_run, bind, bind_all,
  drop_retired_runs, forget_retired,
}
use sidewisp_plugin.OpenClaw.Lifecycle.Changes.{
  IsSmall, IsUpdate, IsUpdate_refl, assigned, added, bound, retired_runs, Changes, done, next,
  Changes-trans, one,
}
use sidewisp_plugin.OpenClaw.Lifecycle.Changes.Removal.{length-after_evict-le, remove-Changes}

-- The loop of `track`, after its two tests.
abbrev made_room : Config → ℕ → Lifecycle → Bool → Option Key → Lifecycle × Bool
unfolding make_room
made_room c n l b o =
    if b then (l, true) else elim o [ none ↦ (l, false) | some key ↦ make_room c n (remove key l) ]

-- What the loop of `track` answers is whether there is room.
pub make_room-Changes :
    (c : Config) (inbox : Bool) (n : ℕ) (l : Lifecycle) → Changes c inbox l (make_room c n l).0
unfolding make_room
make_room-Changes c inbox zero l = done
make_room-Changes c inbox (suc n) l =
    by_room (ltb (length l.records) c.max_runs) (evictable l.records)
      (λ key. make_room-Changes c inbox n (remove key l))
  where
    by_room :
        (b : Bool) (o : Option Key)
        → ((key : Key) → Changes c inbox (remove key l) (make_room c n (remove key l)).0)
        → Changes c inbox l (made_room c n l b o).0
    by_room true o h = done
    by_room false none h = done
    by_room false (some key) h = Changes-trans c inbox (remove-Changes c inbox key l) (h key)

pub make_room-has_room :
    (c : Config) (n : ℕ) (l : Lifecycle)
    → (make_room c n l).1 ≡ true
    → length (make_room c n l).0.records < c.max_runs
unfolding make_room
make_room-has_room c zero l h = ground arith
make_room-has_room c (suc n) l h =
    by_room (ltb (length l.records) c.max_runs) refl (evictable l.records)
      (λ key. make_room-has_room c n (remove key l)) h
  where
    by_room :
        (b : Bool)
        → ltb (length l.records) c.max_runs ≡ b
        → (o : Option Key)
        → ((key : Key)
            → (make_room c n (remove key l)).1 ≡ true
            → length (make_room c n (remove key l)).0.records < c.max_runs)
        → (made_room c n l b o).1 ≡ true
        → length (made_room c n l b o).0.records < c.max_runs
    by_room true e o k g = ground arith
    by_room false e none k g = ground arith
    by_room false e (some key) k g = k key g

add_record-Changes :
    (c : Config) (inbox : Bool) (key : Key) (w : Work) (p : Lifecycle × Bool)
    → IsSmall w
    → (p.1 ≡ true → length p.0.records < c.max_runs)
    → Changes c inbox p.0 (add_record key w p).0
add_record-Changes c inbox key w (l, true) s h = one c inbox (added key w (h refl) s)
add_record-Changes c inbox key w (l, false) s h = done

pub track-Changes :
    (c : Config) (inbox : Bool) (key : Key) (w : Work) (l : Lifecycle)
    → IsSmall w
    → Changes c inbox l (track c key w l).0
unfolding track
track-Changes c inbox key w l s =
    Changes-trans c inbox (make_room-Changes c inbox (length l.records) l) (
      add_record-Changes c inbox key w (make_room c (length l.records) l) s
        (make_room-has_room c (length l.records) l))

length-push_run-le :
    (r : String) (runs : List String) → length runs ≤ 64 → length (push_run r runs) ≤ 64
length-push_run-le r runs h = by_list (runs ++ r ∷ []) (ground (arith, length-append runs (r ∷ [])))
  where
    by_list :
        (xs : List String)
        → length xs ≤ 65
        → length (if ltb 64 (length xs) then (elim xs [ [] ↦ [] | _ ∷ rest ↦ rest ]) else xs) ≤ 64
    by_list [] k = omega arith
    by_list (x ∷ xs) k = ground arith

pub note_run-IsUpdate : (r : String) (w : Work) → IsUpdate w (note_run r w)
note_run-IsUpdate r w = by_test _
  where
    by_test :
        (b : Bool)
        → IsUpdate w
            (if b then record w { internal_run_ids = push_run r w.internal_run_ids } else w)
    by_test true = record {
      same_session = refl;
      same_message = refl;
      same_turn = refl;
      still_started = λ h. h;
      still_over = λ h. h;
      still_small = length-push_run-le r w.internal_run_ids;
    }
    by_test false = IsUpdate_refl w

pub bind-Changes :
    (c : Config) (inbox : Bool) (session : Option String) (key : Key) (r : Option String)
    (l : Lifecycle)
    → 1 ≤ c.max_runs
    → Changes c inbox l (bind c session key r l)
unfolding bind
bind-Changes c inbox session key none l h = done
bind-Changes c inbox session key (some r) l h =
    next (bound _ (λ k. length-after_evict-le c.max_runs _ _ h))
      (one c inbox (assigned key (note_run r) (λ w e. note_run-IsUpdate r w)))

pub bind_all-Changes :
    (c : Config) (inbox : Bool) (session : Option String) (key : Key) (runs : List String)
    (l : Lifecycle)
    → 1 ≤ c.max_runs
    → Changes c inbox l (bind_all c session key runs l)
unfolding bind_all
bind_all-Changes c inbox session key [] l h = done
bind_all-Changes c inbox session key (r ∷ runs) l h =
    Changes-trans c inbox (bind-Changes c inbox session key (some r) l h)
      (bind_all-Changes c inbox session key runs _ h)

length-drop_retired_runs-le :
    (session : Option String) (runs : List String) (keys : List Key)
    → length (drop_retired_runs session runs keys) ≤ length keys
length-drop_retired_runs-le session [] keys = omega arith
length-drop_retired_runs-le session (r ∷ runs) keys = ground (
  arith,
  length-drop_retired_runs-le session runs (drop_key same_key (run_key (or_blank session) r) keys),
  length-drop_key-le same_key (run_key (or_blank session) r) keys,
)

pub forget_retired-Changes :
    (c : Config) (inbox : Bool) (w : Work) (l : Lifecycle) → Changes c inbox l (forget_retired w l)
forget_retired-Changes c inbox w l = one c inbox (
    retired_runs _ (λ h. ground (
      arith,
      length-drop_retired_runs-le w.session_id (with_outer w.internal_run_ids w.outer_run_id)
          l.retired_bindings,
    )))
