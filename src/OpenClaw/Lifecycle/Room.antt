-- ===== src/OpenClaw/Lifecycle/Room.antt =====
-- src/adapters/openclaw/hooks.js: the loop of `track` that makes room for a record.
use sidewisp_plugin.Prelude.{
  ℕ, zero, suc, ◌≤◌, ◌<◌, Bool, true, false, ◌≡◌, ◌⊎◌, inl, inr, refl, sym, ap, Option, none, some,
  List, [], ◌∷◌, if◌then◌else◌, length, All, ltb, arith,
}
use mathlib.Core.Path.{subst}
use mathlib.Core.Option.{some_inj}
use text.Mathlib.TextPositions.{eq_refl}
use sidewisp_plugin.Prelude.Assoc.{lookup, delete, length-delete-lt}
use sidewisp_plugin.OpenClaw.Lifecycle.{
  Key, same_key, task_key, run_key, Work, Event, Config, Lifecycle, suppress,
}
use sidewisp_plugin.OpenClaw.Lifecycle.Retries.{clear_current-records}
use sidewisp_plugin.OpenClaw.Lifecycle.Registry.{
  find, is_over, clear_current, drop_record, remove, evictable, make_room, add_record, track,
}

-- A record that has not ended for good.
abbrev pub IsLasting : Key × Work → Type 0
IsLasting r = is_over r.1 ≡ false

evictable-IsLasting :
    (entries : List (Key × Work)) → evictable entries ≡ none → All IsLasting entries
evictable-IsLasting [] h = tt
evictable-IsLasting ((key, w) ∷ entries) h = ground (arith, evictable-IsLasting entries)

same_key_refl : (key : Key) → same_key key key ≡ true
unfolding same_key
same_key_refl (task_key s m) = ground (arith, eq_refl s, eq_refl m)
same_key_refl (run_key s r) = ground (arith, eq_refl s, eq_refl r)

-- Some value is there.
abbrev pub IsThere : Option Work → Type 0
IsThere o = (w : Work) × (o ≡ some w)

either_IsThere :
    (t : Bool) (w : Work) (o : Option Work) → IsThere o → IsThere (if t then some w else o)
either_IsThere true w o h = (w, refl)
either_IsThere false w o h = h

-- What is evicted stands in the list.
evictable-IsThere :
    (entries : List (Key × Work)) (key : Key)
    → evictable entries ≡ some key
    → IsThere (lookup same_key key entries)
unfolding lookup
evictable-IsThere [] key h = ground arith
evictable-IsThere ((k, w) ∷ entries) key h = by_over (is_over w) h (evictable-IsThere entries key)
  where
    by_over :
        (b : Bool)
        → (if b then some k else evictable entries) ≡ some key
        → (evictable entries ≡ some key → IsThere (lookup same_key key entries))
        → IsThere (if same_key k key then some w else lookup same_key key entries)
    by_over true g r = (
      w,
      ap (λ b. if b then some w else lookup same_key key entries)
          (subst (λ j. same_key k j ≡ true) (some_inj.0 g) (same_key_refl k)),
    )
    by_over false g r = either_IsThere (same_key k key) w _ (r g)

drop_record-records :
    (key : Key) (w : Work) (l : Lifecycle)
    → (drop_record key (some w) l).records ≡ delete same_key key l.records
drop_record-records key w l = by_pending w.pending
  where
    by_pending :
        (p : Option Event)
        → delete same_key key (clear_current key w (suppress p l)).records
          ≡ delete same_key key l.records
    by_pending none = ap (delete same_key key) (clear_current-records key w l)
    by_pending (some e) =
        ap (delete same_key key) (clear_current-records key w (suppress (some e) l))

-- The removal of a record that is there leaves one less.
pub length-remove-lt :
    (key : Key) (l : Lifecycle)
    → IsThere (find key l)
    → length (remove key l).records < length l.records
unfolding remove
length-remove-lt key l (w, h) =
    subst (λ o. length (drop_record key o l).records < length l.records) (sym h)
      (subst (λ rs. length rs < length l.records) (sym (drop_record-records key w l))
        (length-delete-lt same_key key w l.records h))

-- Whether room was made, or else every record lasts.
abbrev pub IsRoom : Config → Lifecycle × Bool → Type 0
IsRoom c p =
    ((p.1 ≡ true) × (length p.0.records < c.max_runs)) ⊎ ((p.1 ≡ false) × All IsLasting p.0.records)

make_room-IsRoom :
    (c : Config) (n : ℕ) (l : Lifecycle)
    → 1 ≤ c.max_runs
    → length l.records ≤ n
    → IsRoom c (make_room c n l)
unfolding make_room
make_room-IsRoom c zero l m h = inl (ground arith, ground arith)
make_room-IsRoom c (suc n) l m h =
    by_room (ltb (length l.records) c.max_runs) refl (evictable l.records) refl
      (λ key. make_room-IsRoom c n (remove key l) m)
  where
    by_room :
        (b : Bool)
        → ltb (length l.records) c.max_runs ≡ b
        → (o : Option Key) → evictable l.records ≡ o
        → ((key : Key)
            → length (remove key l).records ≤ n
            → IsRoom c (make_room c n (remove key l)))
        → IsRoom c (
            if◌then◌else◌ {A = Lifecycle × Bool} b
              (l, true)
              (elim o [ none ↦ (l, false) | some key ↦ make_room c n (remove key l) ]))
    by_room true e o g r = inl (refl, ground arith)
    by_room false e none g r = inr (refl, evictable-IsLasting l.records g)
    by_room false e (some key) g r =
        r key (omega (arith, h, length-remove-lt key l (evictable-IsThere l.records key g)))

-- A new record is refused only where every record that is there has yet to end for good: one turn of the loop
-- for each record is enough.
pub track-IsRefused :
    (c : Config) (key : Key) (w : Work) (l : Lifecycle)
    → 1 ≤ c.max_runs
    → (track c key w l).1 ≡ false
    → All IsLasting (track c key w l).0.records
unfolding track
track-IsRefused c key w l m h =
    by_room (make_room c (length l.records) l)
      (make_room-IsRoom c (length l.records) l m (omega arith)) h
  where
    by_room :
        (p : Lifecycle × Bool)
        → IsRoom c p
        → (add_record key w p).1 ≡ false
        → All IsLasting (add_record key w p).0.records
    by_room (k, true) r g = ground arith
    by_room (k, false) (inl r) g = ground arith
    by_room (k, false) (inr r) g = r.1
