-- ===== src/Delivery/Spool/Order.antt =====
-- src/delivery/spool.js: what `pending` returns, and in which order.
use sidewisp_plugin.Prelude.{
  ℕ, ◌≤◌, ◌<◌, String, ◌≡◌, ◌⊎◌, refl, All, All-map_prop, Bool, true, false, Option, none, some,
  List, map, arith, filter, take, length, length-take, length-map,
}
use mathlib.Core.List.{[], ◌∷◌}
use sidewisp_plugin.Prelude.Sort.{IsSorted, sort, sort-IsSorted, sort-perm}
use sidewisp_plugin.Prelude.Texts.{text_leb, text_leb-total, text_leb_trans}
use mathlib.Core.List.{Perm}
use sidewisp_plugin.Delivery.Spool.{Row, Spool, ok}
use sidewisp_plugin.Delivery.Spool.Pending.{
  is_unacked, is_health_of, older, by_rank, health_first, order_of, Entry, to_entry, pending_rows,
  pending,
}

older-total : (a b : Row) → older a b ≡ false → older b a ≡ true
unfolding older
older-total a b h = ground (arith, text_leb-total a.event_id b.event_id)

older_trans : (a b c : Row) → older a b ≡ true → older b c ≡ true → older a c ≡ true
unfolding older
older_trans a b c h k = ground (arith, text_leb_trans a.event_id b.event_id c.event_id)

by_rank-total : (p q : Bool) (a b : Row) → by_rank p q a b ≡ false → by_rank q p b a ≡ true
by_rank-total true true a b h = ground (arith, text_leb-total a.event_id b.event_id)
by_rank-total true false a b h = cc
by_rank-total false true a b h = refl
by_rank-total false false a b h = older-total a b h

by_rank_trans :
    (p q o : Bool) (a b c : Row)
    → by_rank p q a b ≡ true
    → by_rank q o b c ≡ true
    → by_rank p o a c ≡ true
by_rank_trans true true true a b c h k =
    ground (arith, text_leb_trans a.event_id b.event_id c.event_id)
by_rank_trans true q false a b c h k = refl
by_rank_trans true false true a b c h k = cc
by_rank_trans false true q a b c h k = cc
by_rank_trans false false true a b c h k = cc
by_rank_trans false false false a b c h k = older_trans a b c h k

order-total : (o : Option String) (a b : Row) → order_of o a b ≡ false → order_of o b a ≡ true
unfolding health_first
order-total none a b h = older-total a b h
order-total (some active) a b h =
    by_rank-total (is_health_of active a) (is_health_of active b) a b h

order_trans :
    (o : Option String) (a b c : Row)
    → order_of o a b ≡ true
    → order_of o b c ≡ true
    → order_of o a c ≡ true
unfolding health_first
order_trans none a b c h k = older_trans a b c h k
order_trans (some active) a b c h k =
    by_rank_trans (is_health_of active a) (is_health_of active b) (is_health_of active c) a b c h k

-- Created before, or at the same time under a smaller id; and the same with the newest first.
abbrev pub IsOlder : Row → Row → Type 0
IsOlder a b =
    (a.created_at < b.created_at)
    ⊎ ((a.created_at ≡ b.created_at) × (text_leb a.event_id b.event_id ≡ true))

abbrev pub IsNewer : Row → Row → Type 0
IsNewer a b =
    (b.created_at < a.created_at)
    ⊎ ((a.created_at ≡ b.created_at) × (text_leb a.event_id b.event_id ≡ true))

-- The order of two rows by whether they are health snapshots of the installation that is asked for
abbrev pub IsRanked : Bool → Bool → Row → Row → Type 0
IsRanked true true a b = IsNewer a b
IsRanked true false a b = Unit
IsRanked false true a b = ⊥
IsRanked false false a b = IsOlder a b

abbrev pub ComesBefore : Option String → Row → Row → Type 0
ComesBefore none a b = IsOlder a b
ComesBefore (some active) a b = IsRanked (is_health_of active a) (is_health_of active b) a b

-- Each row comes before all that follow it.
abbrev pub AreInOrder : Option String → List Row → Type 0
AreInOrder prioritize [] = Unit
AreInOrder prioritize (r ∷ rows) = All (ComesBefore prioritize r) rows × AreInOrder prioritize rows

older-IsOlder : (a b : Row) → older a b ≡ true → IsOlder a b
unfolding older
older-IsOlder a b h = ground arith

by_rank-IsRanked : (p q : Bool) (a b : Row) → by_rank p q a b ≡ true → IsRanked p q a b
by_rank-IsRanked true true a b h = ground arith
by_rank-IsRanked true false a b h = tt
by_rank-IsRanked false true a b h = ground arith
by_rank-IsRanked false false a b h = older-IsOlder a b h

order-ComesBefore :
    (prioritize : Option String) (a b : Row)
    → order_of prioritize a b ≡ true
    → ComesBefore prioritize a b
unfolding health_first
order-ComesBefore none a b h = older-IsOlder a b h
order-ComesBefore (some active) a b h =
    by_rank-IsRanked (is_health_of active a) (is_health_of active b) a b h

sorted-AreInOrder :
    (prioritize : Option String) (rows : List Row)
    → IsSorted (order_of prioritize) rows
    → AreInOrder prioritize rows
sorted-AreInOrder prioritize [] h = tt
sorted-AreInOrder prioritize (r ∷ rows) h = (
  All-map_prop (λ b. order_of prioritize r b ≡ true) (ComesBefore prioritize r) rows
      (order-ComesBefore prioritize r) h.0,
  sorted-AreInOrder prioritize rows h.1,
)

-- What `pending` has to return for the rows of a spool: the first `limit` of all waiting rows, oldest
-- first, or with the health snapshots of an installation before them, newest first.
pub record IsQueueHead (limit : ℕ) (prioritize : Option String) (s : Spool) (entries : List Entry)
    : Type 0 where
  pub rows : List Row
  pub waiting : Perm rows (filter is_unacked s.tables.events)
  pub ordered : AreInOrder prioritize rows
  pub head : entries ≡ map to_entry (take limit rows)

-- Whenever `pending` returns, the limit was between 1 and 1000, and the entries are the first
-- `limit` of all rows that are not acknowledged, by the time of their creation and then by their id: the oldest
-- first, or the health snapshots of the given installation, the newest of them first, before the rest.
pub pending-IsQueueHead :
    (limit : ℕ) (prioritize : Option String) (s : Spool) (entries : List Entry)
    → pending limit prioritize s ≡ ok entries
    → (1 ≤ limit) × (limit ≤ 1000) × IsQueueHead limit prioritize s entries
unfolding pending pending_rows
pending-IsQueueHead limit prioritize s entries h = (
  ground arith,
  ground arith,
  record {
    rows = sort (order_of prioritize) (filter is_unacked s.tables.events);
    waiting = sort-perm (order_of prioritize) _;
    ordered = sorted-AreInOrder prioritize _ (
        sort-IsSorted (order_of prioritize) (order-total prioritize) (order_trans prioritize)
          (filter is_unacked s.tables.events));
    head = ground arith;
  },
)

-- At a limit between 1 and 1000 `pending` returns, with at most that many entries.
pub pending_total :
    (limit : ℕ) (prioritize : Option String) (s : Spool)
    → 1 ≤ limit
    → limit ≤ 1000
    → (entries : List Entry) × (pending limit prioritize s ≡ ok entries) × (length entries ≤ limit)
unfolding pending pending_rows
pending_total limit prioritize s low high = (
  map to_entry (pending_rows limit prioritize s),
  ground arith,
  rw length-map (
      omega (
        arith,
        length-take limit (sort (order_of prioritize) (filter is_unacked s.tables.events)),
      )),
)

pub pending-length :
    (limit : ℕ) (prioritize : Option String) (s : Spool) (entries : List Entry)
    → pending limit prioritize s ≡ ok entries
    → length entries ≤ limit
pending-length limit prioritize s entries h =
    let (low, high, head) = pending-IsQueueHead limit prioritize s entries h in
    rw (head.head, length-map) (omega (arith, length-take limit head.rows))
