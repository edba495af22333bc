-- ===== src/OpenClaw/Lifecycle/Changes/Bounds.antt =====
-- src/adapters/openclaw/hooks.js: the bounds of the task lifecycle's maps, which every change keeps.
use sidewisp_plugin.Prelude.{◌≤◌, Bool, ◌≡◌, some, length, All, arith}
use sidewisp_plugin.Prelude.Assoc.{
  length-modify, All-modify, length-set-le, All-set, length-delete-le, lookup-All, All-delete,
}
use sidewisp_plugin.OpenClaw.Lifecycle.{Key, same_key, Work, Config, Lifecycle, empty}
use sidewisp_plugin.OpenClaw.Lifecycle.Registry.{find}
use sidewisp_plugin.OpenClaw.Lifecycle.Changes.{
  IsSmall, IsInbox, Change, assigned, added, removed, bound, retired_runs, received,
  retired_messages, pointed, copied_one, persisted_one, suppressed_one, Changes, done, next,
}

-- The maps but the one from a session to its current task hold `maxRuns` entries at most, and every record and pending
-- message 64 run identifiers.
pub record IsBounded (c : Config) (l : Lifecycle) : Type 0 where
  pub few_records : length l.records ≤ c.max_runs
  pub small_records : All (λ r. IsSmall r.1) l.records
  pub few_bindings : length l.bindings ≤ c.max_runs
  pub few_retired : length l.retired_bindings ≤ c.max_runs
  pub few_inbound : IsInbox c l.inbound
  pub few_retired_inbound : length l.retired_inbound ≤ c.max_runs

module _ (c : Config) (l : Lifecycle) where
  pub bounds :
      length l.records ≤ c.max_runs
      → All (λ r. IsSmall r.1) l.records
      → length l.bindings ≤ c.max_runs
      → length l.retired_bindings ≤ c.max_runs
      → IsInbox c l.inbound
      → length l.retired_inbound ≤ c.max_runs
      → IsBounded c l
  bounds r s b t i m = record {
    few_records = r;
    small_records = s;
    few_bindings = b;
    few_retired = t;
    few_inbound = i;
    few_retired_inbound = m;
  }

  pub find-IsSmall : (key : Key) (w : Work) → IsBounded c l → find key l ≡ some w → IsSmall w
  find-IsSmall key w h e = lookup-All same_key IsSmall key w l.records h.small_records e

pub empty-IsBounded : (c : Config) → IsBounded c empty
empty-IsBounded c =
    bounds c empty (omega arith) tt (omega arith) (omega arith) (omega arith, tt) (omega arith)

module _ (c : Config) (inbox : Bool) where
  Change-IsBounded : {l m : Lifecycle} → Change c inbox l m → IsBounded c l → IsBounded c m
  Change-IsBounded (assigned {l} key f h) b =
      bounds c _ (ground (arith, b.few_records, length-modify same_key key f l.records))
        (All-modify same_key IsSmall key f l.records (λ w e s. (h w e).still_small s)
          b.small_records)
        b.few_bindings b.few_retired b.few_inbound b.few_retired_inbound
  Change-IsBounded (added {l} key w h s) b =
      bounds c _ (ground (arith, h, length-set-le same_key key w l.records))
        (All-set same_key IsSmall key w l.records s b.small_records) b.few_bindings b.few_retired
        b.few_inbound b.few_retired_inbound
  Change-IsBounded (removed {l} key) b =
      bounds c _ (ground (arith, b.few_records, length-delete-le same_key key l.records))
        (All-delete same_key (λ e. IsSmall e.1) key l.records b.small_records) b.few_bindings
        b.few_retired b.few_inbound b.few_retired_inbound
  Change-IsBounded (bound x h) b =
      bounds c _ b.few_records b.small_records (h b.few_bindings) b.few_retired b.few_inbound
        b.few_retired_inbound
  Change-IsBounded (retired_runs r h) b =
      bounds c _ b.few_records b.small_records b.few_bindings (h b.few_retired) b.few_inbound
        b.few_retired_inbound
  Change-IsBounded (received i e h) b =
      bounds c _ b.few_records b.small_records b.few_bindings b.few_retired (h b.few_inbound)
        b.few_retired_inbound
  Change-IsBounded (retired_messages r h) b =
      bounds c _ b.few_records b.small_records b.few_bindings b.few_retired b.few_inbound
        (h b.few_retired_inbound)
  Change-IsBounded (pointed p) b =
      bounds c _ b.few_records b.small_records b.few_bindings b.few_retired b.few_inbound
        b.few_retired_inbound
  Change-IsBounded (copied_one n) b =
      bounds c _ b.few_records b.small_records b.few_bindings b.few_retired b.few_inbound
        b.few_retired_inbound
  Change-IsBounded (persisted_one e) b =
      bounds c _ b.few_records b.small_records b.few_bindings b.few_retired b.few_inbound
        b.few_retired_inbound
  Change-IsBounded (suppressed_one e) b =
      bounds c _ b.few_records b.small_records b.few_bindings b.few_retired b.few_inbound
        b.few_retired_inbound

  pub Changes-IsBounded : {l m : Lifecycle} → Changes c inbox l m → IsBounded c l → IsBounded c m
  Changes-IsBounded done b = b
  Changes-IsBounded (next h hs) b = Changes-IsBounded hs (Change-IsBounded h b)
