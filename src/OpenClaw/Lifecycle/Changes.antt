-- ===== src/OpenClaw/Lifecycle/Changes.antt =====
-- src/adapters/openclaw/hooks.js: the abstract view of the task lifecycle. A step is a sequence of
-- changes, each of which assigns to a record, adds or removes one, or rewrites one of the other maps within its bound.
pub mod Bounds
pub mod Removal
pub mod Registry
pub mod Settlement
pub mod Admission
pub mod Finish
pub mod Turns
pub mod Steps
use sidewisp_plugin.Prelude.{
  ℕ, ◌≤◌, ◌<◌, String, Bool, true, false, ◌≡◌, refl, sym, ◌∙◌, Option, none, some, List, [], ◌∷◌,
  if◌then◌else◌, length, All, arith,
}
use mathlib.Core.Path.{subst}
use sidewisp_plugin.Prelude.Assoc.{lookup, delete, set, modify}
use sidewisp_plugin.OpenClaw.Lifecycle.{Event, Key, same_key, Work, Inbound, Config, Lifecycle}
use sidewisp_plugin.OpenClaw.Lifecycle.Registry.{find, assign}

-- The run identifiers that an inbound message and a record hold are 64 at most.
abbrev pub HasFewRuns : Inbound → Type 0
HasFewRuns p = length p.run_ids ≤ 64

abbrev pub IsSmall : Work → Type 0
IsSmall w = length w.internal_run_ids ≤ 64

-- The inbound messages, within the bound.
abbrev pub IsInbox : Config → List (String × Inbound) → Type 0
IsInbox c entries = (length entries ≤ c.max_runs) × All (λ e. HasFewRuns e.1) entries

-- What an assignment may do to a record: its identity stays, and what has started or ended stays so.
pub record IsUpdate (w v : Work) : Type 0 where
  pub same_session : v.session_id ≡ w.session_id
  pub same_message : v.message_id ≡ w.message_id
  pub same_turn : v.turn_id ≡ w.turn_id
  pub still_started : w.started ≡ true → v.started ≡ true
  pub still_over : w.terminal ≡ true → v.terminal ≡ true
  pub still_small : IsSmall w → IsSmall v

pub IsUpdate_refl : (w : Work) → IsUpdate w w
IsUpdate_refl w = record {
  same_session = refl;
  same_message = refl;
  same_turn = refl;
  still_started = λ h. h;
  still_over = λ h. h;
  still_small = λ h. h;
}

module _ (w v : Work) where
  -- An assignment to none of the fields that matter here, and one that ends the work.
  pub same_flags :
      v.session_id ≡ w.session_id
      → v.message_id ≡ w.message_id
      → v.turn_id ≡ w.turn_id
      → v.internal_run_ids ≡ w.internal_run_ids
      → v.started ≡ w.started
      → v.terminal ≡ w.terminal
      → IsUpdate w v
  same_flags s m t r st te = record {
    same_session = s;
    same_message = m;
    same_turn = t;
    still_started = λ h. st ∙ h;
    still_over = λ h. te ∙ h;
    still_small = λ h. subst (λ runs. length runs ≤ 64) (sym r) h;
  }

  pub ended :
      v.session_id ≡ w.session_id
      → v.message_id ≡ w.message_id
      → v.turn_id ≡ w.turn_id
      → v.internal_run_ids ≡ w.internal_run_ids
      → v.started ≡ w.started
      → v.terminal ≡ true
      → IsUpdate w v
  ended s m t r st te = record {
    same_session = s;
    same_message = m;
    same_turn = t;
    still_started = λ h. st ∙ h;
    still_over = λ h. te;
    still_small = λ h. subst (λ runs. length runs ≤ 64) (sym r) h;
  }

-- `inbox` tells whether the inbound messages may change.
module _ (c : Config) (inbox : Bool) where
  pub data Change : Lifecycle → Lifecycle → Type 0 where
    assigned :
        {l : Lifecycle} (key : Key) (f : Work → Work)
        → ((w : Work) → find key l ≡ some w → IsUpdate w (f w))
        → Change l (assign key f l)
    added :
        {l : Lifecycle} (key : Key) (w : Work)
        → length l.records < c.max_runs
        → IsSmall w
        → Change l (record l { records = set same_key key w l.records })
    removed :
        {l : Lifecycle} (key : Key)
        → Change l (record l { records = delete same_key key l.records })
    bound :
        {l : Lifecycle} (b : List (Key × Key))
        → (length l.bindings ≤ c.max_runs → length b ≤ c.max_runs)
        → Change l (record l { bindings = b })
    retired_runs :
        {l : Lifecycle} (r : List Key)
        → (length l.retired_bindings ≤ c.max_runs → length r ≤ c.max_runs)
        → Change l (record l { retired_bindings = r })
    received :
        {l : Lifecycle} (i : List (String × Inbound))
        → inbox ≡ true
        → (IsInbox c l.inbound → IsInbox c i)
        → Change l (record l { inbound = i })
    retired_messages :
        {l : Lifecycle} (r : List (Key × ℕ))
        → (length l.retired_inbound ≤ c.max_runs → length r ≤ c.max_runs)
        → Change l (record l { retired_inbound = r })
    pointed : {l : Lifecycle} (p : List (String × Key)) → Change l (record l { current = p })
    copied_one : {l : Lifecycle} (n : ℕ) → Change l (record l { copies = n })
    persisted_one : {l : Lifecycle} (e : Event) → Change l (record l { deferred = e ∷ l.deferred })
    suppressed_one :
        {l : Lifecycle} (e : Event) → Change l (record l { suppressed = e ∷ l.suppressed })

  pub data Changes : Lifecycle → Lifecycle → Type 0 where
    done : {l : Lifecycle} → Changes l l
    next : {l m n : Lifecycle} → Change l m → Changes m n → Changes l n

  -- The changes of an operation that answers something too.
  pub record Leads {A : Type 0} (l : Lifecycle) (p : Lifecycle × A) : Type 0 where
    pub changes : Changes l p.0

  pub Changes-trans : {l m n : Lifecycle} → Changes l m → Changes m n → Changes l n
  Changes-trans done k = k
  Changes-trans (next h hs) k = next h (Changes-trans hs k)

  pub one : {l m : Lifecycle} → Change l m → Changes l m
  one h = next h done

  pub either_way :
      {l m n : Lifecycle} (b : Bool) → Changes l m → Changes l n → Changes l (if b then m else n)
  either_way true h k = h
  either_way false h k = k

  pub answer : {A : Type 0} {l m : Lifecycle} {a : A} → Changes l m → Leads l (m, a)
  answer h = record { changes = h }

  -- What leads to a state and an answer leads on from an earlier state.
  pub first :
      {A : Type 0} {l m : Lifecycle} {p : Lifecycle × A} → Changes l m → Leads m p → Leads l p
  first h k = record { changes = Changes-trans h k.changes }

  pub either_answer :
      {A : Type 0} {l : Lifecycle} {p q : Lifecycle × A} (b : Bool)
      → Leads l p
      → Leads l q
      → Leads l (if b then p else q)
  either_answer true h k = h
  either_answer false h k = k

-- Without them, the inbound messages stay what they are.
quiet-Change : (c : Config) {l m : Lifecycle} → Change c false l m → m.inbound ≡ l.inbound
quiet-Change c (assigned key f h) = refl
quiet-Change c (added key w h s) = refl
quiet-Change c (removed key) = refl
quiet-Change c (bound x h) = refl
quiet-Change c (retired_runs r h) = refl
quiet-Change c (received i e h) = ground arith
quiet-Change c (retired_messages r h) = refl
quiet-Change c (pointed p) = refl
quiet-Change c (copied_one n) = refl
quiet-Change c (persisted_one e) = refl
quiet-Change c (suppressed_one e) = refl

pub quiet-Changes : (c : Config) {l m : Lifecycle} → Changes c false l m → m.inbound ≡ l.inbound
quiet-Changes c done = refl
quiet-Changes c (next h hs) = quiet-Changes c hs ∙ quiet-Change c h
