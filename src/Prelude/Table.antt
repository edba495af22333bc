-- ===== src/Prelude/Table.antt =====
-- A database table with a primary key: its rows in the order of insertion, and the statements that
-- the plugin runs on one.
use Prim.Native.Nat.{ℕ}
use Prim.Native.String.{String}
use mathlib.Core.Path.{◌≡◌, refl}
use mathlib.Core.Bool.{Bool, true, ◌&&◌}
use mathlib.Core.Option.{Option, none, some}
use mathlib.Core.List.{List, [], ◌∷◌, map}
use native.Mathlib.Omega.{arith}
use text.Mathlib.Text.{◌==◌}
use text.Mathlib.TextEquality.{eq_iff}
use sidewisp_plugin.Prelude.Tests.{if◌then◌else◌}
use sidewisp_plugin.Prelude.Lists.{filter, All, length}

-- A row that the condition keeps.
abbrev pub guarded {ℓ} : {A : Type ℓ} → (A → Bool) → Option A → Option A
guarded p none = none
guarded p (some r) = if p r then some r else none

-- A row after an update of the rows that fit.
abbrev pub changed {ℓ} : {A : Type ℓ} → (A → A) → Option A → Option A
changed f none = none
changed f (some r) = some (f r)

-- The row that was there, or else the new one.
abbrev pub or_new {ℓ} : {A : Type ℓ} → Option A → A → Option A
or_new none r = some r
or_new (some q) r = some q

module _ {ℓ} {A : Type ℓ} (key : A → String) where
  -- SELECT … WHERE key = ?
  unfoldable pub find : String → List A → Option A
  find k [] = none
  find k (r ∷ t) = if key r == k then some r else find k t

  -- INSERT OR IGNORE
  unfoldable pub insert_or_ignore : A → List A → List A
  insert_or_ignore r [] = r ∷ []
  insert_or_ignore r (q ∷ t) = if key q == key r then q ∷ t else q ∷ insert_or_ignore r t

  -- INSERT … ON CONFLICT(key) DO UPDATE
  unfoldable pub upsert : A → List A → List A
  upsert r [] = r ∷ []
  upsert r (q ∷ t) = if key q == key r then r ∷ t else q ∷ upsert r t

  -- The primary key: no two rows share it.
  abbrev pub IsKeyed : List A → Type ℓ
  IsKeyed [] = Unit
  IsKeyed (r ∷ t) = (find (key r) t ≡ none) × IsKeyed t

  pub find-insert_or_ignore :
      (k : String) (r : A) (t : List A)
      → find k (insert_or_ignore r t) ≡ (if key r == k then or_new (find k t) r else find k t)
  unfolding find insert_or_ignore
  find-insert_or_ignore k r [] = ground arith
  find-insert_or_ignore k r (q ∷ t) = ground (
    arith,
    find-insert_or_ignore k r t,
    eq_iff (key q) (key r),
    eq_iff (key q) k,
    eq_iff (key r) k,
  )

  pub find-upsert :
      (k : String) (r : A) (t : List A)
      → find k (upsert r t) ≡ (if key r == k then some r else find k t)
  unfolding find upsert
  find-upsert k r [] = ground arith
  find-upsert k r (q ∷ t) =
      ground (arith, find-upsert k r t, eq_iff (key q) (key r), eq_iff (key q) k, eq_iff (key r) k)

  -- DELETE … WHERE not p, on a table with distinct keys
  pub find-filter :
      (k : String) (p : A → Bool) (t : List A)
      → IsKeyed t
      → find k (filter p t) ≡ guarded p (find k t)
  unfolding find
  find-filter k p [] h = refl
  find-filter k p (r ∷ t) h = ground (arith, find-filter k p t h.1, eq_iff (key r) k)

  pub IsKeyed-filter : (p : A → Bool) (t : List A) → IsKeyed t → IsKeyed (filter p t)
  IsKeyed-filter p [] h = tt
  IsKeyed-filter p (r ∷ t) h = ground (arith, IsKeyed-filter p t h.1, find-filter (key r) p t h.1)

  pub IsKeyed-insert_or_ignore : (r : A) (t : List A) → IsKeyed t → IsKeyed (insert_or_ignore r t)
  unfolding insert_or_ignore find
  IsKeyed-insert_or_ignore r [] h = (refl, tt)
  IsKeyed-insert_or_ignore r (q ∷ t) h = ground (
    arith,
    IsKeyed-insert_or_ignore r t h.1,
    find-insert_or_ignore (key q) r t,
    eq_iff (key q) (key r),
    eq_iff (key r) (key q),
  )

  pub IsKeyed-upsert : (r : A) (t : List A) → IsKeyed t → IsKeyed (upsert r t)
  unfolding upsert find
  IsKeyed-upsert r [] h = (refl, tt)
  IsKeyed-upsert r (q ∷ t) h = ground (
    arith,
    IsKeyed-upsert r t h.1,
    find-upsert (key q) r t,
    eq_iff (key q) (key r),
    eq_iff (key r) (key q),
  )

  -- UPDATE … SET: a change of every row that leaves the keys alone
  module _ (f : A → A) (same_key : (r : A) → key (f r) ≡ key r) where
    pub find-map : (k : String) (t : List A) → find k (map f t) ≡ changed f (find k t)
    unfolding find
    find-map k [] = refl
    find-map k (r ∷ t) = ground (arith, find-map k t, same_key r)

    pub IsKeyed-map : (t : List A) → IsKeyed t → IsKeyed (map f t)
    IsKeyed-map [] h = tt
    IsKeyed-map (r ∷ t) h = ground (arith, IsKeyed-map t h.1, find-map (key r) t, same_key r)

  -- What holds of every row that a condition selects holds of such a row that is found.
  pub find_selected {κ} :
      (Q : A → Type κ) (p : A → Bool) (k : String) (t : List A) (r : A)
      → All Q (filter p t)
      → find k t ≡ some r
      → p r ≡ true
      → Q r
  unfolding find
  find_selected Q p k [] r all h f = absurd (ground arith)
  find_selected Q p k (q ∷ t) r all h f = ground (arith, find_selected Q p k t r)

  -- 1 if the row is there and passes the test.
  abbrev pub count_found : (A → Bool) → Option A → ℕ
  count_found q none = 0
  count_found q (some r) = if q r then 1 else 0

  -- A condition on the primary key selects one row at most.
  pub length-filter_key :
      (k : String) (q : A → Bool) (t : List A)
      → IsKeyed t
      → length (filter (λ r. key r == k && q r) t) ≡ count_found q (find k t)
  unfolding find
  length-filter_key k q [] h = refl
  length-filter_key k q (r ∷ t) h = ground (arith, length-filter_key k q t h.1, eq_iff (key r) k)
