-- ===== src/Prelude/Assoc.antt =====
-- A JavaScript `Map`: its entries in the order of insertion, and the operations that the plugin uses.
-- A `Set` is a list of keys.
use Prim.Native.Nat.{ℕ, suc, ◌≤◌, ◌<◌}
use mathlib.Core.Path.{◌≡◌, refl, subst}
use mathlib.Core.Bool.{Bool, true, false, not}
use mathlib.Core.Option.{Option, none, some, some_inj}
use mathlib.Core.List.{List, [], ◌∷◌}
use native.Mathlib.Omega.{arith}
use sidewisp_plugin.Prelude.Tests.{if◌then◌else◌, leb}
use sidewisp_plugin.Prelude.Lists.{length, filter, All, length-filter-le, All-filter}

-- `while (map.size >= max) map.delete(map.keys().next().value)`, for `max` from 1 on.
unfoldable pub evict {ℓ} : {A : Type ℓ} → ℕ → List A → List A
evict max [] = []
evict max (x ∷ xs) = let rest = evict max xs in if leb max (length (x ∷ xs)) then rest else x ∷ xs

pub length-evict-le {ℓ} :
    {A : Type ℓ} (max : ℕ) (xs : List A) → 1 ≤ max → suc (length (evict max xs)) ≤ max
unfolding evict
length-evict-le max [] h = omega arith
length-evict-le max (x ∷ xs) h = ground (arith, length-evict-le max xs h)

pub All-evict {ℓ κ} :
    {A : Type ℓ} (P : A → Type κ) (max : ℕ) (xs : List A) → All P xs → All P (evict max xs)
unfolding evict
All-evict P max [] h = tt
All-evict P max (x ∷ xs) h = by_size (leb max (length (x ∷ xs))) (All-evict P max xs h.1)
  where
    by_size : (b : Bool) → All P (evict max xs) → All P (if b then evict max xs else x ∷ xs)
    by_size true k = k
    by_size false k = h

module _ {K A : Type 0} (same : K → K → Bool) where
  -- `map.get(key)`
  unfoldable pub lookup : K → List (K × A) → Option A
  lookup k [] = none
  lookup k ((j, a) ∷ entries) = if same j k then some a else lookup k entries

  -- `map.delete(key)`
  unfoldable pub delete : K → List (K × A) → List (K × A)
  delete k entries = filter (λ e. not (same e.0 k)) entries

  -- `map.set(key, value)`: a key that is there keeps its place.
  unfoldable pub set : K → A → List (K × A) → List (K × A)
  set k a [] = (k, a) ∷ []
  set k a ((j, b) ∷ entries) = if same j k then (j, a) ∷ entries else (j, b) ∷ set k a entries

  -- What an assignment to a field of the value does.
  unfoldable pub modify : K → (A → A) → List (K × A) → List (K × A)
  modify k f [] = []
  modify k f ((j, b) ∷ entries) =
      if same j k then (j, f b) ∷ entries else (j, b) ∷ modify k f entries

  pub lookup-modify :
      (k : K) (f : A → A) (entries : List (K × A)) (a : A)
      → lookup k entries ≡ some a
      → lookup k (modify k f entries) ≡ some (f a)
  unfolding lookup modify
  lookup-modify k f [] a h = ground arith
  lookup-modify k f ((j, b) ∷ entries) a h = ground (arith, lookup-modify k f entries a)

  pub length-modify :
      (k : K) (f : A → A) (entries : List (K × A)) → length (modify k f entries) ≡ length entries
  unfolding modify
  length-modify k f [] = refl
  length-modify k f (e ∷ entries) = ground (arith, length-modify k f entries)

  -- What holds of every value still does, where it does of the new one at the key.
  pub All-modify {ℓ} :
      (P : A → Type ℓ) (k : K) (f : A → A) (entries : List (K × A))
      → ((a : A) → lookup k entries ≡ some a → P a → P (f a))
      → All (λ e. P e.1) entries
      → All (λ e. P e.1) (modify k f entries)
  unfolding lookup modify
  All-modify P k f [] g h = tt
  All-modify P k f ((j, b) ∷ entries) g h = by_test (same j k) (All-modify P k f entries) g
    where
      by_test :
          (t : Bool)
          → (((a : A) → lookup k entries ≡ some a → P a → P (f a))
              → All (λ e. P e.1) entries
              → All (λ e. P e.1) (modify k f entries))
          → ((a : A) → (if t then some b else lookup k entries) ≡ some a → P a → P (f a))
          → All (λ e. P e.1) (if t then (j, f b) ∷ entries else (j, b) ∷ modify k f entries)
      by_test true r g' = (g' b refl h.0, h.1)
      by_test false r g' = (h.0, r g' h.1)

  pub length-set-le :
      (k : K) (a : A) (entries : List (K × A)) → length (set k a entries) ≤ suc (length entries)
  unfolding set
  length-set-le k a [] = omega arith
  length-set-le k a (e ∷ entries) = ground (arith, length-set-le k a entries)

  pub All-set {ℓ} :
      (P : A → Type ℓ) (k : K) (a : A) (entries : List (K × A))
      → P a
      → All (λ e. P e.1) entries
      → All (λ e. P e.1) (set k a entries)
  unfolding set
  All-set P k a [] h g = (h, tt)
  All-set P k a ((j, b) ∷ entries) h g = by_test (same j k) (All-set P k a entries h g.1)
    where
      by_test :
          (t : Bool)
          → All (λ e. P e.1) (set k a entries)
          → All (λ e. P e.1) (if t then (j, a) ∷ entries else (j, b) ∷ set k a entries)
      by_test true r = (h, g.1)
      by_test false r = (g.0, r)

  pub lookup-All {ℓ} :
      (P : A → Type ℓ) (k : K) (a : A) (entries : List (K × A))
      → All (λ e. P e.1) entries
      → lookup k entries ≡ some a
      → P a
  unfolding lookup
  lookup-All P k a [] h e = ground arith
  lookup-All P k a ((j, b) ∷ entries) h e = by_test (same j k) (lookup-All P k a entries h.1) e
    where
      by_test :
          (t : Bool)
          → (lookup k entries ≡ some a → P a)
          → (if t then some b else lookup k entries) ≡ some a
          → P a
      by_test true r g = subst P (some_inj.0 g) h.0
      by_test false r g = r g

  pub All-delete {ℓ} :
      (P : K × A → Type ℓ) (k : K) (entries : List (K × A))
      → All P entries
      → All P (delete k entries)
  unfolding delete
  All-delete P k entries h = All-filter P (λ e. not (same e.0 k)) entries h

  pub length-delete-le :
      (k : K) (entries : List (K × A)) → length (delete k entries) ≤ length entries
  unfolding delete
  length-delete-le k entries = length-filter-le (λ e. not (same e.0 k)) entries

  pub length-delete-lt :
      (k : K) (a : A) (entries : List (K × A))
      → lookup k entries ≡ some a
      → length (delete k entries) < length entries
  unfolding lookup delete
  length-delete-lt k a [] h = ground arith
  length-delete-lt k a ((j, b) ∷ entries) h =
      ground (arith, length-delete-le k entries, length-delete-lt k a entries)

-- `set.delete(key)`
unfoldable pub drop_key : {K : Type 0} → (K → K → Bool) → K → List K → List K
drop_key same k keys = filter (λ j. not (same j k)) keys

pub length-drop_key-le :
    {K : Type 0} (same : K → K → Bool) (key : K) (keys : List K)
    → length (drop_key same key keys) ≤ length keys
unfolding drop_key
length-drop_key-le same key keys = length-filter-le (λ j. not (same j key)) keys
