-- ===== src/Core/Adapters/Registry.antt =====
-- src/core/runtime-adapter.js: a registry holds each adapter under its own kind.
use sidewisp_plugin.Prelude.{
  ◌≡◌, refl, ap, sym, ◌∙◌, Bool, true, false, not, ◌&&◌, Option, none, some, List, [], ◌∷◌, ◌++◌,
  arith, is_some, all, if◌then◌else◌, All,
}
use sidewisp_plugin.Prelude.Codes.{Text, same_text_refl}
use sidewisp_plugin.Core.Adapters.{
  Adapter, is_safe_id, is_runtime_adapter, kind_of, get, register, create_adapter_registry,
  same_option, adapter_contract, is_explicit, capabilities, methods, is_empty, select,
}

get-append :
    (kind : Text) (xs ys : List Adapter)
    → get kind (xs ++ ys) ≡ (if is_some (get kind xs) then get kind xs else get kind ys)
unfolding get
get-append kind [] ys = refl
get-append kind (x ∷ xs) ys = ground (arith, get-append kind xs ys)

-- An adapter that meets the contract and that the registry gives for its kind.
abbrev pub IsSelectable : List Adapter → Adapter → Type 0
IsSelectable registry a = (is_runtime_adapter a ≡ true) × (select (kind_of a) registry ≡ some a)

-- From a registry on, the loop keeps what it holds and adds each adapter.
abbrev IsExtension : List Adapter → List Adapter → List Adapter → Type 0
IsExtension adapters registry result =
    ((kind : Text) (b : Adapter) → get kind registry ≡ some b → get kind result ≡ some b)
    × All (λ a. (is_runtime_adapter a ≡ true) × (get (kind_of a) result ≡ some a)) adapters

get_in : Text → Option (List Adapter) → Option Adapter
get_in kind none = none
get_in kind (some registry) = get kind registry

register-IsExtension :
    (adapters registry result : List Adapter)
    → register adapters registry ≡ some result
    → IsExtension adapters registry result
unfolding register get_in
register-IsExtension [] registry result h = (λ kind b g. ap (get_in kind) (sym h) ∙ g, tt)
register-IsExtension (a ∷ adapters) registry result h =
    by_tests (is_runtime_adapter a) (is_some (get (kind_of a) registry)) refl refl h
      (λ r. register-IsExtension adapters (registry ++ a ∷ []) result r)
  where
    added : List Adapter
    added = registry ++ a ∷ []

    by_tests :
        (valid taken : Bool)
        → is_runtime_adapter a ≡ valid
        → is_some (get (kind_of a) registry) ≡ taken
        → (if not valid then none else if taken then none else register adapters added)
          ≡ some result
        → (register adapters added ≡ some result → IsExtension adapters added result)
        → IsExtension (a ∷ adapters) registry result
    by_tests false taken p q r ih = absurd (ground (arith, r))
    by_tests true true p q r ih = absurd (ground (arith, r))
    by_tests true false p q r ih =
        let (keeps, adds) = ih r in
        let own : get (kind_of a) (a ∷ []) ≡ some a =
          unfold get in rw (same_text_refl (kind_of a)) refl in
        (
          λ kind b g. keeps kind b (get-append kind registry (a ∷ []) ∙ rw g refl),
          ((p, keeps (kind_of a) a (get-append (kind_of a) registry (a ∷ []) ∙ rw q own)), adds),
        )

third : (a b c d e f : Bool) → (a && b && c && d && e && f) ≡ true → c ≡ true
third a b c d e f h = ground (arith, h)

safe_kind :
    (o : Option Text)
    → is_safe_id o ≡ true
    → is_empty (elim o [ none ↦ [] | some kind ↦ kind ]) ≡ false
unfolding is_safe_id
safe_kind none h = absurd (ground (arith, h))
safe_kind (some []) h = absurd (ground (arith, h))
safe_kind (some (c ∷ s)) h = refl

kind_safe : (a : Adapter) → is_runtime_adapter a ≡ true → is_empty (kind_of a) ≡ false
unfolding is_runtime_adapter
kind_safe a v = safe_kind a.runtime_kind (
    third (same_option a.contract adapter_contract) (is_safe_id a.id) (is_safe_id a.runtime_kind)
      (is_safe_id a.version) (all (λ name. is_explicit (a.declared name)) capabilities)
      (all a.has_method methods) v)

selectable :
    (registry : List Adapter) (a : Adapter)
    → is_runtime_adapter a ≡ true
    → get (kind_of a) registry ≡ some a
    → IsSelectable registry a
unfolding select
selectable registry a v g = (v, by_kind (is_empty (kind_of a)) refl)
  where
    by_kind :
        (e : Bool)
        → is_empty (kind_of a) ≡ e
        → (if e then none else get (kind_of a) registry) ≡ some a
    by_kind false q = g
    by_kind true q = absurd (ground (arith, q, kind_safe a v))

All-IsSelectable :
    (registry adapters : List Adapter)
    → All (λ a. (is_runtime_adapter a ≡ true) × (get (kind_of a) registry ≡ some a)) adapters
    → All (IsSelectable registry) adapters
All-IsSelectable registry [] h = tt
All-IsSelectable registry (a ∷ adapters) h =
    (selectable registry a h.0.0 h.0.1, All-IsSelectable registry adapters h.1)

-- When a registry is created, every adapter of its list meets the contract, and is the one that is
-- selected by its runtime kind: none hides another.
pub create-IsSelectable :
    (adapters registry : List Adapter)
    → create_adapter_registry adapters ≡ some registry
    → All (IsSelectable registry) adapters
unfolding create_adapter_registry
create-IsSelectable adapters registry h =
    All-IsSelectable registry adapters (register-IsExtension adapters [] registry h).1
