-- ===== src/Core/Causes/Known.antt =====
-- src/core/causes.js: the causes that are reported are those of the catalog, where the catalog has the ones that the
-- code names.
use sidewisp_plugin.Prelude.{
  Bool, true, false, ◌||◌, ◌≡◌, refl, Option, none, some, List, [], ◌∷◌, if◌then◌else◌, String, All,
  map,
}
use sidewisp_plugin.Prelude.Codes.{Text, codes, same_text, lower_code}
use sidewisp_plugin.Core.ProhibitedText.{has_infix}
use sidewisp_plugin.Core.Causes.{
  Failure, known_cause, aliases, alias_in, or_cause, when, code_of, lowered, provider_cause,
  operation_cause, policy_cause, classify_runtime_cause, is_status, is_server_error,
}

-- The causes that the code names, beside its aliases
abbrev pub named_causes : List String
named_causes =
    "provider_auth_failed" ∷ "provider_permission_denied" ∷ "provider_rate_limited"
    ∷ "provider_unavailable" ∷ "memory_search_unavailable" ∷ "memory_embedding_auth_failed"
    ∷ "browser_target_stale" ∷ "browser_cdp_unreachable" ∷ "browser_navigation_timeout"
    ∷ "tool_approval_required" ∷ "tool_approval_expired" ∷ "tool_policy_denied" ∷ []

module _ (catalog : Text → Bool) where
  abbrev pub IsKnown : Option Text → Type 0
  IsKnown none = Unit
  IsKnown (some s) = catalog s ≡ true

  -- The catalog has every cause that the code names.
  abbrev pub HasNamed : Type 0
  HasNamed =
      All (λ c. catalog (codes c) ≡ true) named_causes
      × All (λ a. catalog (codes a.1) ≡ true) aliases

  known_cause-IsKnown : (o : Option Text) → IsKnown (known_cause catalog o)
  known_cause-IsKnown none = tt
  known_cause-IsKnown (some s) = by_test (catalog s) refl
    where
      by_test : (b : Bool) → catalog s ≡ b → IsKnown (if b then some s else none)
      by_test true h = h
      by_test false h = tt

  or_cause-IsKnown : (a b : Option Text) → IsKnown a → IsKnown b → IsKnown (or_cause a b)
  or_cause-IsKnown none b h k = k
  or_cause-IsKnown (some s) b h k = h

  when-IsKnown : (b : Bool) (c : String) → catalog (codes c) ≡ true → IsKnown (when b c)
  when-IsKnown true c h = h
  when-IsKnown false c h = tt

  alias_in-IsKnown :
      (rows : List (String × String)) (code : Text)
      → All (λ a. catalog (codes a.1) ≡ true) rows
      → IsKnown (alias_in rows code)
  alias_in-IsKnown [] code h = tt
  alias_in-IsKnown ((a, c) ∷ rows) code h =
      by_test (same_text code (codes a)) (alias_in-IsKnown rows code h.1)
    where
      by_test :
          (b : Bool)
          → IsKnown (alias_in rows code)
          → IsKnown (if b then some (codes c) else alias_in rows code)
      by_test true r = h.0
      by_test false r = r

  either_IsKnown : (b : Bool) (x : Option Text) → IsKnown x → IsKnown (if b then x else none)
  either_IsKnown true x h = h
  either_IsKnown false x h = tt

  unless_IsKnown : (b : Bool) (x : Option Text) → IsKnown x → IsKnown (if b then none else x)
  unless_IsKnown true x h = tt
  unless_IsKnown false x h = h

  provider_cause-IsKnown : (f : Failure) → HasNamed → IsKnown (provider_cause f)
  provider_cause-IsKnown f h = either_IsKnown _ _ (
      or_cause-IsKnown _ _ (when-IsKnown (is_status 401 f.http_status) "provider_auth_failed" h.0.0)
        (or_cause-IsKnown _ _
          (when-IsKnown (is_status 403 f.http_status) "provider_permission_denied" h.0.1.0)
          (or_cause-IsKnown _ _
            (when-IsKnown (is_status 429 f.http_status) "provider_rate_limited" h.0.1.1.0)
            (when-IsKnown (is_server_error f.http_status) "provider_unavailable" h.0.1.1.1.0))))

  operation_cause-IsKnown :
      (operation code : Text) → HasNamed → IsKnown (operation_cause operation code)
  operation_cause-IsKnown operation code h =
      or_cause-IsKnown _ _
        (either_IsKnown (has_infix (codes "memory") operation) _ (
          or_cause-IsKnown _ _
            (when-IsKnown (same_text code (codes "UNAVAILABLE")) "memory_search_unavailable"
              h.0.1.1.1.1.0)
            (when-IsKnown (same_text code (codes "AUTH_FAILED")) "memory_embedding_auth_failed"
              h.0.1.1.1.1.1.0)))
        (either_IsKnown (has_infix (codes "browser") operation) _ (
          or_cause-IsKnown _ _
            (when-IsKnown
              (same_text code (codes "TARGET_CLOSED") || same_text code (codes "STALE_ELEMENT"))
              "browser_target_stale" h.0.1.1.1.1.1.1.0)
            (or_cause-IsKnown _ _
              (when-IsKnown (same_text code (codes "CDP_UNAVAILABLE")) "browser_cdp_unreachable"
                h.0.1.1.1.1.1.1.1.0)
              (when-IsKnown (same_text code (codes "TIMEOUT")) "browser_navigation_timeout"
                h.0.1.1.1.1.1.1.1.1.0))))

  policy_cause-IsKnown : (code : Text) → HasNamed → IsKnown (policy_cause code)
  policy_cause-IsKnown code h =
      or_cause-IsKnown _ _
        (when-IsKnown (same_text code (codes "APPROVAL_REQUIRED")) "tool_approval_required"
          h.0.1.1.1.1.1.1.1.1.1.0)
        (or_cause-IsKnown _ _
          (when-IsKnown (same_text code (codes "APPROVAL_EXPIRED")) "tool_approval_expired"
            h.0.1.1.1.1.1.1.1.1.1.1.0)
          (when-IsKnown (same_text code (codes "POLICY_DENIED")) "tool_policy_denied"
            h.0.1.1.1.1.1.1.1.1.1.1.1.0))

  -- A cause that is reported stands in the catalog, and an expected outcome, a cancellation and a rejection by
  -- policy have none.
  pub classify-IsKnown : (f : Failure) → HasNamed → IsKnown (classify_runtime_cause catalog f)
  unfolding classify_runtime_cause
  classify-IsKnown f h = unless_IsKnown _ _ (
      or_cause-IsKnown _ _ (known_cause-IsKnown f.cause_code) (
        or_cause-IsKnown _ _ (known_cause-IsKnown (some (map lower_code (code_of f.code)))) (
          or_cause-IsKnown _ _ (alias_in-IsKnown aliases (code_of f.code) h.1) (
            or_cause-IsKnown _ _ (provider_cause-IsKnown f h) (
              or_cause-IsKnown _ _
                (operation_cause-IsKnown (lowered f.operation) (code_of f.code) h)
                (policy_cause-IsKnown (code_of f.code) h))))))
