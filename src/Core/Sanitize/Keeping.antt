-- ===== src/Core/Sanitize/Keeping.antt =====
-- src/core/sanitize.js: the type and the outcome of an input that passes `sanitizeTelemetryEvent` are those of the event.
use sidewisp_plugin.Prelude.{Bool, true, false, not, ◌||◌, ◌≡◌, refl, String, if◌then◌else◌}
use mathlib.Core.Path.{subst}
use sidewisp_plugin.Prelude.Codes.{Text}
use sidewisp_plugin.Core.Sanitize.Privacy.{Ensures, then-Ensures, guard-Ensures}
use sidewisp_plugin.Core.Sanitize.{
  invalid_runtime_kind, invalid_source_kind, invalid_event_type, invalid_outcome, Value, text, flag,
  integer, undefined_value, other_value, Source, unsafe, Checked, refused, passed, safe_text,
  safe_string, get, pick, is_one_of, detail_keys, correlation_keys, runtime_keys, source_keys,
  runtime_kinds, source_kinds, outcomes, event_types, Input, Event, natural, assemble, sanitize,
}
use sidewisp_plugin.Core.Preview.{Scan}
use sidewisp_plugin.Core.SafeText.{is_safe_text, is_secret}

-- The type and the outcome of the input are those of the event.
abbrev pub Keeps : Input → Event → Type 0
Keeps i e = (i.type ≡ text e.type) × (i.outcome ≡ text e.outcome)

abbrev IsAnything : {A : Type 0} → A → Type 0
IsAnything a = Unit

any_Ensures : {A : Type 0} (r : Checked A) → Ensures IsAnything r
any_Ensures (refused r) = tt
any_Ensures (passed a) = tt

safe_string-Keeps : (key : String) (v : Value) → Ensures (λ t. v ≡ text t) (safe_string key v)
unfolding safe_text
safe_string-Keeps key (text s) = by_test (not (is_safe_text s) || is_secret s)
  where
    by_test :
        (b : Bool) → Ensures (λ t. text s ≡ text t) (if b then refused (unsafe key) else passed s)
    by_test true = tt
    by_test false = refl
safe_string-Keeps key (flag b) = tt
safe_string-Keeps key (integer n) = tt
safe_string-Keeps key undefined_value = tt
safe_string-Keeps key other_value = tt

assemble-Keeps :
    (scan : Scan) (catalog : Text → Bool) (i : Input) (runtime source : Source)
    → Ensures (Keeps i) (assemble scan catalog i runtime source)
assemble-Keeps scan catalog i runtime source =
    then-Ensures IsAnything (Keeps i) _ _ (any_Ensures (safe_string "event-id" i.event_id)) (λ a ha.
      then-Ensures IsAnything (Keeps i) _ _
        (any_Ensures (safe_string "installation-id" i.installation_id))
        (λ b hb. then-Ensures IsAnything (Keeps i) _ _ (any_Ensures (natural i.sequence)) (λ n hn.
          then-Ensures IsAnything (Keeps i) _ _
            (any_Ensures (safe_string "occurred-at" i.occurred_at))
            (λ c hc.
              then-Ensures IsAnything (Keeps i) _ _
                (any_Ensures (safe_string "observed-at" i.observed_at))
                (λ d hd.
                  then-Ensures (λ t. i.type ≡ text t) (Keeps i) _ _
                    (safe_string-Keeps "type" i.type)
                    (λ t ht.
                      then-Ensures (λ o. i.outcome ≡ text o) (Keeps i) _ _
                        (safe_string-Keeps "outcome" i.outcome)
                        (λ o ho.
                          then-Ensures IsAnything (Keeps i) _ _
                            (any_Ensures (pick i.correlation correlation_keys))
                            (λ co hco.
                              then-Ensures IsAnything (Keeps i) _ _
                                (any_Ensures (pick i.details detail_keys))
                                (λ de hde. (ht, ho))))))))))

sanitize-Ensures-Keeps :
    (scan : Scan) (catalog : Text → Bool) (i : Input) → Ensures (Keeps i) (sanitize scan catalog i)
unfolding sanitize
sanitize-Ensures-Keeps scan catalog i =
    then-Ensures IsAnything (Keeps i) _ _ (any_Ensures (pick i.runtime runtime_keys)) (λ runtime hr.
      then-Ensures IsAnything (Keeps i) _ _ (any_Ensures (pick i.source source_keys)) (λ source hs.
        guard-Ensures (Keeps i) (is_one_of (get "kind" runtime) runtime_kinds) invalid_runtime_kind
          _
          (λ kr.
            guard-Ensures (Keeps i) (is_one_of (get "kind" source) source_kinds) invalid_source_kind
              _
              (λ ks.
                guard-Ensures (Keeps i) (is_one_of i.type event_types) invalid_event_type _ (λ kt.
                  guard-Ensures (Keeps i) (is_one_of i.outcome outcomes) invalid_outcome _
                    (λ ko. assemble-Keeps scan catalog i runtime source))))))

pub sanitize-Keeps :
    (scan : Scan) (catalog : Text → Bool) (i : Input) (e : Event)
    → sanitize scan catalog i ≡ passed e
    → Keeps i e
sanitize-Keeps scan catalog i e h =
    subst (Ensures (Keeps i)) h (sanitize-Ensures-Keeps scan catalog i)
