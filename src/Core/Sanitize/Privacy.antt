-- ===== src/Core/Sanitize/Privacy.antt =====
-- src/core/sanitize.js: what can be said of every event that passes `sanitizeTelemetryEvent`.
use sidewisp_plugin.Prelude.{
  sym, ℕ, Bool, true, false, not, ◌||◌, ◌≡◌, ◌⊎◌, inl, inr, refl, String, Option, none, some, List,
  [], ◌∷◌, ◌++◌, if◌then◌else◌, All, contains, arith, eq_refl,
}
use mathlib.Core.Path.{subst}
use sidewisp_plugin.Prelude.Codes.{Text}
use sidewisp_plugin.Core.Preview.{Scan, sanitize_message_preview}
use sidewisp_plugin.Core.Preview.Bounds.{IsPreviewed, sanitize-IsPreviewed}
use sidewisp_plugin.Core.Sanitize.{
  text_of, preview_of, Value, text, flag, integer, undefined_value, other_value, pos, negsuc,
  Source, Refusal, unsafe, Checked, refused, passed, and_then, map_checked, safe_text, safe_string,
  get, pick_value, put, pick, is_one_of, detail_keys, correlation_keys, runtime_keys, source_keys,
  runtime_kinds, source_kinds, outcomes, event_types, signal_states, Input, Event, guard, natural,
  is_known_cause, kept_if, cause_details, assemble, sanitize,
}
use sidewisp_plugin.Core.SafeText.{is_safe_text, is_secret}

-- What holds of the value of a check that passes.
abbrev pub Ensures {ℓ} : {A : Type 0} → (A → Type ℓ) → Checked A → Type ℓ
Ensures P (refused r) = Unit
Ensures P (passed a) = P a

module _ {ℓ κ} {A B : Type 0} (P : A → Type ℓ) (Q : B → Type κ) where
  pub then-Ensures :
      (f : A → Checked B) (r : Checked A)
      → Ensures P r
      → ((a : A) → P a → Ensures Q (f a))
      → Ensures Q (and_then r f)
  then-Ensures f (refused r) h k = tt
  then-Ensures f (passed a) h k = k a h

  map-Ensures :
      (f : A → B) (r : Checked A)
      → Ensures P r
      → ((a : A) → P a → Q (f a))
      → Ensures Q (map_checked f r)
  map-Ensures f (refused r) h k = tt
  map-Ensures f (passed a) h k = k a h

-- A text of the safe alphabet that looks like no credential
abbrev pub IsCleanText : Text → Type 0
IsCleanText s = (is_safe_text s ≡ true) × (is_secret s ≡ false)

abbrev pub IsCleanValue : Value → Type 0
IsCleanValue (text s) = IsCleanText s
IsCleanValue (flag b) = Unit
IsCleanValue (integer n) = Unit
IsCleanValue undefined_value = ⊥
IsCleanValue other_value = ⊥

-- A property of a permitted name with a clean value
abbrev pub IsCleanField : List String → String × Value → Type 0
IsCleanField keys f = (contains f.0 keys ≡ true) × IsCleanValue f.1

safe_text-IsClean : (key : String) (s : Text) → Ensures IsCleanText (safe_text key s)
unfolding safe_text
safe_text-IsClean key s = by_tests (is_safe_text s) refl (is_secret s) refl
  where
    by_tests :
        (b : Bool)
        → is_safe_text s ≡ b
        → (c : Bool) → is_secret s ≡ c
        → Ensures IsCleanText (if not b || c then refused (unsafe key) else passed s)
    by_tests true e true f = tt
    by_tests true e false f = (e, f)
    by_tests false e c f = tt

safe_string-IsClean : (key : String) (v : Value) → Ensures IsCleanText (safe_string key v)
safe_string-IsClean key (text s) = safe_text-IsClean key s
safe_string-IsClean key (flag b) = tt
safe_string-IsClean key (integer n) = tt
safe_string-IsClean key undefined_value = tt
safe_string-IsClean key other_value = tt

abbrev IsCleanOption : Option Value → Type 0
IsCleanOption none = Unit
IsCleanOption (some v) = IsCleanValue v

pick_value-IsClean : (key : String) (v : Value) → Ensures IsCleanOption (pick_value key v)
pick_value-IsClean key (text s) =
    map-Ensures IsCleanText IsCleanOption (λ t. some (text t)) (safe_text key s)
      (safe_text-IsClean key s) (λ t h. h)
pick_value-IsClean key (flag b) = tt
pick_value-IsClean key (integer n) = tt
pick_value-IsClean key undefined_value = tt
pick_value-IsClean key other_value = tt

contains_more :
    (k key : String) (keys : List String) → contains k keys ≡ true → contains k (key ∷ keys) ≡ true
contains_more k key keys h = ground (arith, h)

All-more :
    (key : String) (keys : List String) (output : Source)
    → All (IsCleanField keys) output
    → All (IsCleanField (key ∷ keys)) output
All-more key keys [] h = tt
All-more key keys ((k, v) ∷ output) h =
    ((contains_more k key keys h.0.0, h.0.1), All-more key keys output h.1)

put-IsClean :
    (key : String) (keys : List String) (o : Option Value) (output : Source)
    → IsCleanOption o
    → All (IsCleanField keys) output
    → All (IsCleanField (key ∷ keys)) (put key o output)
put-IsClean key keys none output h k = All-more key keys output k
put-IsClean key keys (some v) output h k =
    ((ground (arith, eq_refl key), h), All-more key keys output k)

pick-IsClean :
    (source : Source) (keys : List String) → Ensures (All (IsCleanField keys)) (pick source keys)
unfolding pick
pick-IsClean source [] = tt
pick-IsClean source (key ∷ keys) =
    then-Ensures IsCleanOption (All (IsCleanField (key ∷ keys)))
      (λ v. map_checked (put key v) (pick source keys)) (pick_value key (get key source))
      (pick_value-IsClean key (get key source))
      (λ o h.
        map-Ensures (All (IsCleanField keys)) (All (IsCleanField (key ∷ keys))) (put key o)
          (pick source keys) (pick-IsClean source keys)
          (λ output k. put-IsClean key keys o output h k))

-- A detail: a clean one, a cause of the catalog, or a state of its signal.
abbrev pub IsDetail : (catalog : Text → Bool) → String × Value → Type 0
IsDetail catalog f =
    IsCleanField detail_keys f
    ⊎ (((f.0 ≡ "causeCode") × (is_known_cause catalog f.1 ≡ true))
        ⊎ ((f.0 ≡ "signalState") × (is_one_of f.1 signal_states ≡ true)))

abbrev IsWord : List String → Text → Type 0
IsWord words s = is_one_of (text s) words ≡ true

-- An event of permitted names and vocabularies, whose every text is clean or one of the vocabulary's, but for a
-- preview.
pub record IsClean (scan : Scan) (catalog : Text → Bool) (e : Event) : Type 0 where
  pub clean_ids : IsCleanText e.event_id × IsCleanText e.installation_id
  pub clean_times : IsCleanText e.occurred_at × IsCleanText e.observed_at
  pub clean_runtime : All (IsCleanField runtime_keys) e.runtime
  pub known_runtime : is_one_of (get "kind" e.runtime) runtime_kinds ≡ true
  pub clean_source : All (IsCleanField source_keys) e.source
  pub known_source : is_one_of (get "kind" e.source) source_kinds ≡ true
  pub known_type : is_one_of (text e.type) event_types ≡ true
  pub known_outcome : is_one_of (text e.outcome) outcomes ≡ true
  pub clean_correlation : All (IsCleanField correlation_keys) e.correlation
  pub clean_details : All (IsDetail catalog) e.details
  pub clean_preview : IsPreviewed scan e.type e.message_preview

preview_of-IsPreviewed :
    (scan : Scan) (i : Input) (t : Text) → i.type ≡ text t → IsPreviewed scan t (preview_of scan i)
preview_of-IsPreviewed scan i t h =
    subst
      (λ v. IsPreviewed scan t (
        sanitize_message_preview scan (text_of i.message_preview) (text_of v)
          (text_of (get "status" i.details)) (text_of (get "operation" i.details))))
      (sym h)
      (sanitize-IsPreviewed scan (text_of i.message_preview) t (text_of (get "status" i.details))
        (text_of (get "operation" i.details)))

kept_if-IsDetail :
    (catalog : Text → Bool) (b : Bool) (key : String) (v : Value)
    → (b ≡ true → IsDetail catalog (key, v))
    → All (IsDetail catalog) (kept_if b key v)
kept_if-IsDetail catalog true key v h = (h refl, tt)
kept_if-IsDetail catalog false key v h = tt

All-append :
    (catalog : Text → Bool) (xs ys : Source)
    → All (IsDetail catalog) xs
    → All (IsDetail catalog) ys
    → All (IsDetail catalog) (xs ++ ys)
All-append catalog [] ys h k = k
All-append catalog (x ∷ xs) ys h k = (h.0, All-append catalog xs ys h.1 k)

cause_details-IsDetail :
    (catalog : Text → Bool) (details : Source)
    → All (IsDetail catalog) (cause_details catalog details)
cause_details-IsDetail catalog details =
    let cause = get "causeCode" details in
    let state = get "signalState" details in
    All-append catalog _ _
      (kept_if-IsDetail catalog (is_known_cause catalog cause) "causeCode" cause
        (λ h. inr (inl (refl, h))))
      (kept_if-IsDetail catalog (is_one_of state signal_states) "signalState" state
        (λ h. inr (inr (refl, h))))

All-IsDetail :
    (catalog : Text → Bool) (xs : Source)
    → All (IsCleanField detail_keys) xs
    → All (IsDetail catalog) xs
All-IsDetail catalog [] h = tt
All-IsDetail catalog (x ∷ xs) h = (inl h.0, All-IsDetail catalog xs h.1)

safe_text-IsWord :
    (key : String) (s : Text) (words : List String)
    → IsWord words s
    → Ensures (λ t. IsWord words t × (text s ≡ text t)) (safe_text key s)
unfolding safe_text
safe_text-IsWord key s words h = by_test (not (is_safe_text s) || is_secret s)
  where
    by_test :
        (b : Bool)
        → Ensures
            (λ t. IsWord words t × (text s ≡ text t))
            (if b then refused (unsafe key) else passed s)
    by_test true = tt
    by_test false = (h, refl)

-- A text that is taken from a value of a vocabulary is of the vocabulary.
safe_string-IsWord :
    (key : String) (v : Value) (words : List String)
    → is_one_of v words ≡ true
    → Ensures (λ s. IsWord words s × (v ≡ text s)) (safe_string key v)
safe_string-IsWord key (text s) words h = safe_text-IsWord key s words h
safe_string-IsWord key (flag b) words h = tt
safe_string-IsWord key (integer n) words h = tt
safe_string-IsWord key undefined_value words h = tt
safe_string-IsWord key other_value words h = tt

pub guard-Ensures :
    {A : Type 0} (P : A → Type 0) (b : Bool) (r : Refusal) (a : Checked A)
    → (b ≡ true → Ensures P a)
    → Ensures P (guard b r a)
guard-Ensures P true r a h = h refl
guard-Ensures P false r a h = tt

abbrev IsAny : ℕ → Type 0
IsAny n = Unit

natural-Ensures : (v : Value) → Ensures IsAny (natural v)
natural-Ensures (integer (pos n)) = tt
natural-Ensures (integer (negsuc n)) = tt
natural-Ensures (text s) = tt
natural-Ensures (flag b) = tt
natural-Ensures undefined_value = tt
natural-Ensures other_value = tt

module _ (scan : Scan) (catalog : Text → Bool) (i : Input) (runtime source : Source) where
  assemble-IsClean :
      All (IsCleanField runtime_keys) runtime
      → is_one_of (get "kind" runtime) runtime_kinds ≡ true
      → All (IsCleanField source_keys) source
      → is_one_of (get "kind" source) source_kinds ≡ true
      → is_one_of i.type event_types ≡ true
      → is_one_of i.outcome outcomes ≡ true
      → Ensures (IsClean scan catalog) (assemble scan catalog i runtime source)
  assemble-IsClean hr kr hs ks kt ko =
      then-Ensures IsCleanText (IsClean scan catalog) _ _
        (safe_string-IsClean "event-id" i.event_id)
        (λ a ha.
          then-Ensures IsCleanText (IsClean scan catalog) _ _
            (safe_string-IsClean "installation-id" i.installation_id)
            (λ b hb.
              then-Ensures IsAny (IsClean scan catalog) _ _ (natural-Ensures i.sequence) (λ n hn.
                then-Ensures IsCleanText (IsClean scan catalog) _ _
                  (safe_string-IsClean "occurred-at" i.occurred_at)
                  (λ c hc.
                    then-Ensures IsCleanText (IsClean scan catalog) _ _
                      (safe_string-IsClean "observed-at" i.observed_at)
                      (λ d hd.
                        then-Ensures (λ s. IsWord event_types s × (i.type ≡ text s))
                          (IsClean scan catalog) _ _
                          (safe_string-IsWord "type" i.type event_types kt)
                          (λ t ht.
                            then-Ensures (λ s. IsWord outcomes s × (i.outcome ≡ text s))
                              (IsClean scan catalog) _ _
                              (safe_string-IsWord "outcome" i.outcome outcomes ko)
                              (λ o ho.
                                then-Ensures (All (IsCleanField correlation_keys))
                                  (IsClean scan catalog) _ _
                                  (pick-IsClean i.correlation correlation_keys)
                                  (λ co hco.
                                    then-Ensures (All (IsCleanField detail_keys))
                                      (IsClean scan catalog) _ _
                                      (pick-IsClean i.details detail_keys)
                                      (λ de hde. record {
                                        clean_ids = (ha, hb);
                                        clean_times = (hc, hd);
                                        clean_runtime = hr;
                                        known_runtime = kr;
                                        clean_source = hs;
                                        known_source = ks;
                                        known_type = ht.0;
                                        known_outcome = ho.0;
                                        clean_correlation = hco;
                                        clean_preview = preview_of-IsPreviewed scan i t ht.1;
                                        clean_details =
                                            All-append catalog de (cause_details catalog i.details)
                                              (All-IsDetail catalog de hde)
                                              (cause_details-IsDetail catalog i.details);
                                      })))))))))

sanitize-Ensures :
    (scan : Scan) (catalog : Text → Bool) (i : Input)
    → Ensures (IsClean scan catalog) (sanitize scan catalog i)
unfolding sanitize
sanitize-Ensures scan catalog i =
    then-Ensures (All (IsCleanField runtime_keys)) (IsClean scan catalog) _ _
      (pick-IsClean i.runtime runtime_keys)
      (λ runtime hr.
        then-Ensures (All (IsCleanField source_keys)) (IsClean scan catalog) _ _
          (pick-IsClean i.source source_keys)
          (λ source hs. guard-Ensures (IsClean scan catalog) _ _ _ (λ kr.
            guard-Ensures (IsClean scan catalog) _ _ _ (λ ks.
              guard-Ensures (IsClean scan catalog) _ _ _ (λ kt.
                guard-Ensures (IsClean scan catalog) _ _ _
                  (λ ko. assemble-IsClean scan catalog i runtime source hr kr hs ks kt ko))))))

-- Every event that passes has the permitted properties only, its vocabularies' kinds, type and outcome, and in
-- every other text the safe alphabet and no credential, but for a cause of the catalog and for a preview. Only
-- an event of a type that may have a preview has one; it has 160 UTF-16 units at most, and it is the beginning of a text that was
-- scanned for credentials and control characters as a whole, beyond its end too.
pub sanitize-IsClean :
    (scan : Scan) (catalog : Text → Bool) (i : Input) (e : Event)
    → sanitize scan catalog i ≡ passed e
    → IsClean scan catalog e
sanitize-IsClean scan catalog i e h =
    subst (Ensures (IsClean scan catalog)) h (sanitize-Ensures scan catalog i)
