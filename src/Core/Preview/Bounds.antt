-- ===== src/Core/Preview/Bounds.antt =====
-- src/core/message-preview.js: a preview is short, and the whole text that it begins has been scanned.
use sidewisp_plugin.Prelude.{
  ℕ, ◌+◌, ◌-◌, ◌≤◌, ◌≡◌, refl, ap, ◌⊎◌, inl, inr, Bool, true, false, not, ◌||◌, Option, none, some,
  [], ◌∷◌, ◌++◌, arith, leb, if◌then◌else◌,
}
use sidewisp_plugin.Prelude.Codes.{Text, codes, units}
use sidewisp_plugin.Core.Preview.{
  Scan, preview_types, wait_tool_types, has_word, allows_preview, width, take_units, trimmed,
  trim_end, shorten, is_empty, sanitize_message_preview,
}

units-take_units : (n : ℕ) (s : Text) → units (take_units n s) ≤ n
unfolding take_units
units-take_units n [] = omega arith
units-take_units n (c ∷ s) = ground (arith, units-take_units (n - width c) s)

units-trimmed : (c : ℕ) (s : Text) → units (trimmed c s) ≤ units (c ∷ s)
units-trimmed c [] = ground arith
units-trimmed c (d ∷ s) = omega arith

units-trim_end : (s : Text) → units (trim_end s) ≤ units s
unfolding trim_end
units-trim_end [] = omega arith
units-trim_end (c ∷ s) = omega (arith, units-trimmed c (trim_end s), units-trim_end s)

units-append : (s t : Text) → units (s ++ t) ≡ units s + units t
units-append [] t = omega arith
units-append (c ∷ s) t = omega (arith, units-append s t)

take_units-rest : (n : ℕ) (s : Text) → (rest : Text) × (s ≡ take_units n s ++ rest)
unfolding take_units
take_units-rest n [] = ([], refl)
take_units-rest n (c ∷ s) = by_room (leb (width c) n) (take_units-rest (n - width c) s)
  where
    by_room :
        (b : Bool)
        → (rest : Text) × (s ≡ take_units (n - width c) s ++ rest)
        → (rest : Text) × (c ∷ s ≡ (if b then c ∷ take_units (n - width c) s else []) ++ rest)
    by_room true r = (r.0, ap (λ t. c ∷ t) r.1)
    by_room false r = (c ∷ s, refl)

-- A text itself, or a beginning of it, without the spaces at its end, and an ellipsis
abbrev pub IsShown : Text → Text → Type 0
IsShown s p =
    (p ≡ s)
    ⊎ ((start : Text) × (rest : Text) × (s ≡ start ++ rest) × (p ≡ trim_end start ++ codes "…"))

shorten-IsShown : (s : Text) → (units (shorten s) ≤ 160) × IsShown s (shorten s)
unfolding shorten
shorten-IsShown s = by_length (leb (units s) 160) refl
  where
    by_length :
        (b : Bool)
        → leb (units s) 160 ≡ b
        → let p = (if b then s else trim_end (take_units 159 s) ++ codes "…") in
          (units p ≤ 160) × IsShown s p
    by_length true h = (ground arith, inl refl)
    by_length false h = (
      omega (
        arith,
        units-append (trim_end (take_units 159 s)) (codes "…"),
        units-trim_end (take_units 159 s),
        units-take_units 159 s,
      ),
      inr (take_units 159 s, (take_units-rest 159 s).0, (take_units-rest 159 s).1, refl),
    )

-- What a preview is: for a type of event that may have one, 160 UTF-16 units at most of a text that was scanned whole.
pub record IsPreview (scan : Scan) (type : Text) (p : Text) : Type 0 where
  pub original : Text
  pub scanned : scan.is_unsafe (scan.normalize original) ≡ false
  pub shown : IsShown (scan.normalize original) p
  pub short : units p ≤ 160
  pub typed :
      (has_word preview_types (some type) ≡ true)
      ⊎ ((has_word ("turn.started" ∷ []) (some type) ≡ true)
          ⊎ (has_word wait_tool_types (some type) ≡ true))

abbrev pub IsPreviewed : Scan → Text → Option Text → Type 0
IsPreviewed scan type none = Unit
IsPreviewed scan type (some p) = IsPreview scan type p

pub sanitize-IsPreviewed :
    (scan : Scan) (value : Option Text) (type : Text) (status operation : Option Text)
    → IsPreviewed scan type (sanitize_message_preview scan value (some type) status operation)
unfolding sanitize_message_preview
sanitize-IsPreviewed scan none type status operation = tt
sanitize-IsPreviewed scan (some s) type status operation =
    by_tests (allows_preview (some type) status operation) (leb (units s) 16384)
      (is_empty (scan.normalize s)) (scan.is_unsafe (scan.normalize s)) refl refl
  where
    is_typed :
        allows_preview (some type) status operation ≡ true
        → (has_word preview_types (some type) ≡ true)
          ⊎ ((has_word ("turn.started" ∷ []) (some type) ≡ true)
              ⊎ (has_word wait_tool_types (some type) ≡ true))
    is_typed h = unfold allows_preview in ground arith

    by_tests :
        (allowed fits empty unsafe : Bool)
        → allows_preview (some type) status operation ≡ allowed
        → scan.is_unsafe (scan.normalize s) ≡ unsafe
        → IsPreviewed scan type (
            if not allowed || not fits
            then none
            else if empty || unsafe
            then none
            else some (shorten (scan.normalize s)))
    by_tests false fits empty unsafe h k = tt
    by_tests true false empty unsafe h k = tt
    by_tests true true true unsafe h k = tt
    by_tests true true false true h k = tt
    by_tests true true false false h k = record {
      original = s;
      scanned = k;
      shown = (shorten-IsShown (scan.normalize s)).1;
      short = (shorten-IsShown (scan.normalize s)).0;
      typed = is_typed h;
    }
