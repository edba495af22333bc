-- ===== src/Core/Diagnostics/Privacy.antt =====
-- src/core/diagnostics.js: no fact of a snapshot carries a prohibited text.
use sidewisp_plugin.Prelude.{
  ℕ, ◌≤◌, ◌≡◌, refl, String, Bool, true, false, not, ◌||◌, Option, none, some, List, [], ◌∷◌, arith,
  if◌then◌else◌, length, length-take, All, All-take,
}
use sidewisp_plugin.Prelude.Codes.{units, Text, codes}
use sidewisp_plugin.Prelude.Sort.{sort, All-sort}
use sidewisp_plugin.Update.Directive.{strip_prefix}
use sidewisp_plugin.Core.Diagnostics.{
  is_safe_key, is_safe_id, safe_id, Field, absent, not_text, text, Value, FactStatus, Severity,
  boolean, finite_number, text_value, other_value, RawFact, Fact, is_scalar, safe_label, is_empty,
  known_fact, normalize_fact, normalize_facts, Section, normalize_section, Probe, no_probe, failing,
  returning, section_of, diagnostic_sections, collect_sections, collect_runtime_diagnostics,
}
use sidewisp_plugin.Core.ProhibitedText.{has_infix, has_api_key, is_prohibited}

abbrev pub IsCleanId : Text → Type 0
IsCleanId s = (is_safe_key s ≡ true) × (is_prohibited s ≡ false)

abbrev pub IsCleanLabel : Option Text → Type 0
IsCleanLabel none = Unit
IsCleanLabel (some s) = IsCleanId s

-- A Boolean, a finite number, or a text of 1 to 128 UTF-16 units without a prohibited word.
abbrev pub IsCleanValue : Value → Type 0
IsCleanValue (boolean b) = Unit
IsCleanValue (finite_number n) = Unit
IsCleanValue (text_value s) = (1 ≤ units s) × (units s ≤ 128) × (is_prohibited s ≡ false)
IsCleanValue other_value = true ≡ false

-- The key and the labels are safe identifiers without a prohibited word, and the value is clean.
pub record IsClean (f : Fact) : Type 0 where
  pub key : IsCleanId f.key
  pub value : IsCleanValue f.value
  pub unit : IsCleanLabel f.unit
  pub source : IsCleanLabel f.source

value-IsClean : (v : Value) → is_scalar v ≡ true → IsCleanValue v
unfolding is_scalar
value-IsClean (boolean b) h = tt
value-IsClean (finite_number n) h = tt
value-IsClean (text_value s) h = (ground (arith, h), ground (arith, h), ground (arith, h))
value-IsClean other_value h = absurd (ground (arith, h))

unknown-IsCleanId : IsCleanId (codes "unknown")
unfolding is_safe_key is_prohibited has_infix has_api_key strip_prefix
unknown-IsCleanId = (refl, refl)

text-IsCleanId :
    (s fallback : Text) (max : ℕ)
    → (is_safe_id max s ≡ false → IsCleanId fallback)
    → IsCleanId (if is_safe_id max s then s else fallback)
text-IsCleanId s fallback max h = by_test (is_safe_id max s) refl
  where
    by_test : (b : Bool) → is_safe_id max s ≡ b → IsCleanId (if b then s else fallback)
    by_test true q = (ground (arith, q), ground (arith, q))
    by_test false q = h q

label-IsClean : (f : Field) (max : ℕ) → IsCleanLabel (safe_label f max)
unfolding safe_id
label-IsClean absent max = tt
label-IsClean not_text max = unknown-IsCleanId
label-IsClean (text s) max = text-IsCleanId s (codes "unknown") max (λ q. unknown-IsCleanId)

key-IsCleanId : (f : Field) → is_empty (safe_id f [] 128) ≡ false → IsCleanId (safe_id f [] 128)
unfolding safe_id
key-IsCleanId absent h = absurd (ground (arith, h))
key-IsCleanId not_text h = absurd (ground (arith, h))
key-IsCleanId (text s) h = text-IsCleanId s [] 128 (λ q. absurd (ground (arith, h, q)))

AllClean : Option Fact → Type 0
AllClean none = Unit
AllClean (some f) = IsClean f

fact-AllClean : (f : Option RawFact) → AllClean (normalize_fact f)
unfolding normalize_fact AllClean
fact-AllClean none = tt
fact-AllClean (some f) =
    by_tests (is_empty (safe_id f.raw_key [] 128)) (is_scalar f.raw_value) refl refl
  where
    by_known :
        (o : Option FactStatus) (v : Option Severity)
        → is_empty (safe_id f.raw_key [] 128) ≡ false
        → is_scalar f.raw_value ≡ true
        → AllClean (known_fact (safe_id f.raw_key [] 128) f.raw_value f o v)
    by_known none v p q = tt
    by_known (some s) none p q = tt
    by_known (some s) (some v) p q = record {
      key = key-IsCleanId f.raw_key p;
      value = value-IsClean f.raw_value q;
      unit = label-IsClean f.raw_unit 32;
      source = label-IsClean f.raw_source 64;
    }

    by_tests :
        (empty scalar : Bool)
        → is_empty (safe_id f.raw_key [] 128) ≡ empty
        → is_scalar f.raw_value ≡ scalar
        → AllClean (
            if empty || not scalar
            then none
            else known_fact (safe_id f.raw_key [] 128) f.raw_value f f.raw_status f.raw_severity)
    by_tests true scalar p q = tt
    by_tests false false p q = tt
    by_tests false true p q = by_known f.raw_status f.raw_severity p q

facts-AreClean : (fs : List (Option RawFact)) → All IsClean (normalize_facts fs)
unfolding normalize_facts
facts-AreClean [] = tt
facts-AreClean (f ∷ fs) = by_fact (normalize_fact f) (fact-AllClean f) (facts-AreClean fs)
  where
    by_fact :
        (o : Option Fact)
        → AllClean o
        → All IsClean (normalize_facts fs)
        → All IsClean (elim o [ none ↦ normalize_facts fs | some g ↦ g ∷ normalize_facts fs ])
    by_fact none h k = k
    by_fact (some g) h k = (unfold AllClean in h, k)

abbrev pub IsCleanSection : Section → Type 0
IsCleanSection s = (length s.facts ≤ 64) × All IsClean s.facts

section-IsClean :
    (before : Text → Text → Bool) (key : String) (p : Probe)
    → IsCleanSection (section_of before key p)
section-IsClean before key no_probe = (omega arith, tt)
section-IsClean before key failing = (omega arith, tt)
section-IsClean before key (returning r) =
    let facts = sort (λ a b. before a.key b.key) (normalize_facts r.probe_facts) in
    unfold normalize_section in
    (
      omega (arith, length-take 64 facts),
      All-take IsClean 64 facts (
          All-sort (λ a b. before a.key b.key) IsClean (normalize_facts r.probe_facts)
            (facts-AreClean r.probe_facts)),
    )

sections-AreClean :
    (before : Text → Text → Bool) (probes : String → Probe) (keys : List String)
    → All IsCleanSection (collect_sections before probes keys)
unfolding collect_sections
sections-AreClean before probes [] = tt
sections-AreClean before probes (key ∷ keys) =
    (section-IsClean before key (probes key), sections-AreClean before probes keys)

-- Whatever the probes return, each section of a snapshot has 64 facts at most; the key and the labels
-- of each fact are safe identifiers, a text value has 1 to 128 characters, and neither they nor a text
-- value contain a prohibited word.
pub collect-AreClean :
    (before : Text → Text → Bool) (probes : String → Probe)
    → All IsCleanSection (collect_runtime_diagnostics before probes).sections
unfolding collect_runtime_diagnostics
collect-AreClean before probes = sections-AreClean before probes diagnostic_sections
