-- ===== src/Core/Diagnostics.antt =====
-- src/core/diagnostics.js: which facts of the probes reach a diagnostics snapshot, and its outcome.
pub mod Privacy
use sidewisp_plugin.Prelude.{
  ℕ, ◌+◌, String, Bool, true, false, not, ◌&&◌, ◌||◌, Option, none, some, List, [], ◌∷◌, map,
  is_some, leb, ltb, eqb, if◌then◌else◌, any, all, filter, length, take,
}
use sidewisp_plugin.Prelude.Codes.{units, Text, codes, is_digit, is_lower, is_upper}
use sidewisp_plugin.Prelude.Sort.{sort}
use sidewisp_plugin.Update.Directive.{strip_prefix}
use sidewisp_plugin.Core.ProhibitedText.{is_prohibited}

abbrev pub is_key_code : ℕ → Bool
is_key_code c = is_lower c || is_digit c || eqb c b'.' || eqb c b'_' || eqb c b'-'

-- `/^[a-z0-9][a-z0-9._-]{0,127}$/`
unfoldable pub is_safe_key : Text → Bool
is_safe_key [] = false
is_safe_key (c ∷ s) = (is_lower c || is_digit c) && leb (length s) 127 && all is_key_code s

-- A field of a value of unknown type: missing or falsy, of another type, or a text.
pub data Field : Type 0 where
  absent not_text : Field
  text : Text → Field

abbrev pub is_safe_id : ℕ → Text → Bool
is_safe_id max s = ltb 0 (length s) && leb (length s) max && is_safe_key s && not (is_prohibited s)

unfoldable pub safe_id : Field → Text → ℕ → Text
unfolding is_safe_key is_prohibited
safe_id (text s) fallback max = if is_safe_id max s then s else fallback
safe_id _ fallback max = fallback

-- A number that is finite is its printed form.
pub data Value : Type 0 where
  boolean : Bool → Value
  finite_number text_value : Text → Value
  other_value : Value

pub data FactStatus : Type 0 where
  ok degraded unhealthy unknown unsupported : FactStatus

pub data Severity : Type 0 where
  info warning error : Severity

-- What a probe lists: a status or a severity that is none of the known ones is `none`.
pub record RawFact : Type 0 where
  pub raw_key : Field
  pub raw_status : Option FactStatus
  pub raw_severity : Option Severity
  pub raw_value : Value
  pub raw_unit : Field
  pub raw_source : Field

pub record Fact : Type 0 where
  pub key : Text
  pub status : FactStatus
  pub severity : Severity
  pub value : Value
  pub unit : Option Text
  pub source : Option Text

unfoldable pub is_scalar : Value → Bool
unfolding is_prohibited
is_scalar (boolean b) = true
is_scalar (finite_number n) = true
is_scalar (text_value s) = ltb 0 (units s) && leb (units s) 128 && not (is_prohibited s)
is_scalar other_value = false

-- `fact.unit ? { unit: safeId(fact.unit, "unknown", 32) } : {}`
abbrev pub safe_label : Field → ℕ → Option Text
safe_label absent max = none
safe_label not_text max = some (codes "unknown")
safe_label (text s) max = some (safe_id (text s) (codes "unknown") max)

abbrev pub is_empty : Text → Bool
is_empty [] = true
is_empty (c ∷ s) = false

abbrev pub known_fact : Text → Value → RawFact → Option FactStatus → Option Severity → Option Fact
known_fact key value f (some status) (some severity) = some (record {
  key = key;
  status = status;
  severity = severity;
  value = value;
  unit = safe_label f.raw_unit 32;
  source = safe_label f.raw_source 64;
})
known_fact key value f _ _ = none

-- `normalizeFact`, on an element that is an object; any other one is `none`.
unfoldable pub normalize_fact : Option RawFact → Option Fact
unfolding safe_id is_scalar
normalize_fact none = none
normalize_fact (some f) =
    let key = safe_id f.raw_key [] 128 in
    if is_empty key || not (is_scalar f.raw_value)
    then none
    else known_fact key f.raw_value f f.raw_status f.raw_severity

unfoldable pub normalize_facts : List (Option RawFact) → List Fact
unfolding normalize_fact
normalize_facts [] = []
normalize_facts (f ∷ fs) = elim (normalize_fact f) [
  | none ↦ normalize_facts fs
  | some g ↦ g ∷ normalize_facts fs
]

pub data Outcome : Type 0 where
  ok_outcome degraded_outcome unsupported_outcome error_outcome : Outcome

pub record Section : Type 0 where
  pub section_key : String
  pub outcome : Outcome
  pub facts : List Fact

-- What a probe returns; facts that are no array are an empty list.
pub record ProbeResult : Type 0 where
  pub probe_outcome : Option Outcome
  pub probe_facts : List (Option RawFact)

abbrev pub or_error : Option Outcome → Outcome
or_error none = error_outcome
or_error (some o) = o

-- `before` is `localeCompare`.
unfoldable pub normalize_section : (Text → Text → Bool) → String → ProbeResult → Section
unfolding normalize_facts sort
normalize_section before key r = record {
  section_key = key;
  outcome = or_error r.probe_outcome;
  facts = take 64 (sort (λ a b. before a.key b.key) (normalize_facts r.probe_facts));
}

abbrev pub diagnostic_sections : List String
diagnostic_sections =
    "runtime" ∷ "configuration" ∷ "connectivity" ∷ "storage" ∷ "scheduler" ∷ "integrations"
    ∷ "updates" ∷ []

-- A probe that is no function, that throws or is late, or that returns.
pub data Probe : Type 0 where
  no_probe failing : Probe
  returning : ProbeResult → Probe

abbrev pub section_of : (Text → Text → Bool) → String → Probe → Section
section_of before key no_probe = record {
  section_key = key;
  outcome = unsupported_outcome;
  facts = [];
}
section_of before key failing = record { section_key = key; outcome = error_outcome; facts = [] }
section_of before key (returning r) = normalize_section before key r

abbrev pub is_failing : Probe → Bool
is_failing failing = true
is_failing _ = false

unfoldable pub collect_sections :
    (Text → Text → Bool) → (String → Probe) → List String → List Section
unfolding normalize_section
collect_sections before probes [] = []
collect_sections before probes (key ∷ keys) =
    section_of before key (probes key) ∷ collect_sections before probes keys

abbrev pub is_degraded_outcome : Outcome → Bool
is_degraded_outcome degraded_outcome = true
is_degraded_outcome _ = false

abbrev pub is_unsupported_outcome : Outcome → Bool
is_unsupported_outcome unsupported_outcome = true
is_unsupported_outcome _ = false

pub data Collection : Type 0 where
  diagnostics_unsupported probe_failed partial_collection degraded_collection ok_collection :
      Collection

unfoldable pub collection_of : (failures : ℕ) → List Section → Collection
collection_of failures sections =
    let degraded_some = any (λ s. is_degraded_outcome s.outcome) sections in
    let supported = any (λ s. not (is_unsupported_outcome s.outcome)) sections in
    if not supported
    then diagnostics_unsupported
    else if eqb failures (length sections)
    then probe_failed
    else if ltb 0 failures
    then partial_collection
    else if degraded_some
    then degraded_collection
    else ok_collection

pub record Collected : Type 0 where
  pub collection : Collection
  pub sections : List Section

-- `collectRuntimeDiagnostics`, without the identity that `finalize` adds and its digest.
unfoldable pub collect_runtime_diagnostics : (Text → Text → Bool) → (String → Probe) → Collected
unfolding collect_sections collection_of
collect_runtime_diagnostics before probes =
    let sections = collect_sections before probes diagnostic_sections in
    let failures = length (filter (λ key. is_failing (probes key)) diagnostic_sections) in
    record { collection = collection_of failures sections; sections = sections }
