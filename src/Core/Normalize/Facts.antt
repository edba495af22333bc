-- ===== src/Core/Normalize/Facts.antt =====
-- src/core/normalize.js: what an event that `normalizeRuntimeEvent` emits says, and that it is clean.
use sidewisp_plugin.Prelude.{String, sym, Bool, ◌≡◌, refl, arith}
use sidewisp_plugin.Prelude.Codes.{Text, codes}
use sidewisp_plugin.Core.Sanitize.{Checked, refused, passed, Event, sanitize, Value}
use sidewisp_plugin.Core.Sanitize.Privacy.{IsClean, sanitize-IsClean}
use sidewisp_plugin.Core.Sanitize.Keeping.{sanitize-Keeps}
use sidewisp_plugin.Core.Preview.{Scan}
use sidewisp_plugin.Core.Normalize.Reports.{Reports, fact-Reports}
use sidewisp_plugin.Core.Normalize.{
  RuntimeInput, Envelope, fact_of, telemetry_input, emitted, or_failed, normalize_mapped, normalize,
}
use sidewisp_plugin.Core.RuntimeMappings.{
  Runtime, Semantic, Mapped, unknown_kind, inherited, meaning, mapped,
}

-- The event has a type and an outcome that the rules have for the meaning of the input's kind in the runtime, and is
-- clean.
pub record IsFaithful (scan : Scan) (catalog : Text → Bool) (runtime : Runtime) (i : RuntimeInput)
    (e : Event) : Type 0 where
  pub clean : IsClean scan catalog e
  pub semantic : Semantic
  pub mapped_kind : mapped runtime i.kind ≡ meaning semantic
  pub type : String
  pub outcome : String
  pub reported : Reports i semantic type outcome
  pub same_type : e.type ≡ codes type
  pub same_outcome : e.outcome ≡ codes outcome

or_failed-passed : (r : Checked Event) (e : Event) → or_failed r ≡ emitted e → r ≡ passed e
or_failed-passed (refused r) e h = ground arith
or_failed-passed (passed a) e h = ground (arith, h)

text-injective : (s t : Text) → Value.text s ≡ Value.text t → s ≡ t
text-injective s t h = ground (arith, h)

-- Every event that is emitted has the type and the outcome that the rules of `Reports` give to the meaning of its kind
-- in the runtime: the end of a turn, of a tool or of a delivery by the outcome that the input names, where a
-- cancellation and an expected timeout of a turn or a tool are no failures, and a provider's trouble by its status. Its
-- texts are clean, but for a cause of the catalog and for a preview, whose whole text was scanned.
pub normalize-IsFaithful :
    (scan : Scan) (catalog : Text → Bool) (runtime : Runtime) (i : RuntimeInput)
    (envelope : Envelope) (e : Event)
    → normalize scan catalog runtime i envelope ≡ emitted e
    → IsFaithful scan catalog runtime i e
unfolding normalize
normalize-IsFaithful scan catalog runtime i envelope e h = by_mapping (mapped runtime i.kind) refl h
  where
    by_mapping :
        (m : Mapped)
        → mapped runtime i.kind ≡ m
        → normalize_mapped scan catalog runtime i envelope m ≡ emitted e
        → IsFaithful scan catalog runtime i e
    by_mapping unknown_kind k g = ground arith
    by_mapping inherited k g = ground arith
    by_mapping (meaning s) k g =
        let input = telemetry_input scan catalog runtime (fact_of s i) i envelope in
        let passes = or_failed-passed (sanitize scan catalog input) e g in
        let kept = sanitize-Keeps scan catalog input e passes in
        record {
          clean = sanitize-IsClean scan catalog input e passes;
          semantic = s;
          mapped_kind = k;
          type = (fact_of s i).type;
          outcome = (fact_of s i).outcome;
          reported = fact-Reports s i;
          same_type = sym (text-injective _ _ kept.0);
          same_outcome = sym (text-injective _ _ kept.1);
        }
