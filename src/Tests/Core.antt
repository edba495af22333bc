-- ===== src/Tests/Core.antt =====
-- src/core and src/delivery/upload-pump.js on concrete events.
use sidewisp_plugin.Prelude.{
  ◌≡◌, refl, String, ◌==◌, true, false, none, some, List, [], ◌∷◌, All, if◌then◌else◌,
}
use sidewisp_plugin.Prelude.Codes.{codes}
use sidewisp_plugin.Update.Directive.{strip_prefix}
use sidewisp_plugin.Core.Diagnostics
use sidewisp_plugin.Core.ProhibitedText.{has_infix, has_api_key, is_prohibited}
use sidewisp_plugin.Core.Diagnostics.Privacy.{IsCleanSection, collect-AreClean}
use sidewisp_plugin.Core.Health
use sidewisp_plugin.Core.Health.Worst.{badness, expected, worst, IsSafe, snapshot-worst}
use sidewisp_plugin.Core.Heartbeat
use sidewisp_plugin.Core.Heartbeat.Supervision.{IsSound, supervisor-IsSound}
use sidewisp_plugin.Delivery.Pump
use sidewisp_plugin.Delivery.Pump.Progress.{IsLive, pump-IsLive}

abbrev options : Heartbeat.Options
options = record { interval_ms = 60000; retry_ms = 5000; max_failures = 3 }

abbrev failing : List Heartbeat.Event
failing =
    Heartbeat.start
    ∷ Heartbeat.settles (Heartbeat.rejected false)
    ∷ Heartbeat.timer_fires
    ∷ Heartbeat.request
    ∷ []

supervisor-IsSound_example : IsSound (Heartbeat.run options failing Heartbeat.initial)
supervisor-IsSound_example = supervisor-IsSound options failing

abbrev busy : List Pump.Event
busy =
    Pump.request
    ∷ Pump.timer_fires
    ∷ Pump.request
    ∷ Pump.settles (Pump.result true 1 2)
    ∷ Pump.timer_fires
    ∷ Pump.stop
    ∷ []

pump-IsLive_example : IsLive (Pump.run busy Pump.initial)
pump-IsLive_example = pump-IsLive busy

abbrev probes : String → Diagnostics.Probe
probes key = Diagnostics.returning (record {
  probe_outcome = some Diagnostics.ok_outcome;
  probe_facts =
      some (record {
        raw_key = Diagnostics.text (codes "queue.depth");
        raw_status = some Diagnostics.ok;
        raw_severity = some Diagnostics.info;
        raw_value = Diagnostics.text_value (codes "low");
        raw_unit = Diagnostics.absent;
        raw_source = Diagnostics.not_text;
      })
      ∷ none
      ∷ [];
})

collect-AreClean_example :
    All IsCleanSection (Diagnostics.collect_runtime_diagnostics (λ a b. true) probes).sections
collect-AreClean_example = collect-AreClean (λ a b. true) probes

-- `API-Key` and `Log` are prohibited whatever the case of their letters.
is_prohibited_api_key :
    (is_prohibited (codes "an.API-Key") ≡ true)
    × (is_prohibited (codes "Backlog") ≡ true)
    × (is_prohibited (codes "queue.depth") ≡ false)
unfolding is_prohibited has_infix has_api_key strip_prefix
is_prohibited_api_key = (refl, refl, refl)

abbrev health_probes : String → Health.Probe
health_probes name =
    if name == "queue"
    then Health.late 0 1000
    else Health.returns 0 5 (Health.result Health.healthy Health.undefined)

snapshot-worst_example :
    let s = Health.snapshot health_probes in
    (badness s.overall ≡ expected (worst s.checks)) × All (λ c. IsSafe c.reason) s.checks
snapshot-worst_example = snapshot-worst health_probes
