-- ===== src/Tests/Release.antt =====
-- src/release/fleet-rollout.js on two agents of one cohort.
use sidewisp_plugin.Prelude.{refl, String, true, false, none, some, List, [], ◌∷◌}
use sidewisp_plugin.Prelude.Codes.{codes}
use sidewisp_plugin.Prelude.Texts.{text_leb}
use sidewisp_plugin.Release.Rollout.{initial_or, plan_fleet_rollout, Tick, run_ticks}
use sidewisp_plugin.Release.RolloutState.{
  Release, Agent, Halt, halted_phase, Rollout, fingerprint_of,
}
use sidewisp_plugin.Release.Rollout.Staging.{AllStaged, run_ticks-AllStaged}
use sidewisp_plugin.Release.Rollout.Halting.{StaysHalted, plan-StaysHalted}
use sidewisp_plugin.Release.Rollout.Starts.{StartsAccepted, plan-StartsAccepted}

abbrev agent : String → Agent
agent id = record {
  id = id;
  runtime = codes "openclaw";
  version = codes "1.2.2";
  runtime_version = codes "2026.9.8";
  quarantined = false;
  diagnostics_supported = true;
  status = "active";
  credential_active = true;
  last_seen = some 1000;
  update = none;
}

abbrev release : Release
release = record {
  version = codes "1.2.3";
  commit = codes "0123456789abcdef0123456789abcdef01234567";
  sha256 = codes "0123456789abcdef0123456789abcdef0123456789abcdef0123456789abcdef";
  environments = codes "staging" ∷ [];
  verified_migrations = codes "openclaw/1.2.2/2026.9.8" ∷ [];
}

abbrev fleet : List Agent
fleet = agent "a" ∷ agent "b" ∷ []

abbrev first_tick : Tick
first_tick = record {
  release = release;
  environment = codes "staging";
  agents = fleet;
  time = 2000;
}

abbrev later_tick : Tick
later_tick = record {
  release = release;
  environment = codes "staging";
  agents = fleet;
  time = 3000;
}

run_ticks-AllStaged_example : AllStaged (run_ticks text_leb (first_tick ∷ later_tick ∷ []) none)
run_ticks-AllStaged_example = run_ticks-AllStaged text_leb (first_tick ∷ later_tick ∷ [])

abbrev regression : Halt
regression = record { halt_id = "a"; reason = "version_regressed" }

abbrev halted_rollout : Rollout
halted_rollout = record {
  fingerprint = fingerprint_of release (codes "staging");
  phase = halted_phase;
  attempts =
      record {
        attempt_id = "a";
        cohort = codes "openclaw/1.2.2/2026.9.8";
        started_at = 0;
        completed = false;
      }
      ∷ [];
  proven = [];
  halted = some regression;
}

plan-StaysHalted_example :
    StaysHalted regression halted_rollout
      (plan_fleet_rollout text_leb release (codes "staging") fleet (some halted_rollout) 2000)
plan-StaysHalted_example =
    plan-StaysHalted text_leb release (codes "staging") fleet halted_rollout 2000 regression refl

plan-StartsAccepted_example :
    StartsAccepted release 2000 fleet
      (initial_or (fingerprint_of release (codes "staging")) none)
      (plan_fleet_rollout text_leb release (codes "staging") fleet none 2000)
plan-StartsAccepted_example = plan-StartsAccepted text_leb release (codes "staging") fleet none 2000
