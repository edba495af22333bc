-- ===== src/Tests/Schedules.antt =====
-- src/schedules/runner.js across a crash between the launch and its note in the file.
use sidewisp_plugin.Prelude.{◌≡◌, refl, true, false, none, some, [], ◌∷◌}
use sidewisp_plugin.Prelude.Codes.{codes, same_text}
use sidewisp_plugin.Update.Directive.{strip_prefix}
use sidewisp_plugin.Schedules.Runner.{execute, run_all}
use sidewisp_plugin.Schedules.RunnerState.{
  agent_turn, Job, failed, Entry, Credential, polled_job, launched, crashed, acknowledged_run,
  no_history, outcome_ok, World, Config, Runner, initial,
}
use sidewisp_plugin.Schedules.Run.{wait_run}
use sidewisp_plugin.Schedules.Runner.Outbox.{AreSound, run_all-AreSound}
use sidewisp_plugin.Schedules.Runner.Holding.{IsHeld, execute-IsHeld}

abbrev config : Config
config = record { agent_id = codes "main" }

abbrev credential : Credential
credential = record { installation_id = codes "inst-a"; active = true }

abbrev job : Job
job = record {
  run_id = codes "run_1";
  schedule_id = codes "sch_1";
  kind = agent_turn;
  summary = codes "hello";
  timeout_ms = 600000;
}

-- A turn whose process ends right after the launch.
abbrev crashing : World
crashing = record {
  origin = codes "https://api.example";
  can_execute = true;
  credential = some credential;
  now = 0;
  poll = polled_job job;
  crash_before_work = false;
  has_system = true;
  has_subagent = true;
  enqueue = crashed;
  launch = crashed;
  waits = [];
  stopped_after = false;
  history = no_history;
  failure_summary = [];
  crash_before_result = false;
  ack = acknowledged_run (codes "run_1");
}

-- A turn whose launch and wait succeed.
abbrev working : World
working = record crashing {
  launch = launched (codes "native-1") none;
  waits =
      record { is_stopped = false; time = 1; outcome = some (outcome_ok (some (codes "done"))) }
      ∷ [];
}

-- After the crash the job is reported as interrupted, and is not launched again.
launches-crashing : (run_all config (crashing ∷ working ∷ []) initial).launches ≡ codes "run_1" ∷ []
unfolding run_all strip_prefix
launches-crashing = refl

file-working : (run_all config (working ∷ []) initial).file ≡ none
unfolding run_all wait_run strip_prefix
file-working = refl

run_all-AreSound_example :
    let s = run_all config (crashing ∷ working ∷ []) initial in
    AreSound s.launches s.polled s.reports
run_all-AreSound_example = run_all-AreSound config (crashing ∷ working ∷ [])

abbrev finished : Entry
finished = record {
  endpoint = codes "https://api.example";
  installation = codes "inst-a";
  job = job;
  started_at = 0;
  session_key = codes "agent:main:sidewisp:run_1";
  runtime_run_id = some (codes "native-1");
  result = some (record {
    result_run_id = codes "run_1";
    result_schedule_id = codes "sch_1";
    state = failed;
    error_code = some "execution_timeout";
    execution_ref = some (codes "native-1");
    result_summary = none;
  });
}

abbrev holding : Runner
holding = record {
  file = some finished;
  quarantined = [];
  polled = [];
  launches = [];
  reports = [];
}

execute-IsHeld_example : IsHeld working finished holding (execute config working holding)
execute-IsHeld_example =
    execute-IsHeld config working credential finished
      (record {
        result_run_id = codes "run_1";
        result_schedule_id = codes "sch_1";
        state = failed;
        error_code = some "execution_timeout";
        execution_ref = some (codes "native-1");
        result_summary = none;
      })
      holding refl refl refl (unfold same_text in refl)
