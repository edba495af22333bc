-- ===== src/Schedules/Runner.antt =====
-- src/schedules/runner.js: `execute`, one turn of the schedule runner, with the process' crashes. The
-- runtime, the server and the clock are a record of what they answer during the turn.
pub mod Outbox
pub mod Holding
use sidewisp_plugin.Prelude.{
  ℕ, ◌+◌, ◌-◌, String, Bool, true, false, not, ◌&&◌, ◌||◌, Option, none, some, List, [], ◌∷◌, ◌++◌,
  is_some, ltb, leb, eqb, if◌then◌else◌, all, length, take,
}
use sidewisp_plugin.Prelude.Codes.{units, Text, codes, is_digit, is_lower, is_upper, same_text}
use sidewisp_plugin.Update.Directive.{strip_prefix}
use sidewisp_plugin.Schedules.RunnerState.{
  Kind, Job, Result, Entry, Credential, Poll, Ack, World, Config, Runner, agent_turn, system_event,
  other_kind, poll_fails, no_job, polled_job, ack_fails, not_found, acknowledged_run,
}
use sidewisp_plugin.Schedules.Run.{Done, perform, stays, ends}

abbrev pub acked : Ack → Entry → Runner → Runner
acked ack_fails e s = s
acked not_found e s = record s { file = none }
acked (acknowledged_run id) e s = if same_text id e.job.run_id then record s { file = none } else s

-- `settle`
unfoldable pub settle : World → Credential → Entry → Runner → Runner
unfolding same_text
settle w k e s = acked w.ack e (record s {
  reports = record { receiver = w.origin; sender = k.installation_id; reported = e } ∷ s.reports;
})

abbrev pub is_bound : World → Credential → Entry → Bool
is_bound w k e = same_text e.installation k.installation_id && same_text e.endpoint w.origin

-- The file of another binding is renamed.
abbrev pub isolate : World → Credential → Option Entry → Runner → Runner
isolate w k none s = s
isolate w k (some e) s =
    if is_bound w k e then s else record s { file = none; quarantined = s.quarantined ++ e ∷ [] }

-- `/^prefix[A-Za-z0-9_-]+$/`
abbrev pub is_suffix : Option Text → Bool
is_suffix none = false
is_suffix (some s) =
    leb 1 (length s)
    && all (λ n. is_upper n || is_lower n || is_digit n || eqb n b'_' || eqb n b'-') s

abbrev pub is_known_kind : Kind → Bool
is_known_kind agent_turn = true
is_known_kind system_event = true
is_known_kind other_kind = false

unfoldable pub valid_job : Job → Bool
unfolding strip_prefix
valid_job j =
    is_suffix (strip_prefix (codes "run_") j.run_id)
    && is_suffix (strip_prefix (codes "sch_") j.schedule_id)
    && is_known_kind j.kind
    && leb (units j.summary) 2000
    && eqb j.timeout_ms 600000

-- `entry.result=result;await save(entry);return settle(entry,credential);`
abbrev pub conclude : World → Credential → Done → Runner
conclude w k (stays s) = s
conclude w k (ends s e r) =
    let e' = record e { result = some r } in
    if w.crash_before_result then s else settle w k e' (record s { file = some e' })

unfoldable pub work : World → Credential → Bool → Entry → Runner → Runner
unfolding perform settle
work w k recovered e s = if w.crash_before_work then s else conclude w k (perform w recovered e s)

abbrev pub new_entry : Config → World → Credential → Job → Entry
new_entry c w k j = record {
  endpoint = w.origin;
  installation = k.installation_id;
  job = j;
  started_at = w.now;
  session_key = codes "agent:" ++ c.agent_id ++ codes ":sidewisp:" ++ j.run_id;
  runtime_run_id = none;
  result = none;
}

abbrev pub accept : Config → World → Credential → Poll → Runner → Runner
accept c w k poll_fails s = s
accept c w k no_job s = s
accept c w k (polled_job j) s =
    if not (valid_job j)
    then s
    else (let e = new_entry c w k j in
        work w k false e (record s { file = some e; polled = j.run_id ∷ s.polled }))

abbrev pub take_up : World → Credential → Option Result → Entry → Runner → Runner
take_up w k none e s = work w k true e s
take_up w k (some r) e s = settle w k e s

abbrev pub resume : Config → World → Credential → Option Entry → Runner → Runner
resume c w k none s = accept c w k w.poll s
resume c w k (some e) s = take_up w k e.result e s

abbrev pub execute_as : Config → World → Option Credential → Runner → Runner
execute_as c w none s = s
execute_as c w (some k) s =
    if not k.active then s else (let t = isolate w k s.file s in resume c w k t.file t)

-- `execute`; what it throws ends the turn.
unfoldable pub execute : Config → World → Runner → Runner
unfolding settle work valid_job
execute c w s = if not w.can_execute then s else execute_as c w w.credential s

-- The turns of the timer, across restarts of the process.
unfoldable pub run_all : Config → List World → Runner → Runner
unfolding execute
run_all c [] s = s
run_all c (w ∷ ws) s = run_all c ws (execute c w s)
