-- ===== src/OpenClaw/Lifecycle/Process.antt =====
-- src/adapters/openclaw/hooks.js: `processDetailed`, one step of the lifecycle for an event, and the
-- states that a sequence of steps reaches.
use sidewisp_plugin.Prelude.{suc, Bool, true, false, ◌&&◌, ◌||◌, if◌then◌else◌}
use sidewisp_plugin.OpenClaw.Lifecycle.{
  Event, EventType, turn_progress, message_received, tool, Component, message_observation,
  before_dispatch, Config, Lifecycle, World, Disposition, accepted, is_final_reply,
  is_terminal_type, is_started_type,
}
use sidewisp_plugin.OpenClaw.Lifecycle.Registry.{prune}
use sidewisp_plugin.OpenClaw.Lifecycle.Admission.{observe, dispatch}
use sidewisp_plugin.OpenClaw.Lifecycle.Finish.{finish, is_reconciliation}
use sidewisp_plugin.OpenClaw.Lifecycle.Turns.{progress, tool_event, turn_event}

abbrev pub is_message : EventType → Bool
is_message message_received = true
is_message _ = false

abbrev pub is_progress : EventType → Bool
is_progress turn_progress = true
is_progress _ = false

abbrev pub is_tool : EventType → Bool
is_tool tool = true
is_tool _ = false

abbrev pub is_observation : Component → Bool
is_observation message_observation = true
is_observation _ = false

abbrev pub is_dispatch : Component → Bool
is_dispatch before_dispatch = true
is_dispatch _ = false

abbrev pub process_pruned : Config → World → Event → Lifecycle → Lifecycle × Disposition
process_pruned c world e l =
    if is_message e.type && is_observation e.component
    then (observe c world.now e l, accepted e)
    else if is_message e.type && is_dispatch e.component
    then dispatch c world e l
    else if is_terminal_type e.type && (is_final_reply e.component || is_reconciliation e.component)
    then finish c world e l
    else if is_progress e.type
    then progress world.now e l
    else if is_terminal_type e.type || is_started_type e.type
    then turn_event c world e l
    else if is_tool e.type
    then tool_event world.now e l
    else (l, accepted e)

-- A step makes one copy of an event at most, which takes the next number.
abbrev pub next_copy : Lifecycle → Lifecycle
next_copy l = record l { copies = suc l.copies }

-- `processDetailed`
unfoldable pub process : Config → World → Event → Lifecycle → Lifecycle × Disposition
unfolding prune observe dispatch finish progress turn_event tool_event
process c world e l = process_pruned c world e (prune c world.now (next_copy l))
