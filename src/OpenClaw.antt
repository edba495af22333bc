-- ===== src/OpenClaw.antt =====
-- src/adapters/openclaw: the adapter of the OpenClaw runtime.
pub mod Lifecycle
pub mod Cursor
pub mod Observers
pub mod AgentEvent
pub mod HostEvent
pub mod ToolReport
pub mod Questions
pub mod QuestionCalls
pub mod QuestionScan
