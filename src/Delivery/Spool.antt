-- ===== src/Delivery/Spool.antt =====
-- src/delivery/spool.js: the rows of the spool's tables and the state of an open spool.
pub mod Rows
pub mod Quota
pub mod Queue
pub mod Pending
pub mod Coalesce
pub mod Quarantine
pub mod Operation
pub mod Keys
mod Archive
pub mod Fate
pub mod Order
pub mod Latest
pub mod Batches
pub mod Isolation
use sidewisp_plugin.Prelude.{ℕ, String, Bool, Option, List}

-- A telemetry event as the spool reads it. `json` is its JSON text, which is what is stored; the
-- other fields are those that the spool and the uploader look up in it.
pub record Event : Type 0 where
  pub event_id : String
  pub installation_id : Option String
  pub type : String
  pub json : String

-- A row of `events`.
pub record Row : Type 0 where
  pub event_id : String
  pub payload : Event
  pub source : String
  pub cursor : String
  pub created_at : ℕ
  pub acked_at : Option ℕ

-- A row of `cursors`.
pub record CursorRow : Type 0 where
  pub source : String
  pub value : String
  pub updated_at : ℕ

-- A row of `dead_letters`.
pub record DeadLetter : Type 0 where
  pub event_id : String
  pub reason : String
  pub created_at : ℕ

-- A row of `runtime_diagnostic_pending` or of `usage_pending`: `item_id` is the column
-- `snapshot_id` of the first and `batch_id` of the second, `payload` is JSON text.
pub record PendingRow : Type 0 where
  pub installation_id : String
  pub item_id : String
  pub payload : String
  pub created_at : ℕ

pub record Tables : Type 0 where
  pub events : List Row
  pub cursors : List CursorRow
  pub dead_letters : List DeadLetter
  pub diagnostics : List PendingRow
  pub usage : List PendingRow

-- A row of the quarantine archive: `kind`, `item_id` and the JSON text of the row that was moved.
pub data Item : Type 0 where
  event : Row → Item
  diagnostic : PendingRow → Item
  usage_batch : PendingRow → Item

pub record Archived : Type 0 where
  pub item : Item
  pub archived_at : ℕ

-- The bytes on disk, as `statSync` and `PRAGMA freelist_count` report them.
pub record Files : Type 0 where
  pub disk_usage : ℕ
  pub freelist : ℕ

-- SQLite's file layout is not the plugin's: what the files measure after a commit that left these
-- tables, and after a checkpoint with an incremental vacuum.
pub record Sqlite : Type 0 where
  pub written : Tables → Files → Files
  pub compacted : Tables → Files → Files

pub record Spool : Type 0 where
  pub tables : Tables
  pub files : Files
  pub archive : List Archived
  pub max_bytes : ℕ
  pub retention_ms : ℕ
  pub recovered_from_corruption : Bool

pub data Error : Type 0 where
  type_error : String → Error
  spool_error : String → Error
  callback_error : Error

pub data Result (A : Type 0) : Type 0 where
  ok : A → Result A
  throw : Error → Result A

-- The readings of `now()` within one operation, in their order.
abbrev pub Clock : Type 0
Clock = ℕ → ℕ
