-- ===== src/OpenClaw/Cursor.antt =====
-- src/adapters/openclaw/hooks.js: `parseOpenClawActiveWorkCursor` and `openClawActiveWorkCursor`, between
-- the active work and the value that `JSON.parse` and `JSON.stringify` take to and from a text.
pub mod Reading
pub mod Roundtrip
use Prim.Native.Char.{code}
use sidewisp_plugin.Prelude.{
  ℕ, zero, suc, ◌+◌, String, Bool, true, false, not, ◌&&◌, ◌||◌, ◌==◌, Option, none, some, List, [],
  ◌∷◌, leb, eqb, if◌then◌else◌, is_some, any, contains, map, take,
}
use sidewisp_plugin.OpenClaw.Lifecycle.{Key, same_key, task_key, run_key, or_blank, Kind, task, run}
use sidewisp_plugin.OpenClaw.Lifecycle.ActiveWork.{ActiveEntry}

-- A property of a candidate: missing or null, a text, a Boolean, an array, of whose elements the texts count,
-- or something else.
pub data Field : Type 0 where
  absent other_value : Field
  text : String → Field
  flag : Bool → Field
  texts : List (Option String) → Field

pub record Properties : Type 0 where
  pub kind : Field
  pub turn_id : Field
  pub message_id : Field
  pub session_id : Field
  pub started : Field
  pub detached : Field
  pub outer_run_id : Field
  pub internal_run_ids : Field

-- An element of the array: a text, as an old cursor holds, an object, or something else.
pub data Candidate : Type 0 where
  legacy : String → Candidate
  object : Properties → Candidate
  junk : Candidate

-- The parsed value: an array, an object, of which two properties count where they are arrays, or something
-- else, an unreadable text included.
pub data Document : Type 0 where
  listing : List Candidate → Document
  fields : (sequence : ℕ) (active_work active_run_ids : Option (List Candidate)) → Document
  unreadable : Document

-- An entry of the result.
pub data Entry : Type 0 where
  task_entry :
      (session message turn : String) (started detached : Bool) (outer : Option String)
      (runs : List String)
      → Entry
  run_entry : (turn : String) (session : Option String) → Entry

-- `value.length`, in UTF-16 units
unfoldable pub units : String → ℕ
units String.[] = 0
units (String.◌∷◌ c s) = (if leb 65536 (code c) then 2 else 1) + units s

abbrev pub is_safe_id : String → Bool
is_safe_id s = leb 1 (units s) && leb (units s) 256

-- `safeCursorId`
unfoldable pub safe_cursor_id : Field → Option String
unfolding units
safe_cursor_id (text s) = if is_safe_id s then some s else none
safe_cursor_id _ = none

-- `a ?? b`
abbrev pub or_field : Field → Field → Field
or_field absent b = b
or_field a b = a

abbrev pub is_true : Field → Bool
is_true (flag b) = b
is_true _ = false

abbrev pub array_of : Field → List (Option String)
array_of (texts xs) = xs
array_of _ = []

-- `[...new Set(ids.map(safeCursorId).filter(Boolean))]`, without the ids that `seen` holds
unfoldable pub distinct_ids : List String → List (Option String) → List String
unfolding units
distinct_ids seen [] = []
distinct_ids seen (none ∷ xs) = distinct_ids seen xs
distinct_ids seen (some s ∷ xs) =
    let skipped = distinct_ids seen xs in
    let rest = distinct_ids (s ∷ seen) xs in
    if is_safe_id s && not (contains s seen) then s ∷ rest else skipped

abbrev pub run_ids_of : Field → List String
run_ids_of f = take 64 (distinct_ids [] (array_of f))

abbrev pub is_kind : String → Field → Bool
is_kind s (text t) = t == s
is_kind s _ = false

abbrev pub task_of : Properties → String → Option String → Option String → Option Entry
task_of p turn (some s) (some m) = some (
    task_entry s m turn (is_true p.started) (is_true p.detached) (safe_cursor_id p.outer_run_id)
      (run_ids_of p.internal_run_ids))
task_of p turn _ _ = none

abbrev pub object_of : Properties → Option String → Option Entry
object_of p none = none
object_of p (some turn) =
    if is_kind "run" p.kind
    then some (run_entry turn (safe_cursor_id p.session_id))
    else if is_kind "task" p.kind
    then task_of p turn (safe_cursor_id p.session_id) (safe_cursor_id p.message_id)
    else none

-- The entry that a candidate stands for.
unfoldable pub candidate_entry : Candidate → Option Entry
unfolding safe_cursor_id
candidate_entry (legacy s) = elim (safe_cursor_id (text s)) [
  | none ↦ none
  | some turn ↦ some (run_entry turn none)
]
candidate_entry (object p) = object_of p (safe_cursor_id (or_field p.turn_id p.message_id))
candidate_entry junk = none

-- `identity`
abbrev pub key_of : Entry → Key
key_of (task_entry s m turn started detached outer runs) = task_key s m
key_of (run_entry turn session) = run_key (or_blank session) turn

abbrev pub is_seen : Key → List Key → Bool
is_seen key seen = any (λ k. same_key k key) seen

-- The loop over the candidates, of which `n` more entries may come.
unfoldable pub parse_candidates : List Key → ℕ → List Candidate → List Entry
unfolding candidate_entry
parse_candidates seen zero cs = []
parse_candidates seen (suc n) [] = []
parse_candidates seen (suc n) (x ∷ cs) =
    let skipped = parse_candidates seen (suc n) cs in
    elim (candidate_entry x) [
      | none ↦ skipped
      | some a ↦
          (let rest = parse_candidates (key_of a ∷ seen) n cs in
            if is_seen (key_of a) seen then skipped else a ∷ rest)
    ]

abbrev pub or_list : Option (List Candidate) → List Candidate → List Candidate
or_list none b = b
or_list (some a) b = a

abbrev pub raw_of : Document → List Candidate
raw_of (listing cs) = cs
raw_of (fields n work runs) = or_list work (or_list runs [])
raw_of unreadable = []

-- `parseOpenClawActiveWorkCursor`
unfoldable pub parse : Document → List Entry
unfolding parse_candidates
parse d = parse_candidates [] 1000 (raw_of d)

abbrev pub field_of : Option String → Field
field_of none = absent
field_of (some s) = text s

-- The object that `activeWork` makes of an entry.
unfoldable pub properties_of : Entry → Properties
properties_of (task_entry s m turn started detached outer runs) = record {
  kind = text "task";
  turn_id = text turn;
  message_id = text m;
  session_id = text s;
  started = flag started;
  detached = if detached then flag true else absent;
  outer_run_id = field_of outer;
  internal_run_ids = texts (map some runs);
}
properties_of (run_entry turn session) = record {
  kind = text "run";
  turn_id = text turn;
  message_id = absent;
  session_id = field_of session;
  started = absent;
  detached = absent;
  outer_run_id = absent;
  internal_run_ids = absent;
}

-- `openClawActiveWorkCursor`
unfoldable pub print : ℕ → List Entry → Document
unfolding properties_of
print sequence entries = fields sequence (some (map (λ a. object (properties_of a)) entries)) none

-- What `restoreActiveWork` reads of an entry.
abbrev pub active_entry : Entry → ActiveEntry
active_entry (task_entry s m turn started detached outer runs) = record {
  kind = task;
  session_id = some s;
  message_id = some m;
  turn_id = some turn;
  outer_run_id = outer;
  internal_run_ids = runs;
  started = started;
  detached = detached;
}
active_entry (run_entry turn session) = record {
  kind = run;
  session_id = session;
  message_id = none;
  turn_id = some turn;
  outer_run_id = none;
  internal_run_ids = [];
  started = false;
  detached = false;
}
