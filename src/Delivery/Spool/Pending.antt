-- ===== src/Delivery/Spool/Pending.antt =====
-- src/delivery/spool.js: `pending`, the queue's reads, with the order that its two queries ask for.
use sidewisp_plugin.Prelude.{
  ℕ, String, Bool, true, false, not, ◌&&◌, ◌||◌, Option, none, some, List, map, ltb, is_some,
  holds_text, if◌then◌else◌, filter, take, ◌==◌,
}
use sidewisp_plugin.Prelude.Sort.{sort}
use sidewisp_plugin.Prelude.Texts.{text_leb}
use sidewisp_plugin.Delivery.Spool.{Event, Row, Spool, Result, ok, throw, type_error}

-- `acked_at IS NULL`
abbrev pub is_unacked : Row → Bool
is_unacked r = not (is_some r.acked_at)

-- `json_extract(payload, '$.installationId') = ? AND json_extract(payload, '$.type') = 'health.snapshot'`
abbrev pub is_health_of : String → Row → Bool
is_health_of active r =
    holds_text r.payload.installation_id active && r.payload.type == "health.snapshot"

-- `ORDER BY created_at, event_id`
unfoldable pub older : Row → Row → Bool
older a b =
    if ltb a.created_at b.created_at
    then true
    else if ltb b.created_at a.created_at
    then false
    else text_leb a.event_id b.event_id

abbrev pub newer : Row → Row → Bool
newer a b =
    if ltb b.created_at a.created_at
    then true
    else if ltb a.created_at b.created_at
    then false
    else text_leb a.event_id b.event_id

abbrev pub by_rank : Bool → Bool → Row → Row → Bool
by_rank true true a b = newer a b
by_rank true false a b = true
by_rank false true a b = false
by_rank false false a b = older a b

-- The health snapshots of the active installation first, the newest of them first, then the rest
-- as `older` has it.
unfoldable pub health_first : String → Row → Row → Bool
unfolding older
health_first active a b = by_rank (is_health_of active a) (is_health_of active b) a b

-- The `ORDER BY` of the query that is chosen.
abbrev pub order_of : Option String → Row → Row → Bool
order_of none = older
order_of (some active) = health_first active

-- What `row => ({ eventId, event })` returns.
abbrev pub Entry : Type 0
Entry = String × Event

abbrev pub to_entry : Row → Entry
to_entry r = (r.event_id, r.payload)

-- The rows of the query, with its `LIMIT`.
unfoldable pub pending_rows : ℕ → Option String → Spool → List Row
unfolding sort older health_first
pending_rows limit prioritize s =
    take limit (sort (order_of prioritize) (filter is_unacked s.tables.events))

unfoldable pub pending : ℕ → Option String → Spool → Result (List Entry)
unfolding pending_rows
pending limit prioritize s =
    if ltb limit 1 || ltb 1000 limit
    then throw (type_error "invalid limit")
    else ok (map to_entry (pending_rows limit prioritize s))
