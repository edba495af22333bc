-- ===== src/Delivery/Uploader/Trace.antt =====
-- src/delivery/uploader.js: a send as a run of spool operations, and what the run accounts for.
use sidewisp_plugin.Prelude.{
  String, ◌≡◌, refl, ◌∙◌, ap, ◌⊎◌, inl, inr, true, none, some, List, [], ◌∷◌, ◌++◌, arith, is_some,
  All, contains,
}
use sidewisp_plugin.Prelude.Table.{find, find-upsert}
use sidewisp_plugin.Delivery.Spool.{Row, event, Sqlite, Spool}
use sidewisp_plugin.Delivery.Spool.Queue.{letter_id}
use sidewisp_plugin.Delivery.Spool.Quarantine.{is_archived}
use sidewisp_plugin.Delivery.Spool.Rows.{find_row}
use sidewisp_plugin.Delivery.Spool.Keys.{AreKeyed, run-AreKeyed}
use sidewisp_plugin.Delivery.Spool.Fate.{Waits, Left, run-KeptOrLeft, run_archive_keeps}
use sidewisp_plugin.Delivery.Spool.Operation.{
  Operation, enqueue_source_batch, acknowledge, dead_letter, quarantine_other_installations, run,
  run_all,
}

-- An acknowledgement names only these ids.
abbrev pub AcksOnly : List String → Operation → Type 0
AcksOnly ids (acknowledge clock named) =
    (k : String) → contains k named ≡ true → contains k ids ≡ true
AcksOnly ids _ = Unit

-- `s'` is `s` after some operations, which acknowledge these ids at most.
pub record IsTrace (db : Sqlite) (ids : List String) (s s' : Spool) : Type 0 where
  pub operations : List Operation
  pub runs : run_all db operations s ≡ s'
  pub acks : All (AcksOnly ids) operations

module _ (db : Sqlite) (ids : List String) where
  run_all-append :
      (ops more : List Operation) (s : Spool)
      → run_all db (ops ++ more) s ≡ run_all db more (run_all db ops s)
  unfolding run_all
  run_all-append [] more s = refl
  run_all-append (op ∷ ops) more s = run_all-append ops more (run db op s)

  All-append_both :
      (ops more : List Operation)
      → All (AcksOnly ids) ops
      → All (AcksOnly ids) more
      → All (AcksOnly ids) (ops ++ more)
  All-append_both [] more h k = k
  All-append_both (op ∷ ops) more h k = (h.0, All-append_both ops more h.1 k)

  pub IsTrace-refl : (s : Spool) → IsTrace db ids s s
  unfolding run_all
  IsTrace-refl s = record { operations = []; runs = refl; acks = tt }

  pub IsTrace-step : (op : Operation) (s : Spool) → AcksOnly ids op → IsTrace db ids s (run db op s)
  unfolding run_all
  IsTrace-step op s h = record { operations = op ∷ []; runs = refl; acks = (h, tt) }

  pub IsTrace-trans : {s t u : Spool} → IsTrace db ids s t → IsTrace db ids t u → IsTrace db ids s u
  IsTrace-trans {s} a b = record {
    operations = a.operations ++ b.operations;
    runs =
        run_all-append a.operations b.operations s ∙ ap (run_all db b.operations) a.runs ∙ b.runs;
    acks = All-append_both a.operations b.operations a.acks b.acks;
  }

-- An event that waited is accounted for: it waits still, it is among the acknowledged ids, it is a
-- dead letter, or it is in the archive.
abbrev pub Accounted : List String → String → Row → Spool → Type 0
Accounted ids k r s =
    (find_row k s.tables.events ≡ some r)
    ⊎ ((contains k ids ≡ true)
        ⊎ ((is_some (find letter_id k s.tables.dead_letters) ≡ true)
            ⊎ (is_archived (event r) s.archive ≡ true)))

run_letter_keeps :
    (db : Sqlite) (op : Operation) (s : Spool) (k : String)
    → is_some (find letter_id k s.tables.dead_letters) ≡ true
    → is_some (find letter_id k (run db op s).tables.dead_letters) ≡ true
unfolding run
run_letter_keeps db (dead_letter now id reason) s k h = ground (
  arith,
  find-upsert letter_id k (record { event_id = id; reason = reason; created_at = now })
      s.tables.dead_letters,
)
run_letter_keeps db (enqueue_source_batch source cursor clock [] callback) s k h = h
run_letter_keeps db _ s k h = ground arith

module _ (db : Sqlite) (ids : List String) (k : String) (r : Row)
    (unacked : r.acked_at ≡ none) where
  from_Left : (op : Operation) (s : Spool) → AcksOnly ids op → Left op s k r → Accounted ids k r s
  from_Left (acknowledge clock named) s a l = inr (inl (a k l))
  from_Left (dead_letter now id reason) s a l = inr (inr (inl (ground arith)))
  from_Left (quarantine_other_installations clock active) s a l = inr (inr (inr l.1))
  from_Left _ s a l = absurd l

  run-Accounted :
      (op : Operation) (s : Spool)
      → AreKeyed s.tables
      → AcksOnly ids op
      → Accounted ids k r s
      → Accounted ids k r (run db op s)
  run-Accounted op s keyed a (inl stored) =
      elim (run-KeptOrLeft db op s k r
        (record { keyed = keyed; stored = stored; unacked = unacked })) [
          | inl kept ↦ inl kept
          | inr left ↦ from_Left op (run db op s) a left
        ]
  run-Accounted op s keyed a (inr (inl named)) = inr (inl named)
  run-Accounted op s keyed a (inr (inr (inl letter))) =
      inr (inr (inl (run_letter_keeps db op s k letter)))
  run-Accounted op s keyed a (inr (inr (inr archived))) =
      inr (inr (inr (run_archive_keeps db op s (event r) archived)))

  run_all-Accounted :
      (ops : List Operation) (s : Spool)
      → AreKeyed s.tables
      → All (AcksOnly ids) ops
      → Accounted ids k r s
      → Accounted ids k r (run_all db ops s)
  unfolding run_all
  run_all-Accounted [] s keyed a h = h
  run_all-Accounted (op ∷ ops) s keyed a h =
      run_all-Accounted ops (run db op s) (run-AreKeyed db op s keyed) a.1
        (run-Accounted op s keyed a.0 h)

-- Over a trace, every waiting event is accounted for at the end.
pub trace-Accounted :
    (db : Sqlite) (ids : List String) (s s' : Spool) (k : String) (r : Row)
    → Waits s k r
    → IsTrace db ids s s'
    → Accounted ids k r s'
trace-Accounted db ids s s' k r w t =
    rw (t.runs) at
      (run_all-Accounted db ids k r w.unacked t.operations s w.keyed t.acks (inl w.stored))
