-- ===== src/Delivery/Spool/Rows.antt =====
-- src/delivery/spool.js: what the loops over rows of `enqueueSourceBatch`, `acknowledge` and
-- `deleteAcknowledged` leave in the table `events`.
use sidewisp_plugin.Prelude.{
  ℕ, suc, ◌+◌, ◌≤◌, ◌<◌, String, ◌≡◌, refl, ◌∙◌, ◌⊎◌, inl, inr, true, false, Option, none, some,
  List, [], ◌∷◌, map, arith, is_some, length, All, contains, Option-cases, Bool-cases, ◌==◌, eq_iff,
  eq_refl,
}
use sidewisp_plugin.Prelude.Table.{
  find, insert_or_ignore, IsKeyed, changed, find-insert_or_ignore, find-map,
  IsKeyed-insert_or_ignore, IsKeyed-map,
}
use sidewisp_plugin.Delivery.Spool.{Event, Row, Clock}
use sidewisp_plugin.Delivery.Spool.Queue.{row_id, new_row, insert_events, acked, ack_events}

abbrev pub find_row : String → List Row → Option Row
find_row = find row_id

module _ (source cursor : String) (clock : Clock) where
  pub insert_events-IsKeyed :
      (i : ℕ) (es : List Event) (rows : List Row)
      → IsKeyed row_id rows
      → IsKeyed row_id (insert_events source cursor clock i es rows)
  unfolding insert_events
  insert_events-IsKeyed i [] rows h = h
  insert_events-IsKeyed i (e ∷ es) rows h =
      insert_events-IsKeyed (suc i) es
        (insert_or_ignore row_id (new_row source cursor (clock i) e) rows)
        (IsKeyed-insert_or_ignore row_id (new_row source cursor (clock i) e) rows h)

  -- A row that is there stays as it is.
  pub insert_events_keeps :
      (i : ℕ) (es : List Event) (rows : List Row) (k : String) (r : Row)
      → find_row k rows ≡ some r
      → find_row k (insert_events source cursor clock i es rows) ≡ some r
  unfolding insert_events
  insert_events_keeps i [] rows k r h = h
  insert_events_keeps i (e ∷ es) rows k r h =
      insert_events_keeps (suc i) es
        (insert_or_ignore row_id (new_row source cursor (clock i) e) rows) k r
        (ground (arith, find-insert_or_ignore row_id k (new_row source cursor (clock i) e) rows))

  -- Whatever is found was there, or is an unacknowledged row of the batch.
  pub insert_events_origin :
      (i : ℕ) (es : List Event) (rows : List Row) (k : String) (r : Row)
      → find_row k (insert_events source cursor clock i es rows) ≡ some r
      → (find_row k rows ≡ some r) ⊎ (r.acked_at ≡ none)
  unfolding insert_events
  insert_events_origin i [] rows k r h = inl h
  insert_events_origin i (e ∷ es) rows k r h =
      let row = new_row source cursor (clock i) e in
      ground (
        arith,
        insert_events_origin (suc i) es (insert_or_ignore row_id row rows) k r h,
        find-insert_or_ignore row_id k row rows,
      )

  pub insert_events_stores :
      (i : ℕ) (es : List Event) (rows : List Row)
      → All
          (λ e. is_some (find_row e.event_id (insert_events source cursor clock i es rows)) ≡ true)
          es
  unfolding insert_events
  insert_events_stores i [] rows = tt
  insert_events_stores i (e ∷ es) rows = (
    elim (Option-cases (find_row e.event_id next)) [
      | inl missing ↦
          absurd
            (ground (arith, find-insert_or_ignore row_id e.event_id row rows, eq_refl e.event_id))
      | inr (r, found) ↦ rw (insert_events_keeps (suc i) es next e.event_id r found)
    ],
    insert_events_stores (suc i) es next,
  )
    where
      row : Row
      row = new_row source cursor (clock i) e

      next : List Row
      next = insert_or_ignore row_id row rows

-- A row that is found has the id that was asked for.
pub find_row-id :
    (k : String) (rows : List Row) (r : Row) → find_row k rows ≡ some r → r.event_id ≡ k
unfolding find
find_row-id k [] r h = cc
find_row-id k (q ∷ rows) r h = ground (arith, eq_iff q.event_id k, find_row-id k rows r)

acked_ne :
    (id : String) (now : ℕ) (k : String) (o : Option Row)
    → ((r : Row) → o ≡ some r → r.event_id ≡ k)
    → (id == k) ≡ false
    → changed (acked id now) o ≡ o
acked_ne id now k none h n = refl
acked_ne id now k (some r) h n = ground (arith, h r refl, eq_iff r.event_id id, eq_iff id k)

same_id : (id : String) (now : ℕ) (r : Row) → row_id (acked id now r) ≡ row_id r
same_id id now r = ground arith

module _ (clock : Clock) where
  pub ack_events-IsKeyed :
      (i : ℕ) (ids : List String) (rows : List Row)
      → IsKeyed row_id rows
      → IsKeyed row_id (ack_events clock i ids rows).0
  unfolding ack_events
  ack_events-IsKeyed i [] rows h = h
  ack_events-IsKeyed i (id ∷ ids) rows h =
      ack_events-IsKeyed (suc i) ids (map (acked id (clock i)) rows)
        (IsKeyed-map row_id (acked id (clock i)) (same_id id (clock i)) rows h)

  -- An id outside the list leaves its row alone.
  pub ack_events_keeps :
      (i : ℕ) (ids : List String) (rows : List Row) (k : String)
      → contains k ids ≡ false
      → find_row k (ack_events clock i ids rows).0 ≡ find_row k rows
  unfolding ack_events
  ack_events_keeps i [] rows k h = refl
  ack_events_keeps i (id ∷ ids) rows k h =
      ack_events_keeps (suc i) ids (map (acked id (clock i)) rows) k (ground arith)
      ∙ find-map row_id (acked id (clock i)) (same_id id (clock i)) k rows
      ∙ acked_ne id (clock i) k (find_row k rows) (find_row-id k rows) (ground arith)

  -- An acknowledged row stays so, with the time that it has.
  pub ack_events_stays :
      (i : ℕ) (ids : List String) (rows : List Row) (k : String) (r : Row) (t : ℕ)
      → find_row k rows ≡ some r
      → r.acked_at ≡ some t
      → find_row k (ack_events clock i ids rows).0 ≡ some r
  unfolding ack_events
  ack_events_stays i [] rows k r t h a = h
  ack_events_stays i (id ∷ ids) rows k r t h a =
      ack_events_stays (suc i) ids (map (acked id (clock i)) rows) k r t
        (ground (arith, find-map row_id (acked id (clock i)) (same_id id (clock i)) k rows)) a

  -- An id in the list that has a row gives an acknowledged row, at a time that the clock read.
  pub ack_events_acks :
      (i : ℕ) (ids : List String) (rows : List Row) (k : String) (r : Row)
      → find_row k rows ≡ some r
      → r.acked_at ≡ none
      → contains k ids ≡ true
      → (j : ℕ) × (i ≤ j)
        × (j < i + length ids)
        × (find_row k (ack_events clock i ids rows).0
            ≡ some (record r { acked_at = some (clock j) }))
  unfolding ack_events
  ack_events_acks i [] rows k r h u c = cc
  ack_events_acks i (id ∷ ids) rows k r h u c =
      let rows' = map (acked id (clock i)) rows in
      let step = find-map row_id (acked id (clock i)) (same_id id (clock i)) k rows in
      elim (Bool-cases (id == k)) [
        | inl same ↦ (
          i,
          omega arith,
          omega arith,
          ack_events_stays (suc i) ids rows' k (record r { acked_at = some (clock i) }) (clock i)
              (ground (arith, step, find_row-id k rows r h, eq_iff id k, eq_iff r.event_id id))
              refl,
        )
        | inr other ↦
            let (j, low, high, found) =
              ack_events_acks (suc i) ids rows' k r
                (step ∙ acked_ne id (clock i) k (find_row k rows) (find_row-id k rows) other ∙ h) u
                (ground arith) in
            (j, omega arith, omega arith, found)
      ]
