-- ===== src/OpenClaw/Cursor/Roundtrip.antt =====
-- src/adapters/openclaw/hooks.js: what `openClawActiveWorkCursor` writes, `parseOpenClawActiveWorkCursor` reads
-- back.
use sidewisp_plugin.Prelude.{
  ℕ, zero, suc, ◌≤◌, String, Bool, true, false, ◌≡◌, refl, sym, ap, ◌∙◌, Option, none, some, List,
  [], ◌∷◌, if◌then◌else◌, length, map, All, All-map_prop, arith,
}
use mathlib.Core.Path.{subst}
use sidewisp_plugin.OpenClaw.Lifecycle.{Key}
use sidewisp_plugin.OpenClaw.Cursor.{
  absent, text, flag, texts, Candidate, object, Document, Entry, task_entry, run_entry,
  safe_cursor_id, is_true, run_ids_of, task_of, object_of, candidate_entry, key_of, is_seen,
  parse_candidates, parse, field_of, properties_of, print, active_entry,
}
use sidewisp_plugin.OpenClaw.Cursor.Reading.{
  IsEntry, IsWork, safe_id-text, safe_id-field_of, run_ids_of-texts, IsWorkFrom, parse-IsWork,
}

is_true-detached : (detached : Bool) → is_true (if detached then flag true else absent) ≡ detached
is_true-detached true = refl
is_true-detached false = refl

task-candidate :
    (s m turn : String) (started detached : Bool) (outer : Option String) (runs : List String)
    → IsEntry (task_entry s m turn started detached outer runs)
    → candidate_entry (object (properties_of (task_entry s m turn started detached outer runs)))
      ≡ some (task_entry s m turn started detached outer runs)
unfolding candidate_entry properties_of
task-candidate s m turn started detached outer runs (hs, (hm, (ht, (ho, (hl, (hr, hn)))))) =
    let p = properties_of (task_entry s m turn started detached outer runs) in
    let d = if detached then flag true else absent in
    ap (object_of p) (safe_id-text turn ht)
    ∙ ap (λ o. task_of p turn o (safe_cursor_id (text m))) (safe_id-text s hs)
    ∙ ap (task_of p turn (some s)) (safe_id-text m hm)
    ∙ ap
        (λ x. some (
          task_entry s m turn started x (safe_cursor_id (field_of outer))
            (run_ids_of (texts (map some runs)))))
        (is_true-detached detached)
    ∙ ap (λ o. some (task_entry s m turn started detached o (run_ids_of (texts (map some runs)))))
        (safe_id-field_of outer ho)
    ∙ ap (λ r. some (task_entry s m turn started detached outer r)) (run_ids_of-texts runs hl hr hn)

run-candidate :
    (turn : String) (session : Option String)
    → IsEntry (run_entry turn session)
    → candidate_entry (object (properties_of (run_entry turn session)))
      ≡ some (run_entry turn session)
unfolding candidate_entry properties_of
run-candidate turn session h =
    let p = properties_of (run_entry turn session) in
    ap (object_of p) (safe_id-text turn h.0)
    ∙ ap (λ o. some (run_entry turn o)) (safe_id-field_of session h.1)

abbrev candidate_of : Entry → Candidate
candidate_of a = object (properties_of a)

entry-candidate : (a : Entry) → IsEntry a → candidate_entry (candidate_of a) ≡ some a
entry-candidate (task_entry s m turn started detached outer runs) h =
    task-candidate s m turn started detached outer runs h
entry-candidate (run_entry turn session) h = run-candidate turn session h

parse_candidates-map :
    (seen : List Key) (n : ℕ) (entries : List Entry)
    → IsWorkFrom seen n entries
    → parse_candidates seen n (map candidate_of entries) ≡ entries
unfolding parse_candidates
parse_candidates-map seen zero [] h = refl
parse_candidates-map seen zero (a ∷ entries) h = ground arith
parse_candidates-map seen (suc n) [] h = refl
parse_candidates-map seen (suc n) (a ∷ entries) h =
    subst
      (λ o.
        (elim o [
          | none ↦ skipped
          | some b ↦
              (if is_seen (key_of b) seen
                then skipped
                else b ∷ parse_candidates (key_of b ∷ seen) n rest)
        ])
        ≡ a ∷ entries)
      (sym (entry-candidate a h.1.0.0))
      (subst
        (λ t. (if t then skipped else a ∷ parse_candidates (key_of a ∷ seen) n rest) ≡ a ∷ entries)
        (sym h.1.1.0)
        (ap (λ xs. a ∷ xs)
          (parse_candidates-map (key_of a ∷ seen) n entries (omega arith, (h.1.0.1, h.1.1.1)))))
  where
    rest : List Candidate
    rest = map candidate_of entries

    skipped : List Entry
    skipped = parse_candidates seen (suc n) rest

-- Work that is within the cursor's bounds is read back as it was written, whatever the sequence number: it has 1000
-- entries at most, with identifiers of 1 to 256 UTF-16 units, 64 distinct runs at most in each, and no two entries of
-- one identity.
pub parse-print :
    (sequence : ℕ) (entries : List Entry)
    → IsWork entries
    → parse (print sequence entries) ≡ entries
unfolding parse print
parse-print sequence entries h = parse_candidates-map [] 1000 entries h

-- Whatever value a cursor holds, what is read from it is read again when it is written, whatever the sequence number.
pub parse-print-parse : (sequence : ℕ) (d : Document) → parse (print sequence (parse d)) ≡ parse d
parse-print-parse sequence d = parse-print sequence (parse d) (parse-IsWork d)

-- The entries that are read are small enough for the lifecycle to restore them.
pub parse-All-small :
    (d : Document) → All (λ a. length (active_entry a).internal_run_ids ≤ 64) (parse d)
parse-All-small d =
    All-map_prop IsEntry (λ a. length (active_entry a).internal_run_ids ≤ 64) (parse d) by_entry
      (parse-IsWork d).1.0
  where
    by_entry : (a : Entry) → IsEntry a → length (active_entry a).internal_run_ids ≤ 64
    by_entry (task_entry s m turn started detached outer runs) h = h.1.1.1.1.0
    by_entry (run_entry turn session) h = omega arith
