-- ===== src/OpenClaw/Cursor/Reading.antt =====
-- src/adapters/openclaw/hooks.js: what is read from a cursor is work, whatever its value.
use sidewisp_plugin.Prelude.{
  ℕ, zero, suc, ◌≤◌, String, Bool, true, false, not, ◌&&◌, ◌≡◌, refl, ap, ◌∙◌, Option, none, some,
  List, [], ◌∷◌, if◌then◌else◌, length, length-take, contains, map, take, All, arith,
}
use sidewisp_plugin.OpenClaw.Lifecycle.{Key}
use sidewisp_plugin.OpenClaw.Cursor.{
  Field, absent, other_value, text, flag, texts, Properties, Candidate, legacy, object, junk,
  Document, Entry, task_entry, run_entry, is_safe_id, safe_cursor_id, or_field, array_of,
  distinct_ids, run_ids_of, is_kind, task_of, object_of, candidate_entry, key_of, is_seen,
  parse_candidates, raw_of, parse, field_of,
}

abbrev pub IsSafeId : String → Type 0
IsSafeId s = is_safe_id s ≡ true

abbrev pub IsSafeOption : Option String → Type 0
IsSafeOption none = Unit
IsSafeOption (some s) = IsSafeId s

-- No identifier stands twice, and none is one of `seen`.
abbrev pub AreNewIds : List String → List String → Type 0
AreNewIds seen [] = Unit
AreNewIds seen (s ∷ xs) = (contains s seen ≡ false) × AreNewIds (s ∷ seen) xs

-- An entry of safe identifiers, with 64 distinct runs at most.
abbrev pub IsEntry : Entry → Type 0
IsEntry (task_entry s m turn started detached outer runs) =
    IsSafeId s
    × (IsSafeId m
        × (IsSafeId turn
            × (IsSafeOption outer
                × ((length runs ≤ 64) × (All IsSafeId runs × AreNewIds [] runs)))))
IsEntry (run_entry turn session) = IsSafeId turn × IsSafeOption session

-- No two entries have one identity, and none has one of `seen`.
abbrev pub AreNew : List Key → List Entry → Type 0
AreNew seen [] = Unit
AreNew seen (a ∷ entries) = (is_seen (key_of a) seen ≡ false) × AreNew (key_of a ∷ seen) entries

abbrev pub IsWork : List Entry → Type 0
IsWork entries = (length entries ≤ 1000) × (All IsEntry entries × AreNew [] entries)

safe_id-IsSafe : (f : Field) → IsSafeOption (safe_cursor_id f)
unfolding safe_cursor_id
safe_id-IsSafe absent = tt
safe_id-IsSafe other_value = tt
safe_id-IsSafe (flag b) = tt
safe_id-IsSafe (texts xs) = tt
safe_id-IsSafe (text s) = by_test (is_safe_id s) refl
  where
    by_test : (b : Bool) → is_safe_id s ≡ b → IsSafeOption (if b then some s else none)
    by_test true h = h
    by_test false h = tt

pub safe_id-text : (s : String) → IsSafeId s → safe_cursor_id (text s) ≡ some s
unfolding safe_cursor_id
safe_id-text s h = ap (λ b. if b then some s else none) h

pub safe_id-field_of : (o : Option String) → IsSafeOption o → safe_cursor_id (field_of o) ≡ o
unfolding safe_cursor_id
safe_id-field_of none h = refl
safe_id-field_of (some s) h = safe_id-text s h

-- The distinct safe identifiers of a list that holds nothing else are the list.
distinct_ids-map :
    (seen xs : List String)
    → All IsSafeId xs
    → AreNewIds seen xs
    → distinct_ids seen (map some xs) ≡ xs
unfolding distinct_ids
distinct_ids-map seen [] h k = refl
distinct_ids-map seen (s ∷ xs) h k = ground (arith, distinct_ids-map (s ∷ seen) xs h.1 k.1)

abbrev pub AreDistinctIds : List String → List String → Type 0
AreDistinctIds seen xs = All IsSafeId xs × AreNewIds seen xs

distinct_ids-AreDistinct :
    (seen : List String) (xs : List (Option String)) → AreDistinctIds seen (distinct_ids seen xs)
unfolding distinct_ids
distinct_ids-AreDistinct seen [] = (tt, tt)
distinct_ids-AreDistinct seen (none ∷ xs) = distinct_ids-AreDistinct seen xs
distinct_ids-AreDistinct seen (some s ∷ xs) =
    by_test (is_safe_id s) refl (contains s seen) refl (distinct_ids-AreDistinct (s ∷ seen) xs)
      (distinct_ids-AreDistinct seen xs)
  where
    by_test :
        (b : Bool)
        → is_safe_id s ≡ b
        → (k : Bool) → contains s seen ≡ k
        → AreDistinctIds (s ∷ seen) (distinct_ids (s ∷ seen) xs)
        → AreDistinctIds seen (distinct_ids seen xs)
        → AreDistinctIds seen
            (if b && not k then s ∷ distinct_ids (s ∷ seen) xs else distinct_ids seen xs)
    by_test true h false k g q = ((h, g.0), (k, g.1))
    by_test true h true k g q = q
    by_test false h k e g q = q

take-AreDistinct :
    (n : ℕ) (seen xs : List String) → AreDistinctIds seen xs → AreDistinctIds seen (take n xs)
take-AreDistinct zero seen xs h = (tt, tt)
take-AreDistinct (suc n) seen [] h = (tt, tt)
take-AreDistinct (suc n) seen (s ∷ xs) h =
    let rest = take-AreDistinct n (s ∷ seen) xs (h.0.1, h.1.1) in ((h.0.0, rest.0), (h.1.0, rest.1))

take_all : {A : Type 0} (n : ℕ) (xs : List A) → length xs ≤ n → take n xs ≡ xs
take_all zero [] h = refl
take_all zero (x ∷ xs) h = ground arith
take_all (suc n) [] h = refl
take_all (suc n) (x ∷ xs) h = ap (λ ys. x ∷ ys) (take_all n xs (omega arith))

run_ids_of-IsEntry :
    (f : Field)
    → (length (run_ids_of f) ≤ 64) × (All IsSafeId (run_ids_of f) × AreNewIds [] (run_ids_of f))
run_ids_of-IsEntry f =
    let distinct = distinct_ids-AreDistinct [] (array_of f) in
    (
      omega (arith, length-take 64 (distinct_ids [] (array_of f))),
      take-AreDistinct 64 [] (distinct_ids [] (array_of f)) distinct,
    )

pub run_ids_of-texts :
    (runs : List String)
    → length runs ≤ 64
    → All IsSafeId runs
    → AreNewIds [] runs
    → run_ids_of (texts (map some runs)) ≡ runs
run_ids_of-texts runs h k n = ap (take 64) (distinct_ids-map [] runs k n) ∙ take_all 64 runs h

-- What holds of the entry that is there, if any.
abbrev pub IsEntryOption : Option Entry → Type 0
IsEntryOption none = Unit
IsEntryOption (some a) = IsEntry a

task_of-IsEntry :
    (p : Properties) (turn : String) (s m : Option String)
    → IsSafeId turn
    → IsSafeOption s
    → IsSafeOption m
    → IsEntryOption (task_of p turn s m)
task_of-IsEntry p turn none m h k n = tt
task_of-IsEntry p turn (some s) none h k n = tt
task_of-IsEntry p turn (some s) (some m) h k n =
    (k, (n, (h, (safe_id-IsSafe p.outer_run_id, run_ids_of-IsEntry p.internal_run_ids))))

either_IsEntry :
    (b : Bool) (x y : Option Entry)
    → IsEntryOption x
    → IsEntryOption y
    → IsEntryOption (if b then x else y)
either_IsEntry true x y h k = h
either_IsEntry false x y h k = k

object_of-IsEntry :
    (p : Properties) (turn : Option String) → IsSafeOption turn → IsEntryOption (object_of p turn)
object_of-IsEntry p none h = tt
object_of-IsEntry p (some turn) h =
    let s = safe_cursor_id p.session_id in
    let m = safe_cursor_id p.message_id in
    either_IsEntry (is_kind "run" p.kind) (some (run_entry turn s))
      (if is_kind "task" p.kind then task_of p turn s m else none) (h, safe_id-IsSafe p.session_id)
      (either_IsEntry (is_kind "task" p.kind) (task_of p turn s m) none
        (task_of-IsEntry p turn s m h (safe_id-IsSafe p.session_id) (safe_id-IsSafe p.message_id))
        tt)

candidate_entry-IsEntry : (x : Candidate) → IsEntryOption (candidate_entry x)
unfolding candidate_entry
candidate_entry-IsEntry (legacy s) = by_id (safe_cursor_id (text s)) (safe_id-IsSafe (text s))
  where
    by_id :
        (o : Option String)
        → IsSafeOption o
        → IsEntryOption (elim o [ none ↦ none | some turn ↦ some (run_entry turn none) ])
    by_id none h = tt
    by_id (some turn) h = (h, tt)
candidate_entry-IsEntry (object p) =
    object_of-IsEntry p _ (safe_id-IsSafe (or_field p.turn_id p.message_id))
candidate_entry-IsEntry junk = tt

-- A list of `n` entries at most
abbrev pub IsWorkFrom : List Key → ℕ → List Entry → Type 0
IsWorkFrom seen n entries = (length entries ≤ n) × (All IsEntry entries × AreNew seen entries)

parse_candidates-IsWork :
    (seen : List Key) (n : ℕ) (cs : List Candidate) → IsWorkFrom seen n (parse_candidates seen n cs)
unfolding parse_candidates
parse_candidates-IsWork seen zero cs = (omega arith, (tt, tt))
parse_candidates-IsWork seen (suc n) [] = (omega arith, (tt, tt))
parse_candidates-IsWork seen (suc n) (x ∷ cs) =
    by_entry (candidate_entry x) (candidate_entry-IsEntry x)
      (parse_candidates-IsWork seen (suc n) cs) (λ key. parse_candidates-IsWork (key ∷ seen) n cs)
  where
    with_entry :
        (a : Entry) (b : Bool)
        → is_seen (key_of a) seen ≡ b
        → IsEntry a
        → IsWorkFrom seen (suc n) (parse_candidates seen (suc n) cs)
        → IsWorkFrom (key_of a ∷ seen) n (parse_candidates (key_of a ∷ seen) n cs)
        → IsWorkFrom seen (suc n) (
            if b
            then parse_candidates seen (suc n) cs
            else a ∷ parse_candidates (key_of a ∷ seen) n cs)
    with_entry a true e h k r = k
    with_entry a false e h k r = (omega arith, ((h, r.1.0), (e, r.1.1)))

    by_entry :
        (o : Option Entry)
        → IsEntryOption o
        → IsWorkFrom seen (suc n) (parse_candidates seen (suc n) cs)
        → ((key : Key) → IsWorkFrom (key ∷ seen) n (parse_candidates (key ∷ seen) n cs))
        → IsWorkFrom seen (suc n) (elim o [
          | none ↦ parse_candidates seen (suc n) cs
          | some a ↦
              (if is_seen (key_of a) seen
                then parse_candidates seen (suc n) cs
                else a ∷ parse_candidates (key_of a ∷ seen) n cs)
        ])
    by_entry none h k r = k
    by_entry (some a) h k r = with_entry a (is_seen (key_of a) seen) refl h k (r (key_of a))

-- Whatever value the cursor holds, what is read has 1000 entries at most, of safe identifiers, with 64 distinct
-- runs at most each, and no two entries of one identity.
pub parse-IsWork : (d : Document) → IsWork (parse d)
unfolding parse
parse-IsWork d = parse_candidates-IsWork [] 1000 (raw_of d)
