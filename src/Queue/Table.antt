-- ===== src/Queue/Table.antt =====
-- The statements of storage.py on the two tables: UPDATE … WHERE, its row count, SELECT … ORDER BY
-- … LIMIT 1, and INSERT … ON CONFLICT DO NOTHING. A statement reads `clock_timestamp()` once.
use shadowglass_v35_runtime.Common.{
  ℕ, String, Bool, true, false, Option, none, some, List, [], ◌∷◌, ◌++◌, map, any, ◌==◌, ltb,
  if◌then◌else◌,
}
use shadowglass_v35_runtime.Common.Int.{eq_ℤ, ltb_ℤ}
use shadowglass_v35_runtime.Queue.Row.{Row, DeadLetter}

-- `make_interval(secs => 1)` in the unit of the timestamps, the microsecond.
abbrev pub second : ℕ
second = 1000000

-- What an UPDATE makes of one row.
abbrev pub change : (Row → Bool) → (Row → Row) → Row → Row
change test f r = if test r then f r else r

unfoldable pub update_where : (Row → Bool) → (Row → Row) → List Row → List Row
update_where test f rows = map (change test f) rows

-- ORDER BY priority ASC, available_at ASC, id ASC: `r` comes before `s`.
unfoldable pub before : Row → Row → Bool
before r s =
    if ltb_ℤ r.priority s.priority
    then true
    else if eq_ℤ r.priority s.priority
    then (if ltb r.available_at s.available_at
        then true
        else if r.available_at == s.available_at
        then ltb r.id s.id
        else false)
    else false

abbrev pub better : Row → Option Row → Option Row
better r none = some r
better r (some s) = if before s r then some s else some r

-- SELECT … WHERE test ORDER BY … LIMIT 1
unfoldable pub select_first : (Row → Bool) → List Row → Option Row
select_first test [] = none
select_first test (r ∷ rows) =
    let rest = select_first test rows in if test r then better r rest else rest

-- INSERT … ON CONFLICT (queue_id) DO NOTHING
unfoldable pub insert_dead : DeadLetter → List DeadLetter → List DeadLetter
insert_dead d dead = if any (λ e. e.queue_id == d.queue_id) dead then dead else dead ++ d ∷ []

-- INSERT … SELECT … FROM work_queue WHERE test ON CONFLICT (queue_id) DO NOTHING
unfoldable pub insert_select :
    (Row → Bool) → (Row → DeadLetter) → List Row → List DeadLetter → List DeadLetter
unfolding insert_dead
insert_select test letter [] dead = dead
insert_select test letter (r ∷ rows) dead =
    insert_select test letter rows (if test r then insert_dead (letter r) dead else dead)

-- The dead letter of a row, with its last error.
abbrev pub letter_of : ℕ → (Row → Option String) → Row → DeadLetter
letter_of now error r = record {
  queue_id = r.id;
  job_kind = r.job_kind;
  payload = r.payload;
  payload_version = r.payload_version;
  idempotency_key = r.idempotency_key;
  attempts = r.attempts;
  max_attempts = r.max_attempts;
  last_error = error r;
  failed_at = now;
}
