-- ===== src/Queue/Invariant/Insertions.antt =====
-- Enqueueing and pausing keep the queue's invariant.
use shadowglass_v35_runtime.Common.{
  ℕ, ◌≤◌, String, ◌≡◌, refl, Bool, Option, none, some, List, [], ◌∷◌, arith, eq_iff, find,
  Option-cases, Bool-cases, inl, inr, str_eq,
}
use shadowglass_v35_runtime.Common.Distinct.{Fresh}
use shadowglass_v35_runtime.Common.Result.{ok}
use shadowglass_v35_runtime.Queue.Row.{Row, Queue, State}
use shadowglass_v35_runtime.Queue.Table.{update_where}
use shadowglass_v35_runtime.Queue.Claim.{has_id}
use shadowglass_v35_runtime.Queue.Enqueue.{
  Work, new_row, has_key, insert_work, replay, enqueued, enqueue_job, is_switchable, switch,
  unswitched, set_paused,
}
use shadowglass_v35_runtime.Queue.Invariant.Evolve.{IsSound}
use shadowglass_v35_runtime.Queue.Invariant.Valid.{append-IsValid}
use shadowglass_v35_runtime.Queue.Invariant.Extends.{Extends-append, Keeps, Keeps-refl}
use shadowglass_v35_runtime.Queue.Invariant.Steps.{switch-IsStep}
use shadowglass_v35_runtime.Queue.Invariant.Operations.{update_where-Keeps}

-- The attempts that `enqueue_job` and schema.sql allow.
abbrev pub InRange : Work → Type 0
InRange w = (1 ≤ w.max_attempts) × (w.max_attempts ≤ 100)

new_row-IsSound : (now id : ℕ) (w : Work) → InRange w → IsSound (new_row now id w)
new_row-IsSound now id w h = ground arith

pub Fresh-of_find :
    (key : String) (rows : List Row)
    → find (has_key key) rows ≡ none
    → Fresh (λ r. r.idempotency_key) key rows
unfolding has_key
Fresh-of_find key [] e = tt
Fresh-of_find key (r ∷ rows) e = elim (Bool-cases (str_eq r.idempotency_key key)) [
  | inl same ↦ absurd (ground arith)
  | inr other ↦
      (λ p. ground (arith, eq_iff r.idempotency_key key), Fresh-of_find key rows (ground arith))
]

pub insert_work-Keeps :
    (now : ℕ) (w : Work) (q : Queue) → InRange w → Keeps q (insert_work now w q).1
unfolding insert_work
insert_work-Keeps now w q h v = elim (Option-cases (find (has_key w.idempotency_key) q.rows)) [
  | inl absent ↦
      rw (absent, insert_work)
        (
          append-IsValid (new_row now q.next_id w) q (new_row-IsSound now q.next_id w h) refl
              (Fresh-of_find w.idempotency_key q.rows absent) v,
          Extends-append q.rows (new_row now q.next_id w ∷ []),
        )
  | inr (r, present) ↦ rw (present, insert_work) (Keeps-refl q v)
]

replay-same :
    (w : Work) (q : Queue) (o : Option Row) {x : ℕ × Bool} {q' : Queue}
    → replay w q o ≡ ok (x, q')
    → q ≡ q'
replay-same w q none e = cc
replay-same w q (some r) e = ground arith

enqueued-same :
    (w : Work) (r : Option ℕ × Queue) {x : ℕ × Bool} {q' : Queue}
    → enqueued w r ≡ ok (x, q')
    → r.1 ≡ q'
enqueued-same w (some id, q) e = ground arith
enqueued-same w (none, q) {x} {q'} e =
    replay-same w q (find (has_key w.idempotency_key) q.rows) {x = x} {q' = q'} e

pub enqueue_job-Keeps :
    (now : ℕ) (w : Work) (q : Queue) {x : ℕ × Bool} {q' : Queue}
    → enqueue_job now w q ≡ ok (x, q')
    → Keeps q q'
unfolding enqueue_job
enqueue_job-Keeps now w q {x} {q'} e =
    let bounds : InRange w = ground arith in
    let same : (insert_work now w q).1 ≡ q' =
      enqueued-same w (insert_work now w q) {x = x} {q' = q'} (ground arith) in
    rw (← same) (insert_work-Keeps now w q bounds)

unswitched-same :
    (pausing : Bool) (q : Queue) (o : Option Row) {x : ℕ × State} {q' : Queue}
    → unswitched pausing q o ≡ ok (x, q')
    → q ≡ q'
unswitched-same pausing q none e = cc
unswitched-same pausing q (some r) e = ground arith

pub set_paused-Keeps :
    (now i : ℕ) (pausing : Bool) (q : Queue) {x : ℕ × State} {q' : Queue}
    → set_paused now i pausing q ≡ ok (x, q')
    → Keeps q q'
unfolding set_paused
set_paused-Keeps now i pausing q {x} {q'} e =
    elim (Option-cases (find (is_switchable pausing i) q.rows)) [
      | inl absent ↦
          let same : q ≡ q' =
            unswitched-same pausing q (find (has_id i) q.rows) {x = x} {q' = q'} (ground arith) in
          rw (← same) (Keeps-refl q)
      | inr (r, present) ↦
          let same : record q {
            rows = update_where (is_switchable pausing i) (switch now pausing) q.rows;
          }
              ≡ q' =
            ground arith in
          rw (← same) (
            update_where-Keeps (is_switchable pausing i) (switch now pausing) q
              (switch-IsStep now i pausing))
    ]
