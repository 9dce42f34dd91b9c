-- ===== src/Queue/Idempotency.antt =====
-- The idempotency key of `enqueue_job` across retries.
use shadowglass_v35_runtime.Common.{
  ℕ, suc, ◌≤◌, String, ◌≡◌, ◌≢◌, refl, ◌∙◌, ap, ◌⊎◌, inl, inr, Bool, true, false, Option, none,
  some, List, [], ◌∷◌, ◌++◌, arith, eq_iff, str_eq, find, Bool-cases, Option-cases,
}
use shadowglass_v35_runtime.Common.Result.{ok, err, idempotency_conflict}
use shadowglass_v35_runtime.Common.Text.{is_empty, strip}
use shadowglass_v35_runtime.Json.{same_text}
use shadowglass_v35_runtime.Json.Dict.{IsDict, str_eq_refl, same_text_refl}
use shadowglass_v35_runtime.Queue.Row.{Row, Queue}
use shadowglass_v35_runtime.Queue.Enqueue.{
  Work, new_row, has_key, insert_work, same_work, replay, enqueue_job,
}
use shadowglass_v35_runtime.Queue.Invariant.Evolve.{Evolves}
use shadowglass_v35_runtime.Queue.Invariant.Valid.{IsValid}
use shadowglass_v35_runtime.Queue.Invariant.Extends.{Extends}
use shadowglass_v35_runtime.Queue.Reach.{Reach, Reach-Keeps}

-- The row that answers for the key of some work.
pub record Answers (w : Work) (i : ℕ) (rows : List Row) : Type 0 where
  pub row : Row
  pub found : find (has_key w.idempotency_key) rows ≡ some row
  pub same : same_work w row ≡ true
  pub named : row.id ≡ i

pub find-append :
    (key : String) (rows : List Row) (r : Row)
    → find (has_key key) rows ≡ none
    → has_key key r ≡ true
    → find (has_key key) (rows ++ r ∷ []) ≡ some r
find-append key [] r e h = rw h
find-append key (x ∷ rows) r e h = elim (Bool-cases (has_key key x)) [
  | inl hit ↦ absurd (ground (arith, hit))
  | inr miss ↦ rw miss (find-append key rows r (rw miss at e) h)
]

pub new_row-same :
    (now id : ℕ) (w : Work) → IsDict w.payload → same_work w (new_row now id w) ≡ true
unfolding same_work
new_row-same now id w d =
    let t = same_text_refl w.payload d in let k = str_eq_refl w.job_kind in ground (arith, t, k)

pub new_row-key : (now id : ℕ) (w : Work) → has_key w.idempotency_key (new_row now id w) ≡ true
unfolding has_key
new_row-key now id w = str_eq_refl w.idempotency_key

module _ (w : Work) where
  replay-Answers :
      (q : Queue) (o : Option Row) {i : ℕ} {b : Bool} {q' : Queue}
      → replay w q o ≡ ok ((i, b), q')
      → (r : Row) × (o ≡ some r) × (same_work w r ≡ true) × (r.id ≡ i) × (q ≡ q')
  replay-Answers q none e = cc
  replay-Answers q (some r) e = (r, refl, ground arith, ground arith, ground arith)

  key_evolved :
      (r s : Row) → Evolves r s → has_key w.idempotency_key s ≡ has_key w.idempotency_key r
  unfolding has_key
  key_evolved r s g = ap (λ (k : String). str_eq k w.idempotency_key) g.same_key

  same_evolved : (r s : Row) → Evolves r s → same_work w r ≡ true → same_work w s ≡ true
  unfolding same_work
  same_evolved r s g h = rw (g.same_kind, g.same_version, g.same_payload) h

  pub find-Extends :
      (rows after : List Row) (r : Row)
      → find (has_key w.idempotency_key) rows ≡ some r
      → Extends rows after
      → (s : Row) × (find (has_key w.idempotency_key) after ≡ some s) × Evolves r s
  find-Extends [] after r e x = absurd (ground arith)
  find-Extends (y ∷ rows) [] r e x = elim x [ ]
  find-Extends (y ∷ rows) (z ∷ after) r e (g, x) = elim (Bool-cases (has_key w.idempotency_key y)) [
    | inl hit ↦
        let same : y ≡ r = ground (arith, hit) in (z, rw (key_evolved y z g, hit), rw (← same) g)
    | inr miss ↦
        let (s, found, grown) = find-Extends rows after r (rw miss at e) x in
        (s, rw (key_evolved y z g, miss) found, grown)
  ]

  -- The first answer for a key lasts: rows keep their places, keys and work.
  pub Answers-Extends :
      (i : ℕ) (rows after : List Row) → Answers w i rows → Extends rows after → Answers w i after
  Answers-Extends i rows after a x =
      let (s, found, grown) = find-Extends rows after a.row a.found x in
      record {
        row = s;
        found = found;
        same = same_evolved a.row s grown a.same;
        named = grown.same_id ∙ a.named;
      }

  -- What an accepted call leaves in the table.
  pub enqueue_job-Answers :
      (now : ℕ) (q : Queue) {i : ℕ} {b : Bool} {q' : Queue}
      → IsDict w.payload
      → enqueue_job now w q ≡ ok ((i, b), q')
      → Answers w i q'.rows
  unfolding enqueue_job insert_work
  enqueue_job-Answers now q {i} {b} {q'} d e =
      elim (Option-cases (find (has_key w.idempotency_key) q.rows)) [
        | inl absent ↦
            let made : record q {
              rows = q.rows ++ new_row now q.next_id w ∷ [];
              next_id = suc q.next_id;
            }
                ≡ q' =
              ground (arith, absent) in
            record {
              row = new_row now q.next_id w;
              found = rw (← made) (
                  find-append w.idempotency_key q.rows (new_row now q.next_id w) absent
                    (new_row-key now q.next_id w));
              same = new_row-same now q.next_id w d;
              named = ground (arith, absent);
            }
        | inr (r, present) ↦
            let answered : replay w q (some r) ≡ ok ((i, b), q') = ground (arith, present) in
            let (s, picked, same, named, kept) =
              replay-Answers q (some r) {i = i} {b = b} {q' = q'} answered in
            record { row = s; found = rw (← kept) (present ∙ picked); same = same; named = named }
      ]

  pub replay_answered :
      (now i : ℕ) (q : Queue)
      → Answers w i q.rows
      → is_empty (strip w.job_kind) ≡ false
      → is_empty (strip w.idempotency_key) ≡ false
      → 1 ≤ w.max_attempts
      → w.max_attempts ≤ 100
      → enqueue_job now w q ≡ ok ((i, false), q)
  unfolding enqueue_job insert_work
  replay_answered now i q a k j lo hi =
      let p = a.found in let s = a.same in let n = a.named in ground (arith, p, s, n, k, j)

  pub accepted :
      (now : ℕ) (q : Queue) {x : ℕ × Bool} {q' : Queue}
      → enqueue_job now w q ≡ ok (x, q')
      → (is_empty (strip w.job_kind) ≡ false)
        × (is_empty (strip w.idempotency_key) ≡ false)
        × (1 ≤ w.max_attempts)
        × (w.max_attempts ≤ 100)
  unfolding enqueue_job
  accepted now q e = ground arith

  -- Once a call of `enqueue_job` on a valid queue is accepted, every later call with the same work
  -- answers with the same id, says that nothing was created and changes nothing, whatever
  -- transactions ran in between, the job's own completion or burial included.
  pub enqueue_job_idempotent :
      (now later : ℕ) (q q' q'' : Queue) (i : ℕ) (b : Bool)
      → IsValid q'
      → IsDict w.payload
      → enqueue_job now w q ≡ ok ((i, b), q')
      → Reach q' q''
      → enqueue_job later w q'' ≡ ok ((i, false), q'')
  enqueue_job_idempotent now later q q' q'' i b v d e steps =
      let (k, j, lo, hi) = accepted now q {x = (i, b)} {q' = q'} e in
      let first = enqueue_job-Answers now q {i = i} {b = b} {q' = q'} d e in
      let (_, x) = Reach-Keeps q' q'' v steps in
      replay_answered later i q'' (Answers-Extends i q'.rows q''.rows first x) k j lo hi

  -- A key that stands in the table for other work is refused.
  pub enqueue_job_conflict :
      (now : ℕ) (q : Queue) (r : Row)
      → find (has_key w.idempotency_key) q.rows ≡ some r
      → (r.job_kind ≢ w.job_kind)
        ⊎ (r.payload_version ≢ w.payload_version)
        ⊎ (same_text r.payload w.payload ≡ false)
      → is_empty (strip w.job_kind) ≡ false
      → is_empty (strip w.idempotency_key) ≡ false
      → 1 ≤ w.max_attempts
      → w.max_attempts ≤ 100
      → enqueue_job now w q
        ≡ err idempotency_conflict "idempotency key is already bound to different work"
  unfolding enqueue_job insert_work same_work
  enqueue_job_conflict now q r p differs k j lo hi =
      let kinds = eq_iff r.job_kind w.job_kind in ground (arith, p, k, j, kinds)
