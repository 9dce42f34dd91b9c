-- ===== src/Queue/Recovery/Gap.antt =====
-- The gap between the two readings of the clock in `recover_stale_leases`.
use shadowglass_v35_runtime.Common.{
  ℕ, ◌≤◌, ◌<◌, ◌≡◌, ◌≢◌, refl, true, false, some, List, [], ◌∷◌, All, All-implies, arith, ==_iff,
}
use shadowglass_v35_runtime.Queue.Row.{Row, DeadLetter, Queue, processing}
use shadowglass_v35_runtime.Queue.Table.{insert_select, letter_of}
use shadowglass_v35_runtime.Queue.Recover.{
  Readings, is_exhausted, is_stale, expired_error, bury, recover_stale_leases,
}
use shadowglass_v35_runtime.Queue.Claim.{has_id}
use shadowglass_v35_runtime.Queue.Invariant.Valid.{IsValid}
use shadowglass_v35_runtime.Queue.Invariant.Select.{In, id_unique}
use shadowglass_v35_runtime.Queue.Invariant.Letters.{insert_select-All}
use shadowglass_v35_runtime.Queue.Ownership.Outcome.{is_recorded}
use shadowglass_v35_runtime.Queue.Recovery.{recovered, recovered_rows, In-map}

unrecorded :
    (n : ℕ) (letters : List DeadLetter)
    → All (λ d. d.queue_id ≢ n) letters
    → is_recorded n letters ≡ false
unrecorded n [] h = refl
unrecorded n (d ∷ letters) (p, h) = let ih = unrecorded n letters h in ground (arith, ih)

all_unrecorded :
    (n : ℕ) (letters : List DeadLetter)
    → is_recorded n letters ≡ false
    → All (λ d. d.queue_id ≢ n) letters
all_unrecorded n [] h = tt
all_unrecorded n (d ∷ letters) h = (ground arith, all_unrecorded n letters (ground arith))

not_yet : (now e : ℕ) (r : Row) → r.lease_expires_at ≡ some e → now < e → is_exhausted now r ≡ false
unfolding is_exhausted
not_yet now e r at lt = ground arith

by_now :
    (t : Readings) (e : ℕ) (r : Row)
    → r.state ≡ processing
    → r.lease_expires_at ≡ some e
    → e ≤ t.buried
    → r.max_attempts ≤ r.attempts
    → recovered t r ≡ bury t.buried expired_error r
unfolding is_exhausted is_stale
by_now t e r p at le spent = ground arith

unselected :
    (now e : ℕ) (r : Row) (q : Queue)
    → IsValid q
    → In r q.rows
    → is_exhausted now r ≡ false
    → All (λ s. is_exhausted now s ≡ true → s.id ≢ r.id) q.rows
unselected now e r q v i f =
    All-implies (λ s. has_id r.id s ≡ true → s ≡ r) (λ s. is_exhausted now s ≡ true → s.id ≢ r.id)
      q.rows (λ s only picked same. absurd_test s (only ((==_iff s.id r.id).1 same)) picked)
      (id_unique q.rows r v.ids i)
  where
    absurd_test : (s : Row) → s ≡ r → is_exhausted now s ≡ true → ⊥
    absurd_test s same picked = let here : is_exhausted now r ≡ true = rw same at picked in cc

-- In a valid queue, a lease on its last attempt that runs out after the recovery's INSERT read the
-- clock and no later than its first UPDATE did leaves the job dead with no dead letter.
pub letter_lost :
    (t : Readings) (r : Row) (q : Queue) (e : ℕ)
    → IsValid q
    → In r q.rows
    → r.state ≡ processing
    → r.max_attempts ≤ r.attempts
    → r.lease_expires_at ≡ some e
    → t.recorded < e
    → e ≤ t.buried
    → is_recorded r.id q.dead_letters ≡ false
    → In (bury t.buried expired_error r) (recover_stale_leases t q).1.rows
      × (is_recorded r.id (recover_stale_leases t q).1.dead_letters ≡ false)
letter_lost t r q e v i p spent at after before fresh =
    let buried = by_now t e r p at before spent in
    let out = unselected t.recorded e r q v i (not_yet t.recorded e r at after) in
    let letters =
      insert_select-All (is_exhausted t.recorded) (letter_of t.recorded expired_error)
        (λ d. d.queue_id ≢ r.id) q.rows q.dead_letters out
        (all_unrecorded r.id q.dead_letters fresh) in
    (
      rw recovered_rows (rw (← buried) (In-map (recovered t) r q.rows i)),
      unfold recover_stale_leases in
          unrecorded r.id
            (insert_select (is_exhausted t.recorded) (letter_of t.recorded expired_error) q.rows
              q.dead_letters)
            letters,
    )
