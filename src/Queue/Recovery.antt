-- ===== src/Queue/Recovery.antt =====
-- What a recovery leaves behind: no lease that ran out, and a dead letter for each job that it
-- buried, if the clock did not pass a lease's end between its statements.
pub mod Gap
pub mod Taken
use shadowglass_v35_runtime.Common.{
  ℕ, ◌+◌, ◌≤◌, ◌<◌, String, ◌≡◌, ◌≢◌, refl, sym, ap, ◌⊎◌, inl, inr, Bool, true, false, Option, none,
  some, List, [], ◌∷◌, map, All, All_of_all, All-map, All-implies, arith, leb, ltb, some_le,
  is_some, Bool-cases, any, count, ◌==◌, ◌&&◌,
}
use shadowglass_v35_runtime.Queue.Row.{
  Row, DeadLetter, Queue, State, processing, pending, dead, is_processing,
}
use shadowglass_v35_runtime.Queue.Table.{change, update_where, insert_select, letter_of}
use shadowglass_v35_runtime.Queue.Recover.{
  Readings, is_exhausted, is_stale, expired_error, bury, requeue, record_exhausted, bury_exhausted,
  requeue_stale, recover_stale_leases,
}
use shadowglass_v35_runtime.Queue.Invariant.Valid.{IsValid}
use shadowglass_v35_runtime.Queue.Invariant.Select.{In}
use shadowglass_v35_runtime.Queue.Ownership.Outcome.{is_recorded, insert_select-recorded}

-- What the two updates make of a row.
abbrev pub recovered : Readings → Row → Row
recovered t r =
    change (is_stale t.requeued) (requeue t.requeued)
      (change (is_exhausted t.buried) (bury t.buried expired_error) r)

recorded_of :
    (now later : ℕ) (r : Row) (q : Queue)
    → In r q.rows
    → is_exhausted now r ≡ true
    → is_recorded r.id
        (recover_stale_leases
          (record { recorded = now; buried = later; requeued = later })
          q).1.dead_letters
      ≡ true
unfolding recover_stale_leases
recorded_of now later r q i e =
    insert_select-recorded (is_exhausted now) now expired_error r q.rows q.dead_letters i e

pub In-map : (g : Row → Row) (r : Row) (rows : List Row) → In r rows → In (g r) (map g rows)
In-map g r [] i = i
In-map g r (x ∷ rows) (inl same) = inl (ap g same)
In-map g r (x ∷ rows) (inr i) = inr (In-map g r rows i)

All_of_In : (P : Row → Type 0) (rows : List Row) → ((r : Row) → In r rows → P r) → All P rows
All_of_In P [] f = tt
All_of_In P (x ∷ rows) f = (f x (inl refl), All_of_In P rows (λ r i. f r (inr i)))

pub recovered_rows :
    (t : Readings) (q : Queue) → (recover_stale_leases t q).1.rows ≡ map (recovered t) q.rows
unfolding recover_stale_leases
recovered_rows t q = go q.rows
  where
    go :
        (rows : List Row)
        → update_where
            (is_stale t.requeued)
            (requeue t.requeued)
            (update_where (is_exhausted t.buried) (bury t.buried expired_error) rows)
          ≡ map (recovered t) rows
    go [] = refl
    go (r ∷ rows) = ap (λ (rest : List Row). recovered t r ∷ rest) (go rows)

-- The lease has not run out at this time.
abbrev pub IsLive : ℕ → Row → Type 0
IsLive now r = r.state ≡ processing → some_le r.lease_expires_at now ≡ false

recovered-IsLive :
    (t : Readings) (r : Row) → t.buried ≤ t.requeued → IsLive t.buried (recovered t r)
unfolding is_exhausted is_stale
recovered-IsLive t r le e = ground arith

-- A lease that has run out at this time.
abbrev pub HasExpired : ℕ → Row → Type 0
HasExpired now r = (r.state ≡ processing) × ((e : ℕ) × (r.lease_expires_at ≡ some e) × (e ≤ now))

-- The outcome of one row, where the clock stands still: buried when its lease ran out with no
-- attempt left, pending again when attempts are left, and otherwise as it was.
abbrev pub Outcome : ℕ → Row → Row → Type 0
Outcome now r s =
    (HasExpired now r → r.max_attempts ≤ r.attempts → s ≡ bury now expired_error r)
    × (HasExpired now r → r.attempts < r.max_attempts → s ≡ requeue now r)
    × (¬ HasExpired now r → s ≡ r)

abbrev pub AllPairs : (Row → Row → Type 0) → List Row → List Row → Type 0
AllPairs P [] [] = Unit
AllPairs P (r ∷ rows) (s ∷ after) = P r s × AllPairs P rows after
AllPairs P _ _ = ⊥

AllPairs-map :
    (P : Row → Row → Type 0) (g : Row → Row) (rows : List Row)
    → ((r : Row) → P r (g r))
    → AllPairs P rows (map g rows)
AllPairs-map P g [] h = tt
AllPairs-map P g (r ∷ rows) h = (h r, AllPairs-map P g rows h)

abbrev pub still : ℕ → Readings
still now = record { recorded = now; buried = now; requeued = now }

exhausted_expired :
    (now : ℕ) (r : Row) → HasExpired now r → r.max_attempts ≤ r.attempts → is_exhausted now r ≡ true
unfolding is_exhausted
exhausted_expired now r h le = ground arith

pub stale_expired :
    (now : ℕ) (r : Row) → HasExpired now r → r.attempts < r.max_attempts → is_stale now r ≡ true
unfolding is_stale
stale_expired now r h le = ground arith

processing_is : (s : State) → is_processing s ≡ true → s ≡ processing
processing_is s h = ground arith

expired_of : (now : ℕ) (o : Option ℕ) → some_le o now ≡ true → (e : ℕ) × (o ≡ some e) × (e ≤ now)
expired_of now none h = cc
expired_of now (some e) h = (e, refl, ground arith)

expired_tests :
    (now : ℕ) (r : Row)
    → (is_processing r.state && some_le r.lease_expires_at now) ≡ true
    → HasExpired now r
expired_tests now r h =
    (processing_is r.state (ground arith), expired_of now r.lease_expires_at (ground arith))

unexpired : (now : ℕ) (r : Row) → ¬ HasExpired now r → recovered (still now) r ≡ r
unfolding is_exhausted is_stale
unexpired now r no_lapse =
    elim (Bool-cases (is_processing r.state && some_le r.lease_expires_at now)) [
      | inl lapsed ↦ absurd (no_lapse (expired_tests now r lapsed))
      | inr live ↦ ground arith
    ]

buried_stays :
    (now : ℕ) (r : Row)
    → change (is_stale now) (requeue now) (bury now expired_error r) ≡ bury now expired_error r
unfolding is_stale
buried_stays now r = refl

pub stale_recovered :
    (t : Readings) (r : Row) → is_stale t.requeued r ≡ true → recovered t r ≡ requeue t.requeued r
unfolding is_stale is_exhausted
stale_recovered t r h = ground arith

recovered-Outcome : (now : ℕ) (r : Row) → Outcome now r (recovered (still now) r)
recovered-Outcome now r = (
  λ h le. rw (exhausted_expired now r h le) (buried_stays now r),
  λ h lt. stale_recovered (still now) r (stale_expired now r h lt),
  unexpired now r,
)

-- While the clock stands still, a recovery buries each job whose lease ran out on its last attempt
-- and writes its dead letter, makes each other job whose lease ran out pending again, and leaves
-- every other row as it is.
pub recover_stale_leases_exact :
    (now : ℕ) (q : Queue)
    → AllPairs (Outcome now) q.rows (recover_stale_leases (still now) q).1.rows
      × All
          (λ r.
            HasExpired now r
            → r.max_attempts ≤ r.attempts
            → is_recorded r.id (recover_stale_leases (still now) q).1.dead_letters ≡ true)
          q.rows
recover_stale_leases_exact now q = (
  rw recovered_rows
      (AllPairs-map (Outcome now) (recovered (still now)) q.rows (recovered-Outcome now)),
  All_of_In
      (λ r.
        HasExpired now r
        → r.max_attempts ≤ r.attempts
        → is_recorded r.id (recover_stale_leases (still now) q).1.dead_letters ≡ true)
      q.rows (λ r i h le. recorded_of now now r q i (exhausted_expired now r h le)),
)

-- After a recovery whose clock readings are in order, every job in processing has a lease that
-- outlasts the first update.
pub recover_stale_leases-IsLive :
    (t : Readings) (q : Queue)
    → t.buried ≤ t.requeued
    → All (IsLive t.buried) (recover_stale_leases t q).1.rows
recover_stale_leases-IsLive t q le = rw recovered_rows (
    All-map (λ _. Unit {0}) (IsLive t.buried) (recovered t) q.rows (λ r _. recovered-IsLive t r le)
      (All_of_all (λ _. Unit {0}) q.rows (λ _. tt)))
