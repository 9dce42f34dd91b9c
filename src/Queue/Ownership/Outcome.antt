-- ===== src/Queue/Ownership/Outcome.antt =====
-- How a leased job ends: acknowledged, postponed or buried.
use shadowglass_v35_runtime.Common.{
  ℕ, ◌+◌, ◌*◌, ◌^◌, ◌-◌, ◌≤◌, ◌<◌, String, ◌≡◌, refl, sym, ap, ◌⊎◌, inl, inr, Bool, true, Option,
  some, List, [], ◌∷◌, ◌++◌, arith, ◌==◌, find, count, any, Bool-cases, if◌then◌else◌,
}
use Prim.Native.Nat.{min}
use shadowglass_v35_runtime.Common.Result.{ok}
use shadowglass_v35_runtime.Queue.Row.{Row, DeadLetter, Queue, QueueJob, pending, dead}
use shadowglass_v35_runtime.Queue.Table.{
  second, update_where, insert_dead, insert_select, letter_of,
}
use shadowglass_v35_runtime.Queue.Lease.{held_by, owned_by, update_owned, acknowledge, complete_job}
use shadowglass_v35_runtime.Queue.Recover.{bury}
use shadowglass_v35_runtime.Queue.Claim.{lease, claim_statement}
use shadowglass_v35_runtime.Queue.Fail.{has_token, bury_held, fail_job, postpone, safe_error}
use shadowglass_v35_runtime.Queue.Invariant.Valid.{IsValid}
use shadowglass_v35_runtime.Queue.Invariant.Select.{In}
use shadowglass_v35_runtime.Queue.Invariant.Operations.{claim_statement-Keeps}
use shadowglass_v35_runtime.Queue.Reach.{Reach, Reach-Keeps}
use shadowglass_v35_runtime.Queue.Ownership.ById.{count-one, find-one, In-update}
use shadowglass_v35_runtime.Queue.Ownership.Stale.{held_by-NamesId, owned_by-NamesId}
use shadowglass_v35_runtime.Queue.Ownership.Owner.{claim_statement-IsClaimed}

-- The owner of a live lease completes the job.
complete_owned :
    (now token : ℕ) (r : Row) (q : Queue)
    → IsValid q
    → In r q.rows
    → owned_by now r.id token r ≡ true
    → ((complete_job now r.id token q).0 ≡ true)
      × In (acknowledge now r) (complete_job now r.id token q).1.rows
unfolding complete_job update_owned
complete_owned now token r q v i o =
    let test = owned_by now r.id token in
    let names = owned_by-NamesId now r.id token in
    let one = count-one test r.id r names refl o q.rows v.ids i in
    (ground (arith, one), In-update test r.id r names refl o (acknowledge now) q.rows i)

owned_leased :
    (now later : ℕ) (worker : String) (token seconds : ℕ) (r : Row)
    → later < now + seconds * second
    → owned_by later r.id token (lease now worker token seconds r) ≡ true
unfolding owned_by
owned_leased now later worker token seconds r h = ground arith

-- A job claimed from a valid queue is completed by its token at any moment before its lease runs
-- out, after any transactions of others that leave the job's row as the claim wrote it (a
-- cancellation does not): the acknowledgement answers true, and the claimed row is completed at that
-- moment.
pub complete-claim :
    (locked : ℕ → Bool) (now : ℕ) (worker : String) (seconds : ℕ) (kind : Option String)
    (token later : ℕ) (q q' p : Queue) (job : QueueJob)
    → IsValid q
    → claim_statement locked now worker seconds kind token q ≡ (some job, q')
    → Reach q' p
    → ((r : Row) → r.id ≡ job.id → In r q'.rows → In r p.rows)
    → later < now + seconds * second
    → ((complete_job later job.id token p).0 ≡ true)
      × ((r : Row) × In r q.rows
          × (r.id ≡ job.id)
          × In
              (acknowledge later (lease now worker token seconds r))
              (complete_job later job.id token p).1.rows)
complete-claim locked now worker seconds kind token later q q' p job v e others stays h =
    let c = claim_statement-IsClaimed locked now worker seconds kind token q job q' e in
    let kept = claim_statement-Keeps locked now worker seconds kind token q v in
    let w : IsValid q' = rw (ap (λ (x : Option QueueJob × Queue). x.1) e) at kept.0 in
    let now_valid = (Reach-Keeps q' p w others).0 in
    let same : c.row.id ≡ job.id = sym (ap (λ (j : QueueJob). j.id) c.handed) in
    let owned = owned_leased now later worker token seconds c.row h in
    let there = stays (lease now worker token seconds c.row) same c.leased in
    let (done, after) =
      complete_owned later token (lease now worker token seconds c.row) p now_valid there owned in
    (rw (← same) done, (c.row, c.listed, same, rw (← same) after))

token_held : (n t : ℕ) (r : Row) → held_by n t r ≡ true → has_token n t r ≡ true
unfolding held_by has_token
token_held n t r h = ground arith

-- The job has a dead letter.
abbrev pub is_recorded : ℕ → List DeadLetter → Bool
is_recorded n letters = any (λ d. d.queue_id == n) letters

recorded-append :
    (n : ℕ) (letters more : List DeadLetter)
    → (is_recorded n letters ≡ true) ⊎ (is_recorded n more ≡ true)
    → is_recorded n (letters ++ more) ≡ true
recorded-append n [] more (inl h) = cc
recorded-append n [] more (inr h) = h
recorded-append n (d ∷ letters) more h =
    ground (arith, recorded-append n letters more, Bool-cases (is_recorded n letters), h)

insert_dead-recorded :
    (d : DeadLetter) (letters : List DeadLetter)
    → is_recorded d.queue_id (insert_dead d letters) ≡ true
unfolding insert_dead
insert_dead-recorded d letters = ground (
  arith,
  recorded-append d.queue_id letters (d ∷ []),
  Bool-cases (is_recorded d.queue_id letters),
)

insert_dead-keeps :
    (n : ℕ) (d : DeadLetter) (letters : List DeadLetter)
    → is_recorded n letters ≡ true
    → is_recorded n (insert_dead d letters) ≡ true
unfolding insert_dead
insert_dead-keeps n d letters h = ground (arith, recorded-append n letters (d ∷ []) (inl h))

module _ (test : Row → Bool) (now : ℕ) (error : Row → Option String) where
  insert_select-keeps :
      (n : ℕ) (rows : List Row) (letters : List DeadLetter)
      → is_recorded n letters ≡ true
      → is_recorded n (insert_select test (letter_of now error) rows letters) ≡ true
  unfolding insert_select
  insert_select-keeps n [] letters h = h
  insert_select-keeps n (x ∷ rows) letters h = elim (Bool-cases (test x)) [
    | inl picked ↦ rw picked (
        insert_select-keeps n rows (insert_dead (letter_of now error x) letters)
          (insert_dead-keeps n (letter_of now error x) letters h))
    | inr passed ↦ rw passed (insert_select-keeps n rows letters h)
  ]

  -- A selected row gets a dead letter, unless it has one.
  pub insert_select-recorded :
      (r : Row) (rows : List Row) (letters : List DeadLetter)
      → In r rows
      → test r ≡ true
      → is_recorded r.id (insert_select test (letter_of now error) rows letters) ≡ true
  unfolding insert_select
  insert_select-recorded r [] letters i t = elim i [ ]
  insert_select-recorded r (x ∷ rows) letters (inl same) t =
      let picked : test x ≡ true = rw same t in
      rw picked (
        insert_select-keeps r.id rows (insert_dead (letter_of now error x) letters)
          (rw (← same) (insert_dead-recorded (letter_of now error x) letters)))
  insert_select-recorded r (x ∷ rows) letters (inr i) t =
      insert_select-recorded r rows
        (if test x then insert_dead (letter_of now error x) letters else letters) i t

module _ (now token : ℕ) (error : String) (base most : ℕ) (r : Row) (q : Queue) (v : IsValid q)
    (i : In r q.rows) (h : held_by r.id token r ≡ true) (lo : 1 ≤ base) (hi : base ≤ most) where
  abbrev test : Row → Bool
  test = held_by r.id token

  one : count test q.rows ≡ 1
  one = count-one test r.id r (held_by-NamesId r.id token) refl h q.rows v.ids i

  at_row : find test q.rows ≡ some r
  at_row = find-one test r.id r (held_by-NamesId r.id token) refl h q.rows v.ids i

  changed : (f : Row → Row) → In (f r) (update_where test f q.rows)
  changed f = In-update test r.id r (held_by-NamesId r.id token) refl h f q.rows i

  -- A worker of a valid queue fails the job that it holds, whether or not its lease has run out.
  -- While attempts are left the job is pending again, available after the first backoff doubled for
  -- each attempt before, at most the longest backoff, and no dead letter is added. Otherwise the job
  -- is dead and has a dead letter. The message is normalised in either case.
  pub fail_job_held :
      (r.attempts < r.max_attempts
        → (q' : Queue) × (fail_job now r.id token error base most q ≡ ok (pending, q'))
          × In
              (postpone now
                (min most (base * 2 ^ (r.attempts - 1)))
                (safe_error error "relay dispatch failed")
                r)
              q'.rows
          × (q'.dead_letters ≡ q.dead_letters))
      × (r.max_attempts ≤ r.attempts
          → (q' : Queue) × (fail_job now r.id token error base most q ≡ ok (dead, q'))
            × In (bury now (λ _. some (safe_error error "relay dispatch failed")) r) q'.rows
            × (is_recorded r.id q'.dead_letters ≡ true))
  fail_job_held =
      let message = safe_error error "relay dispatch failed" in
      let wait = min most (base * 2 ^ (r.attempts - 1)) in
      (
        λ left. (
          record q { rows = update_where test (postpone now wait message) q.rows },
          unfold fail_job in ground (arith, at_row, one),
          changed (postpone now wait message),
          refl,
        ),
        λ spent. (
          bury_held now (has_token r.id token) test message q,
          unfold fail_job in ground (arith, at_row, one),
          unfold bury_held in changed (bury now (λ _. some message)),
          unfold bury_held in
              insert_select-recorded (has_token r.id token) now (λ _. some message) r q.rows
                q.dead_letters i (token_held r.id token r h),
        ),
      )
