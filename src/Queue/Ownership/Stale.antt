-- ===== src/Queue/Ownership/Stale.antt =====
-- A worker whose lease ran out, or went to another worker, can no longer touch the job.
use shadowglass_v35_runtime.Common.{
  ℕ, ◌≤◌, String, ◌≡◌, ◌≢◌, refl, ◌⊎◌, Bool, false, none, some, List, [], ◌∷◌, All, arith, find,
}
use shadowglass_v35_runtime.Common.Text.{length, is_empty}
use shadowglass_v35_runtime.Common.Result.{ok, err, lookup_error, lease_fence_rejected}
use shadowglass_v35_runtime.Queue.Row.{Row, DeadLetter, Queue, processing}
use shadowglass_v35_runtime.Queue.Table.{insert_select, letter_of}
use shadowglass_v35_runtime.Queue.Lease.{
  held_by, owned_by, update_owned, prolong, acknowledge, extend_lease, renew_lease, complete_job,
  lease_write_fence,
}
use shadowglass_v35_runtime.Queue.Recover.{bury}
use shadowglass_v35_runtime.Queue.Fail.{bury_held, fail_job, dead_letter_job, safe_error}
use shadowglass_v35_runtime.Queue.Invariant.Valid.{IsValid}
use shadowglass_v35_runtime.Queue.Invariant.Select.{In}
use shadowglass_v35_runtime.Queue.Ownership.ById.{
  NamesId, update_where-none, count-none, any-none, find-none, all_fail,
}

-- The row is not in processing under this token.
abbrev pub IsGone : ℕ → Row → Type 0
IsGone token r = (r.state ≢ processing) ⊎ (r.lease_token ≢ some token)

-- … or its lease has run out.
abbrev pub HasLapsed : ℕ → ℕ → Row → Type 0
HasLapsed now token r =
    IsGone token r ⊎ ((expiry : ℕ) × (r.lease_expires_at ≡ some expiry) × (expiry ≤ now))

pub held_by-NamesId : (i t : ℕ) → NamesId (held_by i t) i
unfolding held_by
held_by-NamesId i t s h = ground arith

pub owned_by-NamesId : (now i t : ℕ) → NamesId (owned_by now i t) i
unfolding owned_by
owned_by-NamesId now i t s h = ground arith

held_by-IsGone : (i t : ℕ) (r : Row) → IsGone t r → held_by i t r ≡ false
unfolding held_by
held_by-IsGone i t r g = ground arith

owned_by-HasLapsed : (now i t : ℕ) (r : Row) → HasLapsed now t r → owned_by now i t r ≡ false
unfolding owned_by
owned_by-HasLapsed now i t r g = ground arith

update_owned-none :
    (now i t : ℕ) (f : Row → Row) (q : Queue)
    → All (λ s. owned_by now i t s ≡ false) q.rows
    → update_owned now i t f q ≡ (false, q)
unfolding update_owned
update_owned-none now i t f q h =
    let n = count-none (owned_by now i t) q.rows h in
    let u = update_where-none (owned_by now i t) f q.rows h in ground (arith, n, u)

insert_select-none :
    (test : Row → Bool) (letter : Row → DeadLetter) (rows : List Row) (letters : List DeadLetter)
    → All (λ s. test s ≡ false) rows
    → insert_select test letter rows letters ≡ letters
unfolding insert_select
insert_select-none test letter [] letters h = refl
insert_select-none test letter (x ∷ rows) letters (p, h) =
    rw p (insert_select-none test letter rows letters h)

bury_held-none :
    (now i t : ℕ) (error : String) (q : Queue)
    → All (λ s. held_by i t s ≡ false) q.rows
    → bury_held now (held_by i t) (held_by i t) error q ≡ q
unfolding bury_held
bury_held-none now i t error q h =
    let test = held_by i t in
    let u = update_where-none test (bury now (λ _. some error)) q.rows h in
    let l = insert_select-none test (letter_of now (λ _. some error)) q.rows q.dead_letters h in
    rw (u, l)

fail_none :
    (now i t : ℕ) (error : String) (base most : ℕ) (q : Queue)
    → find (held_by i t) q.rows ≡ none
    → 1 ≤ base
    → base ≤ most
    → fail_job now i t error base most q
      ≡ err lookup_error "job lease is missing, expired, or no longer owned"
unfolding fail_job
fail_none now i t error base most q f lo hi = ground (arith, f)

module _ (now token : ℕ) (r : Row) (q : Queue) (v : IsValid q) (i : In r q.rows) where
  lapsed_rows : HasLapsed now token r → All (λ s. owned_by now r.id token s ≡ false) q.rows
  lapsed_rows g =
      all_fail (owned_by now r.id token) r.id q.rows r (owned_by-NamesId now r.id token) v.ids i
        refl (owned_by-HasLapsed now r.id token r g)

  gone_rows : IsGone token r → All (λ s. held_by r.id token s ≡ false) q.rows
  gone_rows g =
      all_fail (held_by r.id token) r.id q.rows r (held_by-NamesId r.id token) v.ids i refl
        (held_by-IsGone r.id token r g)

  -- With a lease that ran out or is another's, a worker of a valid queue cannot extend or renew it,
  -- cannot complete the job, and gets no write fence for any key; the queue stays as it is.
  pub lapsed_powerless :
      (seconds : ℕ) (key : String)
      → HasLapsed now token r
      → 30 ≤ seconds
      → seconds ≤ 3600
      → 1 ≤ r.id
      → is_empty key ≡ false
      → length key ≤ 1024
      → (extend_lease now r.id token seconds q ≡ ok (false, q))
        × (renew_lease now r.id token seconds q ≡ ok (false, q))
        × (complete_job now r.id token q ≡ (false, q))
        × (lease_write_fence now r.id token key q
            ≡ err lease_fence_rejected "object write lease is no longer live")
  unfolding extend_lease renew_lease complete_job lease_write_fence
  lapsed_powerless seconds key g lo hi pos full short =
      let rows = lapsed_rows g in
      let a = update_owned-none now r.id token (prolong now seconds) q rows in
      let c = update_owned-none now r.id token (acknowledge now) q rows in
      let n = any-none (owned_by now r.id token) q.rows rows in
      (ground (arith, a), ground (arith, a), c, ground (arith, n))

  -- Once the row is not in processing under its token, a worker of a valid queue can neither fail
  -- nor dead-letter the job: the first raises and the second answers false, and no table changes.
  pub gone_powerless :
      (error : String) (base most : ℕ)
      → IsGone token r
      → 1 ≤ base
      → base ≤ most
      → (fail_job now r.id token error base most q
          ≡ err lookup_error "job lease is missing, expired, or no longer owned")
        × (dead_letter_job now r.id token error q ≡ (false, q))
  unfolding dead_letter_job
  gone_powerless error base most g lo hi =
      let rows = gone_rows g in
      let f = find-none (held_by r.id token) q.rows rows in
      let n = count-none (held_by r.id token) q.rows rows in
      let b = bury_held-none now r.id token (safe_error error "invalid job") q rows in
      (fail_none now r.id token error base most q f lo hi, ground (arith, n, b))
