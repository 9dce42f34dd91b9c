-- ===== src/Queue/Ownership/Owner.antt =====
-- What a claim gives, and what the owner of a lease can do with it.
use shadowglass_v35_runtime.Common.{
  ℕ, ◌+◌, ◌*◌, String, ◌≡◌, refl, inl, inr, Bool, true, false, Option, none, some, All, arith,
  Option-cases,
}
use shadowglass_v35_runtime.Queue.Row.{Row, Queue, QueueJob}
use shadowglass_v35_runtime.Queue.Table.{second, before, update_where, select_first}
use shadowglass_v35_runtime.Queue.Claim.{is_candidate, lease, job_from_row, has_id, claim_statement}
use shadowglass_v35_runtime.Queue.Invariant.Select.{
  In, select_first-In, select_first-before, select_first-none,
}
use shadowglass_v35_runtime.Queue.Ownership.ById.{NamesId, In-update}

has_id-NamesId : (i : ℕ) → NamesId (has_id i) i
has_id-NamesId i s h = ground arith

-- The claimed row and its place in the claiming order.
pub record IsClaimed (locked : ℕ → Bool) (now : ℕ) (worker : String) (seconds : ℕ)
    (kind : Option String) (token : ℕ) (q : Queue) (job : QueueJob) (q' : Queue) : Type 0 where
  pub row : Row
  pub listed : In row q.rows
  pub eligible : is_candidate locked now worker kind row ≡ true
  pub first : All (λ s. is_candidate locked now worker kind s ≡ true → before s row ≡ false) q.rows
  pub handed : job ≡ job_from_row token (now + seconds * second) row
  pub leased : In (lease now worker token seconds row) q'.rows
  pub rest : q'.rows ≡ update_where (has_id row.id) (lease now worker token seconds) q.rows

module _ (locked : ℕ → Bool) (now : ℕ) (worker : String) (seconds : ℕ) (kind : Option String)
    (token : ℕ) (q : Queue) where
  -- A claim hands out a row that is eligible and that no other transaction holds, and no other row
  -- that is both comes before it by priority, availability and id; an eligible row that another
  -- transaction holds is passed over. It leases the row and changes no row of another id.
  pub claim_statement-IsClaimed :
      (job : QueueJob) (q' : Queue)
      → claim_statement locked now worker seconds kind token q ≡ (some job, q')
      → IsClaimed locked now worker seconds kind token q job q'
  unfolding claim_statement
  claim_statement-IsClaimed job q' e =
      let test = is_candidate locked now worker kind in
      elim (Option-cases (select_first test q.rows)) [
        | inl empty ↦ absurd (ground (arith, empty))
        | inr (r, found) ↦
            let (i, t) = select_first-In test q.rows r found in
            let rows : q'.rows
                ≡ update_where (has_id r.id) (lease now worker token seconds) q.rows =
              ground (arith, found) in
            record {
              row = r;
              listed = i;
              eligible = t;
              first = select_first-before test q.rows r found;
              handed = ground (arith, found);
              leased = rw rows (
                  In-update (has_id r.id) r.id r (has_id-NamesId r.id) refl (ground arith)
                    (lease now worker token seconds) q.rows i);
              rest = rows;
            }
      ]

  -- A claim comes back empty only where every eligible row is held by another transaction, and then
  -- changes nothing.
  pub claim_statement-none :
      (q' : Queue)
      → claim_statement locked now worker seconds kind token q ≡ (none, q')
      → All (λ s. is_candidate locked now worker kind s ≡ false) q.rows × (q' ≡ q)
  unfolding claim_statement
  claim_statement-none q' e =
      let test = is_candidate locked now worker kind in
      elim (Option-cases (select_first test q.rows)) [
        | inl empty ↦ (select_first-none test q.rows empty, ground (arith, empty))
        | inr (r, found) ↦ absurd (ground (arith, found))
      ]
