-- ===== src/Queue/Invariant/Select.antt =====
-- The statement SELECT … ORDER BY … LIMIT 1 of a claim: its row stands in the table, passes the
-- test, and no passing row comes before it; with unique ids the UPDATE by id is one by that test.
use shadowglass_v35_runtime.Common.{
  ◌≡◌, ◌≢◌, refl, sym, ◌∙◌, ap, ◌⊎◌, inl, inr, Bool, true, false, none, some, List, [], ◌∷◌, All,
  All-implies, arith, ◌&&◌, ==_iff, Bool-cases, Option-cases,
}
use shadowglass_v35_runtime.Common.Distinct.{Distinct, Fresh}
use shadowglass_v35_runtime.Queue.Row.{Row}
use shadowglass_v35_runtime.Queue.Table.{before, select_first, update_where}
use shadowglass_v35_runtime.Queue.Claim.{has_id}

abbrev pub In : Row → List Row → Type 0
In r [] = ⊥
In r (x ∷ rows) = (x ≡ r) ⊎ In r rows

pub before_asym : (r s : Row) → before r s ≡ true → before s r ≡ false
unfolding before
before_asym r s h = ground arith

pub not-before_trans : (r s x : Row) → before x s ≡ false → before s r ≡ false → before x r ≡ false
unfolding before
not-before_trans r s x h k = ground arith

pub before_irrefl : (r : Row) → before r r ≡ false
unfolding before
before_irrefl r = ground arith

pub In-ne :
    (rows : List Row) (r x : Row) → Fresh (λ y. y.id) x.id rows → In r rows → r.id ≡ x.id → ⊥
In-ne [] r x f i e = i
In-ne (y ∷ rows) r x (p, f) (inl same) e = p (ap (λ (z : Row). z.id) same ∙ e)
In-ne (y ∷ rows) r x (p, f) (inr i) e = In-ne rows r x f i e

module _ (test : Row → Bool) where
  pub select_first-In :
      (rows : List Row) (r : Row) → select_first test rows ≡ some r → In r rows × (test r ≡ true)
  unfolding select_first
  select_first-In [] r e = cc
  select_first-In (x ∷ rows) r e = elim (Bool-cases (test x)) [
    | inr passed ↦ let (i, t) = select_first-In rows r (rw passed at e) in (inr i, t)
    | inl picked ↦ elim (Option-cases (select_first test rows)) [
      | inl empty ↦ let same : x ≡ r = ground arith in (inl same, rw (← same) picked)
      | inr (s, found) ↦ elim (Bool-cases (before s x)) [
        | inl sooner ↦ let (i, t) = select_first-In rows r (ground arith) in (inr i, t)
        | inr later ↦ let same : x ≡ r = ground arith in (inl same, rw (← same) picked)
      ]
    ]
  ]

  none_pass : (rows : List Row) → select_first test rows ≡ none → All (λ s. test s ≡ false) rows
  unfolding select_first
  none_pass [] e = tt
  none_pass (x ∷ rows) e = elim (Option-cases (select_first test rows)) [
    | inl empty ↦ (ground arith, none_pass rows empty)
    | inr (s, found) ↦ absurd (ground arith)
  ]

  -- No row that passes comes before the selected one.
  pub select_first-before :
      (rows : List Row) (r : Row)
      → select_first test rows ≡ some r
      → All (λ s. test s ≡ true → before s r ≡ false) rows
  unfolding select_first
  select_first-before [] r e = tt
  select_first-before (x ∷ rows) r e = elim (Bool-cases (test x)) [
    | inr passed ↦ (ground arith, select_first-before rows r (rw passed at e))
    | inl picked ↦ elim (Option-cases (select_first test rows)) [
      | inl empty ↦
          let same : x ≡ r = ground arith in
          (
            λ _. rw same (before_irrefl r),
            All-implies (λ s. test s ≡ false) (λ s. test s ≡ true → before s r ≡ false) rows
                (λ s f t. cc) (none_pass rows empty),
          )
      | inr (s, found) ↦ elim (Bool-cases (before s x)) [
        | inl sooner ↦
            let same : s ≡ r = ground arith in
            (
              λ _. rw (← same) (before_asym s x sooner),
              select_first-before rows r (found ∙ ap some same),
            )
        | inr later ↦
            let same : x ≡ r = ground arith in
            (
              λ _. rw same (before_irrefl r),
              All-implies (λ y. test y ≡ true → before y s ≡ false)
                  (λ y. test y ≡ true → before y r ≡ false) rows
                  (λ y b t. not-before_trans r s y (b t) (rw (← same) later))
                  (select_first-before rows s found),
            )
      ]
    ]
  ]

  -- Nothing is selected only where nothing passes.
  pub select_first-none :
      (rows : List Row) → select_first test rows ≡ none → All (λ s. test s ≡ false) rows
  select_first-none = none_pass

-- With unique ids, the id of a row of the table names that row alone.
pub id_unique :
    (rows : List Row) (r : Row)
    → Distinct (λ x. x.id) rows
    → In r rows
    → All (λ s. has_id r.id s ≡ true → s ≡ r) rows
id_unique [] r d i = tt
id_unique (x ∷ rows) r (fresh, d) (inl same) = (
  λ _. same,
  All-implies (λ y. y.id ≢ x.id) (λ s. has_id r.id s ≡ true → s ≡ r) rows
      (λ y ne h. absurd (ne ((==_iff y.id r.id).0 h ∙ sym (ap (λ (z : Row). z.id) same)))) fresh,
)
id_unique (x ∷ rows) r (fresh, d) (inr i) =
    (λ h. absurd (In-ne rows r x fresh i (sym ((==_iff x.id r.id).0 h))), id_unique rows r d i)

-- An UPDATE may test more than it says, where the table makes the rest true.
pub update_where-refine :
    (test extra : Row → Bool) (f : Row → Row) (rows : List Row)
    → All (λ s. test s ≡ true → extra s ≡ true) rows
    → update_where test f rows ≡ update_where (λ s. test s && extra s) f rows
unfolding update_where
update_where-refine test extra f [] h = refl
update_where-refine test extra f (x ∷ rows) (p, h) =
    let ih = update_where-refine test extra f rows h in ground (arith, ih, Bool-cases (test x), p)
