-- ===== src/Queue/Ownership/ById.antt =====
-- Statements whose WHERE clause names one id, on a table with unique ids.
use shadowglass_v35_runtime.Common.{
  ℕ, ◌≡◌, ◌≢◌, refl, sym, ◌∙◌, ap, inl, inr, Bool, true, false, none, some, List, [], ◌∷◌, All,
  All-implies, arith, Bool-cases, find, count, any,
}
use shadowglass_v35_runtime.Common.Distinct.{Distinct, Fresh}
use shadowglass_v35_runtime.Queue.Row.{Row}
use shadowglass_v35_runtime.Queue.Table.{update_where}
use shadowglass_v35_runtime.Queue.Invariant.Select.{In, In-ne}

-- The test passes only rows with this id.
abbrev pub NamesId : (Row → Bool) → ℕ → Type 0
NamesId test i = (s : Row) → test s ≡ true → s.id ≡ i

module _ (test : Row → Bool) where
  pub update_where-none :
      (f : Row → Row) (rows : List Row)
      → All (λ s. test s ≡ false) rows
      → update_where test f rows ≡ rows
  unfolding update_where
  update_where-none f [] h = refl
  update_where-none f (x ∷ rows) (p, h) =
      let ih = update_where-none f rows h in ground (arith, p, ih)

  pub count-none : (rows : List Row) → All (λ s. test s ≡ false) rows → count test rows ≡ 0
  count-none [] h = refl
  count-none (x ∷ rows) (p, h) = let ih = count-none rows h in ground (arith, p, ih)

  pub any-none : (rows : List Row) → All (λ s. test s ≡ false) rows → any test rows ≡ false
  any-none [] h = refl
  any-none (x ∷ rows) (p, h) = let ih = any-none rows h in ground (arith, p, ih)

  pub find-none : (rows : List Row) → All (λ s. test s ≡ false) rows → find test rows ≡ none
  find-none [] h = refl
  find-none (x ∷ rows) (p, h) = let ih = find-none rows h in ground (arith, p, ih)

  pub find-In : (rows : List Row) {r : Row} → find test rows ≡ some r → In r rows × (test r ≡ true)
  find-In [] e = cc
  find-In (x ∷ rows) {r} e = elim (Bool-cases (test x)) [
    | inl hit ↦ let same : x ≡ r = ground (arith, hit) in (inl same, rw (← same) hit)
    | inr miss ↦ let (there, passed) = find-In rows {r = r} (rw miss at e) in (inr there, passed)
  ]

  Fresh-fails :
      (i : ℕ) (rows : List Row)
      → NamesId test i
      → Fresh (λ s. s.id) i rows
      → All (λ s. test s ≡ false) rows
  Fresh-fails i rows names =
      All-implies (λ s. s.id ≢ i) (λ s. test s ≡ false) rows
        (λ s ne. elim (Bool-cases (test s)) [ inl t ↦ absurd (ne (names s t)) | inr f ↦ f ])

  -- Where the row of that id fails, every row does.
  pub all_fail :
      (i : ℕ) (rows : List Row) (r : Row)
      → NamesId test i
      → Distinct (λ s. s.id) rows
      → In r rows
      → r.id ≡ i
      → test r ≡ false
      → All (λ s. test s ≡ false) rows
  all_fail i [] r names d m e f = tt
  all_fail i (x ∷ rows) r names (fresh, d) (inl same) e f =
      (rw same f, Fresh-fails i rows names (rw (ap (λ (z : Row). z.id) same ∙ e) at fresh))
  all_fail i (x ∷ rows) r names (fresh, d) (inr m) e f = (
    elim (Bool-cases (test x)) [
      | inl t ↦ absurd (In-ne rows r x fresh m (e ∙ sym (names x t)))
      | inr g ↦ g
    ],
    all_fail i rows r names d m e f,
  )

  -- Where the row of that id passes, it alone does.
  module _ (i : ℕ) (r : Row) (names : NamesId test i) (e : r.id ≡ i) (t : test r ≡ true) where
    others :
        (x : Row) (rows : List Row)
        → Fresh (λ s. s.id) x.id rows
        → x ≡ r
        → All (λ s. test s ≡ false) rows
    others x rows fresh same =
        Fresh-fails i rows names (rw (ap (λ (z : Row). z.id) same ∙ e) at fresh)

    not_here :
        (x : Row) (rows : List Row) → Fresh (λ s. s.id) x.id rows → In r rows → test x ≡ false
    not_here x rows fresh m = elim (Bool-cases (test x)) [
      | inl here ↦ absurd (In-ne rows r x fresh m (e ∙ sym (names x here)))
      | inr passed ↦ passed
    ]

    pub count-one : (rows : List Row) → Distinct (λ s. s.id) rows → In r rows → count test rows ≡ 1
    count-one [] d m = elim m [ ]
    count-one (x ∷ rows) (fresh, d) (inl same) =
        let rest = count-none rows (others x rows fresh same) in
        let here : test x ≡ true = rw same t in ground (arith, rest, here)
    count-one (x ∷ rows) (fresh, d) (inr m) =
        let passed = not_here x rows fresh m in
        let rest = count-one rows d m in ground (arith, rest, passed)

    pub find-one :
        (rows : List Row) → Distinct (λ s. s.id) rows → In r rows → find test rows ≡ some r
    find-one [] d m = elim m [ ]
    find-one (x ∷ rows) (fresh, d) (inl same) =
        let here : test x ≡ true = rw same t in rw (here, same)
    find-one (x ∷ rows) (fresh, d) (inr m) =
        let passed = not_here x rows fresh m in rw passed (find-one rows d m)

    -- The UPDATE of that id changes the row at its place.
    pub In-update :
        (f : Row → Row) (rows : List Row) → In r rows → In (f r) (update_where test f rows)
    unfolding update_where
    In-update f [] m = m
    In-update f (x ∷ rows) (inl same) =
        let here : test x ≡ true = rw same t in inl (rw here (ap f same))
    In-update f (x ∷ rows) (inr m) = inr (In-update f rows m)

    pub any-one : (rows : List Row) → In r rows → any test rows ≡ true
    any-one [] m = elim m [ ]
    any-one (x ∷ rows) (inl same) = let here : test x ≡ true = rw same t in rw here
    any-one (x ∷ rows) (inr m) = let rest = any-one rows m in ground (arith, rest)
