-- ===== src/App/Limiter/Deque.antt =====
-- app.py: the deque of the calls that one key had accepted.
use shadowglass_v35_runtime.Common.{
  ℕ, ◌+◌, ◌*◌, ◌≤◌, ◌<◌, ◌≡◌, refl, inl, inr, Bool, List, [], ◌∷◌, ◌++◌, length, count, leb, ltb,
  All, arith, Bool-cases,
}
use shadowglass_v35_runtime.Queue.Table.{second}
use shadowglass_v35_runtime.App.Limiter.{drop_old}

-- The call was made less than `seconds` before `now`.
unfoldable pub is_recent : ℕ → ℕ → ℕ → Bool
is_recent now seconds e = ltb now (e + seconds * second)

-- The times do not decrease, from `t` on.
abbrev pub Ascending : ℕ → List ℕ → Type 0
Ascending t [] = Unit
Ascending t (n ∷ ns) = (t ≤ n) × Ascending n ns

pub count-append : (p : ℕ → Bool) (xs ys : List ℕ) → count p (xs ++ ys) ≡ count p xs + count p ys
count-append p [] ys = omega arith
count-append p (x ∷ xs) ys = let ih = count-append p xs ys in omega (arith, ih)

module _ (seconds : ℕ) where
  -- Dropped calls are never recent again.
  pub count-drop_old :
      (now later : ℕ) (d : List ℕ)
      → now ≤ later
      → count (is_recent later seconds) (drop_old now seconds d) ≡ count (is_recent later seconds) d
  unfolding drop_old is_recent
  count-drop_old now later [] le = refl
  count-drop_old now later (e ∷ d) le =
      let ih = count-drop_old now later d le in
      ground (arith, ih, Bool-cases (leb (e + seconds * second) now))

  pub length-drop_old : (now : ℕ) (d : List ℕ) → length (drop_old now seconds d) ≤ length d
  unfolding drop_old
  length-drop_old now [] = omega arith
  length-drop_old now (e ∷ d) =
      let ih = length-drop_old now d in
      ground (arith, ih, Bool-cases (leb (e + seconds * second) now))

  all_recent :
      (now : ℕ) (d : List ℕ) (t : ℕ)
      → Ascending t d
      → now < t + seconds * second
      → count (is_recent now seconds) d ≡ length d
  unfolding is_recent
  all_recent now [] t a lt = refl
  all_recent now (e ∷ d) t (le, a) lt =
      let here : now < e + seconds * second = omega (arith, le, lt) in
      let ih = all_recent now d e a here in ground (arith, ih, here)

  -- What is left is all recent.
  pub drop_old-recent :
      (now : ℕ) (d : List ℕ) (t : ℕ)
      → Ascending t d
      → count (is_recent now seconds) (drop_old now seconds d) ≡ length (drop_old now seconds d)
  unfolding drop_old is_recent
  drop_old-recent now [] t a = refl
  drop_old-recent now (e ∷ d) t (le, a) =
      let ih = drop_old-recent now d e a in
      elim (Bool-cases (leb (e + seconds * second) now)) [
        | inl old ↦ rw old ih
        | inr young ↦
            let here : now < e + seconds * second = ground (arith, young) in
            let rest = all_recent now d e a here in rw young (ground (arith, rest, here))
      ]

  pub Ascending-drop_old :
      (now : ℕ) (d : List ℕ) (t : ℕ) → Ascending t d → Ascending t (drop_old now seconds d)
  unfolding drop_old
  Ascending-drop_old now [] t a = tt
  Ascending-drop_old now (e ∷ d) t (le, a) = elim (Bool-cases (leb (e + seconds * second) now)) [
    | inl old ↦ rw old (weaken t e (drop_old now seconds d) le (Ascending-drop_old now d e a))
    | inr young ↦ rw young (le, a)
  ]
    where
      weaken : (t e : ℕ) (d : List ℕ) → t ≤ e → Ascending e d → Ascending t d
      weaken t e [] le a = tt
      weaken t e (x ∷ d) le (h, a) = (omega (arith, le, h), a)

pub Ascending-append :
    (d : List ℕ) (t now : ℕ)
    → t ≤ now
    → Ascending t d
    → All (λ e. e ≤ now) d
    → Ascending t (d ++ now ∷ [])
Ascending-append [] t now le a h = (le, tt)
Ascending-append (e ∷ d) t now le (l, a) (h, hs) = (l, Ascending-append d e now h a hs)

pub All-drop_old :
    (P : ℕ → Type 0) (now seconds : ℕ) (d : List ℕ) → All P d → All P (drop_old now seconds d)
unfolding drop_old
All-drop_old P now seconds [] h = tt
All-drop_old P now seconds (e ∷ d) (p, h) = elim (Bool-cases (leb (e + seconds * second) now)) [
  | inl old ↦ rw old (All-drop_old P now seconds d h)
  | inr young ↦ rw young (p, h)
]
