-- ===== src/Queue/Invariant/Valid.antt =====
-- The invariant of the two tables, and the statements that keep it.
use shadowglass_v35_runtime.Common.{
  ℕ, suc, ◌<◌, ◌≡◌, ◌≢◌, ◌⊎◌, inl, inr, Bool, true, List, [], ◌∷◌, ◌++◌, map, All, All-map,
  All-append, All-implies, arith, Bool-cases,
}
use shadowglass_v35_runtime.Common.Distinct.{Distinct, Distinct-map, Distinct-append, Fresh}
use shadowglass_v35_runtime.Queue.Row.{Row, DeadLetter, Queue, dead}
use shadowglass_v35_runtime.Queue.Table.{change}
use shadowglass_v35_runtime.Queue.Invariant.Evolve.{IsSound, Evolves, Evolves-refl}

-- The row that a dead letter was made of, dead by now.
abbrev pub IsBuried : DeadLetter → Row → Type 0
IsBuried d r = (r.state ≡ dead) × (r.id ≡ d.queue_id) × (r.idempotency_key ≡ d.idempotency_key)

abbrev pub HasBuried : DeadLetter → List Row → Type 0
HasBuried d [] = ⊥
HasBuried d (r ∷ rows) = IsBuried d r ⊎ HasBuried d rows

pub record IsValid (q : Queue) : Type 0 where
  pub sound : All IsSound q.rows
  pub ids : Distinct (λ r. r.id) q.rows
  pub keys : Distinct (λ r. r.idempotency_key) q.rows
  pub below : All (λ r. r.id < q.next_id) q.rows
  pub letters : All (λ d. HasBuried d q.rows) q.dead_letters
  pub once : Distinct (λ d. d.queue_id) q.dead_letters

-- What a statement makes of a row is sound, and is an evolution of it.
pub record IsStep (g : Row → Row) : Type 0 where
  pub evolves : (r : Row) → Evolves r (g r)
  pub keeps : (r : Row) → IsSound r → IsSound (g r)

-- An UPDATE is a step if its assignment is one on the rows that it selects.
pub change-IsStep :
    (test : Row → Bool) (f : Row → Row)
    → ((r : Row) → test r ≡ true → Evolves r (f r))
    → ((r : Row) → test r ≡ true → IsSound r → IsSound (f r))
    → IsStep (change test f)
change-IsStep test f evolve keep = record {
  evolves = λ r. elim (Bool-cases (test r)) [
    | inl selected ↦ rw selected (evolve r selected)
    | inr passed ↦ rw passed (Evolves-refl r)
  ];
  keeps = λ r h. elim (Bool-cases (test r)) [
    | inl selected ↦ rw selected (keep r selected h)
    | inr passed ↦ rw passed h
  ];
}

-- A dead row stays as it is.
HasBuried-map :
    (g : Row → Row)
    → IsStep g
    → (d : DeadLetter) (rows : List Row) → HasBuried d rows
    → HasBuried d (map g rows)
HasBuried-map g s d [] h = h
HasBuried-map g s d (r ∷ rows) (inl b) =
    let same : g r ≡ r = (s.evolves r).final_stays (ground (arith, b.0)) in inl (rw same b)
HasBuried-map g s d (r ∷ rows) (inr h) = inr (HasBuried-map g s d rows h)

below-map :
    (n : ℕ) (g : Row → Row)
    → IsStep g
    → (rows : List Row) → All (λ r. r.id < n) rows
    → All (λ r. r.id < n) (map g rows)
below-map n g s rows =
    All-map (λ r. r.id < n) (λ r. r.id < n) g rows (λ r h. rw (s.evolves r).same_id h)

-- An UPDATE keeps the invariant, the letters apart.
pub map-IsValid :
    (g : Row → Row)
    → IsStep g
    → (q : Queue) → IsValid q
    → IsValid (record q { rows = map g q.rows })
map-IsValid g s q v = record {
  sound = All-map IsSound IsSound g q.rows s.keeps v.sound;
  ids = Distinct-map (λ r. r.id) g q.rows (λ r. (s.evolves r).same_id) v.ids;
  keys = Distinct-map (λ r. r.idempotency_key) g q.rows (λ r. (s.evolves r).same_key) v.keys;
  below = below-map q.next_id g s q.rows v.below;
  letters =
      All-implies (λ d. HasBuried d q.rows) (λ d. HasBuried d (map g q.rows)) q.dead_letters
        (λ d. HasBuried-map g s d q.rows) v.letters;
  once = v.once;
}

HasBuried-append :
    (d : DeadLetter) (rows more : List Row) → HasBuried d rows → HasBuried d (rows ++ more)
HasBuried-append d [] more h = elim h [ ]
HasBuried-append d (r ∷ rows) more (inl b) = inl b
HasBuried-append d (r ∷ rows) more (inr h) = inr (HasBuried-append d rows more h)

-- An INSERT of a sound row under the next id and a fresh key keeps the invariant.
pub append-IsValid :
    (r : Row) (q : Queue)
    → IsSound r
    → r.id ≡ q.next_id
    → Fresh (λ s. s.idempotency_key) r.idempotency_key q.rows
    → IsValid q
    → IsValid (record q { rows = q.rows ++ r ∷ []; next_id = suc q.next_id })
append-IsValid r q sound at_next fresh v = record {
  sound = All-append IsSound q.rows (r ∷ []) v.sound (sound, tt);
  ids =
      Distinct-append (λ s. s.id) q.rows r v.ids
        (All-implies (λ s. s.id < q.next_id) (λ s. s.id ≢ r.id) q.rows (λ s lt e. omega arith)
          v.below);
  keys = Distinct-append (λ s. s.idempotency_key) q.rows r v.keys fresh;
  below =
      All-append (λ s. s.id < suc q.next_id) q.rows (r ∷ [])
        (All-implies (λ s. s.id < q.next_id) (λ s. s.id < suc q.next_id) q.rows
          (λ s lt. omega arith) v.below)
        (omega arith, tt);
  letters =
      All-implies (λ d. HasBuried d q.rows) (λ d. HasBuried d (q.rows ++ r ∷ [])) q.dead_letters
        (λ d. HasBuried-append d q.rows (r ∷ [])) v.letters;
  once = v.once;
}
