-- ===== src/Queue/Invariant/Letters.antt =====
-- The dead letters that an INSERT … SELECT adds before the UPDATE that buries their rows.
use shadowglass_v35_runtime.Common.{
  ℕ, String, ◌≡◌, Bool, true, false, Option, List, [], ◌∷◌, map, All, All-append, All-implies,
  arith, any, ◌==◌, Bool-cases, inl, inr,
}
use shadowglass_v35_runtime.Common.Distinct.{Distinct, Distinct-append, Fresh}
use shadowglass_v35_runtime.Queue.Row.{Row, DeadLetter, Queue, dead}
use shadowglass_v35_runtime.Queue.Table.{insert_dead, insert_select, letter_of}
use shadowglass_v35_runtime.Queue.Invariant.Valid.{HasBuried, IsValid, IsStep, map-IsValid}

abbrev pub LettersOnce : List DeadLetter → Type 0
LettersOnce = Distinct (λ d. d.queue_id)

Fresh-of_any :
    (n : ℕ) (letters : List DeadLetter)
    → any (λ e. e.queue_id == n) letters ≡ false
    → Fresh (λ e. e.queue_id) n letters
Fresh-of_any n [] h = tt
Fresh-of_any n (e ∷ letters) h = (ground arith, Fresh-of_any n letters (ground arith))

pub insert_dead-LettersOnce :
    (d : DeadLetter) (letters : List DeadLetter)
    → LettersOnce letters
    → LettersOnce (insert_dead d letters)
unfolding insert_dead
insert_dead-LettersOnce d letters h =
    elim (Bool-cases (any (λ e. e.queue_id == d.queue_id) letters)) [
      | inl old ↦ rw old h
      | inr new ↦
          rw new
            (Distinct-append (λ e. e.queue_id) letters d h (Fresh-of_any d.queue_id letters new))
    ]

module _ (P : DeadLetter → Type 0) where
  insert_dead-All :
      (d : DeadLetter) (letters : List DeadLetter)
      → P d
      → All P letters
      → All P (insert_dead d letters)
  unfolding insert_dead
  insert_dead-All d letters p h = elim (Bool-cases (any (λ e. e.queue_id == d.queue_id) letters)) [
    | inl old ↦ rw old h
    | inr new ↦ rw new (All-append P letters (d ∷ []) h (p, tt))
  ]

module _ (test : Row → Bool) (letter : Row → DeadLetter) where
  pub insert_select-LettersOnce :
      (rows : List Row) (letters : List DeadLetter)
      → LettersOnce letters
      → LettersOnce (insert_select test letter rows letters)
  unfolding insert_select
  insert_select-LettersOnce [] letters h = h
  insert_select-LettersOnce (r ∷ rows) letters h = elim (Bool-cases (test r)) [
    | inl picked ↦ rw picked (
        insert_select-LettersOnce rows (insert_dead (letter r) letters)
          (insert_dead-LettersOnce (letter r) letters h))
    | inr passed ↦ rw passed (insert_select-LettersOnce rows letters h)
  ]

  pub insert_select-All :
      (P : DeadLetter → Type 0) (rows : List Row) (letters : List DeadLetter)
      → All (λ r. test r ≡ true → P (letter r)) rows
      → All P letters
      → All P (insert_select test letter rows letters)
  unfolding insert_select
  insert_select-All P [] letters new h = h
  insert_select-All P (r ∷ rows) letters (n, new) h = elim (Bool-cases (test r)) [
    | inl picked ↦ rw picked (
        insert_select-All P rows (insert_dead (letter r) letters) new
          (insert_dead-All P (letter r) letters (n picked) h))
    | inr passed ↦ rw passed (insert_select-All P rows letters new h)
  ]

module _ (now : ℕ) (error : Row → Option String) (g : Row → Row) (s : IsStep g)
    (test : Row → Bool) where
  letters_buried :
      (rows : List Row)
      → All (λ r. test r ≡ true → (g r).state ≡ dead) rows
      → All (λ r. test r ≡ true → HasBuried (letter_of now error r) (map g rows)) rows
  letters_buried [] buries = tt
  letters_buried (r ∷ rows) (buried, buries) = (
    λ picked. inl (buried picked, (s.evolves r).same_id, (s.evolves r).same_key),
    All-implies (λ x. test x ≡ true → HasBuried (letter_of now error x) (map g rows))
        (λ x. test x ≡ true → HasBuried (letter_of now error x) (g r ∷ map g rows)) rows
        (λ x h picked. inr (h picked)) (letters_buried rows buries),
  )

  -- Dead letters for rows that the next statement buries, and that statement.
  pub insert_select-IsValid :
      (q : Queue)
      → All (λ r. test r ≡ true → (g r).state ≡ dead) q.rows
      → IsValid q
      → IsValid (record q {
        rows = map g q.rows;
        dead_letters = insert_select test (letter_of now error) q.rows q.dead_letters;
      })
  insert_select-IsValid q buries v =
      let w = map-IsValid g s q v in
      record {
        sound = w.sound;
        ids = w.ids;
        keys = w.keys;
        below = w.below;
        letters =
            insert_select-All test (letter_of now error) (λ d. HasBuried d (map g q.rows)) q.rows
              q.dead_letters (letters_buried q.rows buries) w.letters;
        once = insert_select-LettersOnce test (letter_of now error) q.rows q.dead_letters v.once;
      }
