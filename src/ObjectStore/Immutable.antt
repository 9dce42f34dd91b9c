-- ===== src/ObjectStore/Immutable.antt =====
-- object_store.py: a write never changes an object that stands.
use shadowglass_v35_runtime.Common.{
  ℕ, zero, suc, ◌≤◌, ◌+◌, ◌≡◌, ◌≢◌, refl, sym, ap, ◌∙◌, inl, inr, String, Option, none, some, List,
  [], ◌∷◌, length, take, str_eq, eq_iff, Bool-cases, Option-cases, arith,
}
use shadowglass_v35_runtime.Common.Int.{ℤ, pos, negsuc}
use shadowglass_v35_runtime.Common.Result.{Result, ok, err}
use shadowglass_v35_runtime.Queue.Lease.{LeaseWriteFence}
use shadowglass_v35_runtime.ObjectStore.Client.{
  Bytes, Stat, StatAnswer, found, missing, failed, MinioLike, IsLawful,
}
use shadowglass_v35_runtime.ObjectStore.Writes.{
  bounded_size, read_body, read_answered, read_existing, require_fence, written, write_checked,
  write_fenced, put_immutable,
}

take_beyond : {A : Type 0} (n : ℕ) (xs : List A) → length xs ≤ n → take n xs ≡ xs
take_beyond zero [] h = refl
take_beyond zero (x ∷ xs) h = absurd (omega arith)
take_beyond (suc n) [] h = refl
take_beyond (suc n) (x ∷ xs) h = ap (λ ys. x ∷ ys) (take_beyond n xs (omega arith))

bounded-pos : (z : ℤ) (n : ℕ) → bounded_size z ≡ some n → z ≡ pos n
bounded-pos (pos m) n h = ground arith
bounded-pos (negsuc m) n h = cc

module _ {S : Type 0} (client : MinioLike S) (content : String → S → Option Bytes)
    (law : IsLawful client content) where
  -- The whole content is read where it has the size that was told.
  read_body-content :
      (key : String) (s : S) (size : ℕ) (st t : Stat) (b c : Bytes) (r : Result Bytes)
      → content key s ≡ some c
      → size ≡ length c
      → client.get_object key s ≡ r
      → read_body client size t r ≡ ok (some (b, st))
      → content key s ≡ some b
  read_body-content key s size st t b c (err e m) h k g e' = cc
  read_body-content key s size st t b c (ok whole) h k g e =
      let here = law.get_content key s whole g in
      let same : whole ≡ c = ground arith in
      let all : take (size + 1) whole ≡ whole =
        rw (k, same) (take_beyond (length c + 1) c (omega arith)) in
      let read : take (size + 1) whole ≡ b = ground arith in
      here ∙ ap (λ x. some x) (sym all ∙ read)

  read_answered-content :
      (key : String) (s : S) (b : Bytes) (st : Stat) (a : StatAnswer)
      → client.stat_object key s ≡ a
      → read_answered client key s a ≡ ok (some (b, st))
      → content key s ≡ some b
  read_answered-content key s b st missing g e = cc
  read_answered-content key s b st failed g e = cc
  read_answered-content key s b st (found t) g e = elim (Option-cases (bounded_size t.size)) [
    | inl outside ↦ (let bad = rw outside at e in cc)
    | inr (size, within) ↦
        let (c, here, measured) = law.stat_found key s t g in
        let told = bounded-pos t.size size within in
        let same : size ≡ length c = ground (arith, told, measured) in
        let read = rw within at e in
        read_body-content key s size st t b c (client.get_object key s) here same refl read
  ]

  -- What a read answers is what stands.
  pub read_existing-content :
      (key : String) (s : S) (b : Bytes) (st : Stat)
      → read_existing client key s ≡ ok (some (b, st))
      → content key s ≡ some b
  unfolding read_existing
  read_existing-content key s b st e =
      read_answered-content key s b st (client.stat_object key s) refl e

  read_body-ne-none : (size : ℕ) (t : Stat) (r : Result Bytes) → read_body client size t r ≢ ok none
  read_body-ne-none size t (err e m) h = cc
  read_body-ne-none size t (ok whole) h = ground arith

  read_answered-none :
      (key : String) (s : S) (a : StatAnswer)
      → client.stat_object key s ≡ a
      → read_answered client key s a ≡ ok none
      → content key s ≡ none
  read_answered-none key s missing g e = law.stat_missing key s g
  read_answered-none key s failed g e = cc
  read_answered-none key s (found t) g e = elim (Option-cases (bounded_size t.size)) [
    | inl outside ↦ (let bad = rw outside at e in cc)
    | inr (size, within) ↦
        (let read = rw within at e in
          absurd (read_body-ne-none size t (client.get_object key s) read))
  ]

  pub read_existing-none :
      (key : String) (s : S) → read_existing client key s ≡ ok none → content key s ≡ none
  unfolding read_existing
  read_existing-none key s e = read_answered-none key s (client.stat_object key s) refl e

  module _ (sha256 : Bytes → String) where
    pub written-state :
        (key : String) (body : Bytes) (answer : Result String × S)
        → (written client sha256 key body answer).1 ≡ answer.1
    written-state key body (ok etag, s) = refl
    written-state key body (err e m, s) = refl

    written-content :
        (key : String) (body : Bytes) (metadata : List (String × String)) (s : S) (j : String)
        (b : Bytes)
        → content key s ≡ none
        → content j s ≡ some b
        → content j (written client sha256 key body (client.put_object key body metadata s)).1
          ≡ some b
    written-content key body metadata s j b absent here = elim (Bool-cases (str_eq j key)) [
      | inl same ↦ (let e = (eq_iff j key).0 same in let lost = rw e at here in cc)
      | inr other ↦
          let apart : j ≢ key = λ e. ground (arith, (eq_iff j key).1 e) in
          rw (written-state key body (client.put_object key body metadata s))
            (law.put_other key body metadata s j apart ∙ here)
    ]

    write_checked-content :
        (key : String) (body : Bytes) (metadata : List (String × String)) (s : S) (j : String)
        (b : Bytes) (r : Result (Option (Bytes × Stat)))
        → read_existing client key s ≡ r
        → content j s ≡ some b
        → content j (write_checked client sha256 key body metadata s r).1 ≡ some b
    write_checked-content key body metadata s j b (err e m) g here = here
    write_checked-content key body metadata s j b (ok (some (old, st))) g here = here
    write_checked-content key body metadata s j b (ok none) g here =
        written-content key body metadata s j b (read_existing-none key s g) here

    write_fenced-content :
        (key : String) (body : Bytes) (metadata : List (String × String)) (s : S) (j : String)
        (b : Bytes) (r : Result (Unit {0}))
        → content j s ≡ some b
        → content j (write_fenced client sha256 key body metadata s r).1 ≡ some b
    write_fenced-content key body metadata s j b (err e m) here = here
    write_fenced-content key body metadata s j b (ok _) here =
        write_checked-content key body metadata s j b (read_existing client key s) refl here

    -- An object that stands is not changed by a write under any key, whatever the fence and the
    -- client's answers, and also where the write raises.
    pub put_immutable-keeps :
        (key : String) (body : Bytes) (metadata : List (String × String)) (fence : LeaseWriteFence)
        (s : S) (j : String) (b : Bytes)
        → content j s ≡ some b
        → content j (put_immutable client sha256 key body metadata fence s).1 ≡ some b
    unfolding put_immutable
    put_immutable-keeps key body metadata fence s j b here =
        write_fenced-content key body metadata s j b (require_fence fence key) here
