-- ===== src/Common/Sorted.antt =====
-- ORDER BY one column of numbers.
use Prim.Native.Nat.{ℕ, suc}
use mathlib.Core.Path.{◌≡◌, refl}
use mathlib.Core.Bool.{Bool, true, false}
use mathlib.Core.Option.{Option, none, some}
use mathlib.Core.List.{List, [], ◌∷◌}
use native.Mathlib.Omega.{arith}
use mathlib.Core.Logic.{◌≢◌, ◌⊎◌, inl, inr}
use mathlib.Core.Bool.{◌&&◌}
use shadowglass_v35_runtime.Common.Lists.{length, All, find}
use shadowglass_v35_runtime.Common.Distinct.{Distinct, Fresh}
use shadowglass_v35_runtime.Common.Tests.{ltb, ◌==◌, ==_iff, if◌then◌else◌, Bool-cases}

module _ {ℓ} {A : Type ℓ} (key : A → ℕ) where
  abbrev pub smaller : A → Option A → Option A
  smaller x none = some x
  smaller x (some y) = if ltb (key y) (key x) then some y else some x

  -- WHERE test ORDER BY key LIMIT 1
  abbrev pub least : (A → Bool) → List A → Option A
  least test [] = none
  least test (x ∷ xs) = let rest = least test xs in if test x then smaller x rest else rest

  abbrev pub insert_by : A → List A → List A
  insert_by x [] = x ∷ []
  insert_by x (y ∷ ys) =
      let rest = insert_by x ys in if ltb (key y) (key x) then y ∷ rest else x ∷ y ∷ ys

  -- ORDER BY key
  abbrev pub sort_by : List A → List A
  sort_by [] = []
  sort_by (x ∷ xs) = insert_by x (sort_by xs)

  length-insert_by : (x : A) (ys : List A) → length (insert_by x ys) ≡ suc (length ys)
  length-insert_by x [] = refl
  length-insert_by x (y ∷ ys) =
      let ih = length-insert_by x ys in ground (arith, ih, Bool-cases (ltb (key y) (key x)))

  pub length-sort_by : (xs : List A) → length (sort_by xs) ≡ length xs
  length-sort_by [] = refl
  length-sort_by (x ∷ xs) =
      let ih = length-sort_by xs in
      let step = length-insert_by x (sort_by xs) in omega (arith, ih, step)

-- Membership.
abbrev pub Has : {A : Type 0} → A → List A → Type 0
Has x [] = ⊥
Has x (y ∷ ys) = (y ≡ x) ⊎ Has x ys

pub All-Has {κ} : {A : Type 0} (P : A → Type κ) (xs : List A) (x : A) → All P xs → Has x xs → P x
All-Has P [] x a h = elim h [ ]
All-Has P (y ∷ ys) x (p, a) (inl same) = rw same at p
All-Has P (y ∷ ys) x (p, a) (inr h) = All-Has P ys x a h

module _ {A : Type 0} (key : A → ℕ) where
  smaller-is : (x : A) (o : Option A) (z : A) → smaller key x o ≡ some z → (x ≡ z) ⊎ (o ≡ some z)
  smaller-is x none z e = inl (ground (arith, e))
  smaller-is x (some y) z e = elim (Bool-cases (ltb (key y) (key x))) [
    | inl less ↦ inr (rw less at e)
    | inr more ↦ inl (ground (arith, rw more at e))
  ]

  -- The answer of ORDER BY … LIMIT 1 is a row that passes.
  pub least-Has :
      (test : A → Bool) (xs : List A) (z : A)
      → least key test xs ≡ some z
      → Has z xs × (test z ≡ true)
  least-Has test [] z e = absurd (ground (arith, e))
  least-Has test (x ∷ xs) z e = elim (Bool-cases (test x)) [
    | inl passes ↦ elim (smaller-is x (least key test xs) z (rw passes at e)) [
      | inl same ↦ (inl same, rw same at passes)
      | inr later ↦ let (h, t) = least-Has test xs z later in (inr h, t)
    ]
    | inr fails ↦ let (h, t) = least-Has test xs z (rw fails at e) in (inr h, t)
  ]

  Has-key : (xs : List A) (x z : A) → Fresh key (key x) xs → Has z xs → key z ≢ key x
  Has-key xs x z = All-Has (λ y. key y ≢ key x) xs z

  -- A row is found under its key, where no two rows share one.
  pub find-Has :
      (p : A → Bool) (xs : List A) (z : A)
      → Distinct key xs
      → Has z xs
      → p z ≡ true
      → find (λ y. (key y == key z) && p y) xs ≡ some z
  find-Has p [] z d h t = elim h [ ]
  find-Has p (x ∷ xs) z (fresh, d) (inl same) t =
      let q = ==_iff (key z) (key z) in rw same (ground (arith, q, t))
  find-Has p (x ∷ xs) z (fresh, d) (inr h) t =
      let ne = Has-key xs x z fresh h in
      let rest = find-Has p xs z d h t in
      let miss : key x == key z ≡ false = ground (arith, ne) in rw miss rest

  pub find-key :
      (xs : List A) (z : A) → Distinct key xs → Has z xs → find (λ y. key y == key z) xs ≡ some z
  find-key [] z d h = elim h [ ]
  find-key (x ∷ xs) z (fresh, d) (inl same) =
      let q = ==_iff (key z) (key z) in rw same (ground (arith, q))
  find-key (x ∷ xs) z (fresh, d) (inr h) =
      let ne = Has-key xs x z fresh h in
      let rest = find-key xs z d h in
      let miss : key x == key z ≡ false = ground (arith, ne) in rw miss rest

  find-Fresh :
      (p : A → Bool) (xs : List A) (k : ℕ)
      → Fresh key k xs
      → find (λ y. (key y == k) && p y) xs ≡ none
  find-Fresh p [] k f = refl
  find-Fresh p (x ∷ xs) k (ne, f) =
      let rest = find-Fresh p xs k f in
      let miss : key x == k ≡ false = ground (arith, ne) in rw miss rest

  -- Where the row under a key fails, the query finds none.
  pub find-Has-none :
      (p : A → Bool) (xs : List A) (z : A)
      → Distinct key xs
      → Has z xs
      → p z ≡ false
      → find (λ y. (key y == key z) && p y) xs ≡ none
  find-Has-none p [] z d h t = elim h [ ]
  find-Has-none p (x ∷ xs) z (fresh, d) (inl same) t =
      let rest = find-Fresh p xs (key z) (rw same at fresh) in
      let q = ==_iff (key z) (key z) in rw same (ground (arith, q, t, rest))
  find-Has-none p (x ∷ xs) z (fresh, d) (inr h) t =
      let ne = Has-key xs x z fresh h in
      let rest = find-Has-none p xs z d h t in
      let miss : key x == key z ≡ false = ground (arith, ne) in rw miss rest
