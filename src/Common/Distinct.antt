-- ===== src/Common/Distinct.antt =====
-- Lists whose elements differ in a key, as the rows of a table under a unique column.
use shadowglass_v35_runtime.Common.Lists.{All, All-append}
use mathlib.Core.Path.{◌≡◌, sym, ◌∙◌}
use mathlib.Core.Logic.{◌≢◌}
use mathlib.Core.List.{List, [], ◌∷◌, ◌++◌, map}

module _ {ℓ κ} {A : Type ℓ} {K : Type κ} (key : A → K) where
  abbrev pub Fresh : K → List A → Type κ
  Fresh k xs = All (λ y. key y ≢ k) xs

  abbrev pub Distinct : List A → Type κ
  Distinct [] = Unit
  Distinct (x ∷ xs) = Fresh (key x) xs × Distinct xs

  pub Fresh-map :
      (k : K) (f : A → A) (xs : List A)
      → ((x : A) → key (f x) ≡ key x)
      → Fresh k xs
      → Fresh k (map f xs)
  Fresh-map k f [] keep h = tt
  Fresh-map k f (x ∷ xs) keep (p, h) = ((λ e. p (sym (keep x) ∙ e)), Fresh-map k f xs keep h)

  pub Distinct-map :
      (f : A → A) (xs : List A) → ((x : A) → key (f x) ≡ key x) → Distinct xs → Distinct (map f xs)
  Distinct-map f [] keep h = tt
  Distinct-map f (x ∷ xs) keep (p, h) =
      (rw keep (Fresh-map (key x) f xs keep p), Distinct-map f xs keep h)

  pub Distinct-append :
      (xs : List A) (y : A) → Distinct xs → Fresh (key y) xs → Distinct (xs ++ y ∷ [])
  Distinct-append [] y h k = (tt, tt)
  Distinct-append (x ∷ xs) y (p, h) (q, k) = (
    All-append (λ z. key z ≢ key x) xs (y ∷ []) p ((λ e. q (sym e)), tt),
    Distinct-append xs y h k,
  )
