-- ===== src/Common/Text/Decimal.antt =====
-- The decimal texts of different numbers differ.
use Prim.Native.Char.{code}
use Prim.Native.Nat.{ℕ, zero, suc, ◌+◌, ◌*◌, ◌-◌, ◌/◌, ◌%◌, ◌<◌}
use Prim.Native.String
use Prim.Native.String.{String}
use mathlib.Core.Path.{◌≡◌, refl, sym, ap, ◌∙◌}
use mathlib.Core.Logic.{inl, inr}
use text.Mathlib.TextLemmas.{nil-append, cons-append}
use native.Mathlib.Omega.{arith}
use shadowglass_v35_runtime.Common.Tests.{ltb, Bool-cases}
use shadowglass_v35_runtime.Common.Text.{show, digit, show_from}

-- The number that a text of digits is read as, after a part that was read as `n`.
value : ℕ → String → ℕ
value n String.[] = n
value n (String.◌∷◌ c s) = value (n * 10 + (code c - 48)) s

value-++ : (n : ℕ) (s t : String) → value n (String.◌++◌ s t) ≡ value (value n s) t
unfolding value
value-++ n String.[] t = rw (nil-append t) refl
value-++ n (String.◌∷◌ c s) t = rw (cons-append c s t) (value-++ (n * 10 + (code c - 48)) s t)

value-digit : (n d : ℕ) → d < 10 → value n (digit d) ≡ n * 10 + d
unfolding value
value-digit n zero h = refl
value-digit n (suc zero) h = refl
value-digit n (suc (suc zero)) h = refl
value-digit n (suc (suc (suc zero))) h = refl
value-digit n (suc (suc (suc (suc zero)))) h = refl
value-digit n (suc (suc (suc (suc (suc zero))))) h = refl
value-digit n (suc (suc (suc (suc (suc (suc zero)))))) h = refl
value-digit n (suc (suc (suc (suc (suc (suc (suc zero))))))) h = refl
value-digit n (suc (suc (suc (suc (suc (suc (suc (suc zero)))))))) h = refl
value-digit n (suc (suc (suc (suc (suc (suc (suc (suc (suc zero))))))))) h = refl
value-digit n (suc (suc (suc (suc (suc (suc (suc (suc (suc (suc d)))))))))) h = absurd (omega arith)

value-show_from : (fuel n : ℕ) → n < fuel → value 0 (show_from fuel n) ≡ n
unfolding show_from
value-show_from zero n h = absurd (omega arith)
value-show_from (suc fuel) n h = elim (Bool-cases (ltb n 10)) [
  | inl small ↦ rw small (value-digit 0 n (ground (arith, small)) ∙ omega arith)
  | inr large ↦
      let tens = value-show_from fuel (n / 10) (ground (arith, large)) in
      rw (large, value-++ 0 (show_from fuel (n / 10)) (digit (n % 10)), tens)
        (value-digit (n / 10) (n % 10) (omega arith) ∙ omega arith)
]

-- Different numbers have different texts.
pub show_injective : (m n : ℕ) → show m ≡ show n → m ≡ n
unfolding show
show_injective m n e =
    sym (value-show_from (suc m) m (omega arith))
    ∙ ap (value 0) e
    ∙ value-show_from (suc n) n (omega arith)
