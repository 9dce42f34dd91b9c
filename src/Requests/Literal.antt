-- ===== src/Requests/Literal.antt =====
-- core.py: an accepted name holds none of the characters that ILIKE reads as a pattern.
use shadowglass_v35_runtime.Common.{
  ℕ, ◌≤◌, String, ◌≡◌, refl, inl, inr, Bool, true, not, [], ◌∷◌, arith, Bool-cases,
}
use Prim.Native.Char.{code}
use shadowglass_v35_runtime.Common.Text.{length, collapse, every}
use shadowglass_v35_runtime.Common.Result.{ok}
use shadowglass_v35_runtime.Requests.{
  one_of_chars, is_county_char, is_instrument_char, is_county, is_instrument, clean_county,
  clean_instrument,
}

-- Not `%`, `_` or `\`.
abbrev pub is_literal : ℕ → Bool
is_literal c = not (one_of_chars (37 ∷ 95 ∷ 92 ∷ []) c)

every-implies :
    (p q : ℕ → Bool)
    → ((c : ℕ) → p c ≡ true → q c ≡ true)
    → (s : String) → every p s ≡ true
    → every q s ≡ true
every-implies p q f String.[] h = refl
every-implies p q f (String.◌∷◌ c s) h =
    let here = f (code c) (ground (arith, h)) in
    let rest = every-implies p q f s (ground (arith, h)) in ground (arith, here, rest)

county-literal : (c : ℕ) → is_county_char c ≡ true → is_literal c ≡ true
unfolding is_county_char
county-literal c h = ground (arith, h)

instrument-literal : (c : ℕ) → is_instrument_char c ≡ true → is_literal c ≡ true
unfolding is_instrument_char
instrument-literal c h = ground (arith, h)

county-IsLiteral : (s : String) → is_county s ≡ true → (every is_literal s ≡ true) × (length s ≤ 80)
unfolding is_county
county-IsLiteral String.[] h = absurd (ground (arith, h))
county-IsLiteral (String.◌∷◌ c s) h =
    let rest = every-implies is_county_char is_literal county-literal s (ground (arith, h)) in
    (ground (arith, rest, h), ground (arith, h))

instrument-IsLiteral :
    (s : String) → is_instrument s ≡ true → (every is_literal s ≡ true) × (length s ≤ 120)
unfolding is_instrument
instrument-IsLiteral String.[] h = absurd (ground (arith, h))
instrument-IsLiteral (String.◌∷◌ c s) h =
    let rest =
      every-implies is_instrument_char is_literal instrument-literal s (ground (arith, h)) in
    (ground (arith, rest, h), ground (arith, h))

-- The name of an accepted county or instrument type holds no wildcard and no escape of ILIKE, so
-- the service's queries match it as it stands; it has at most 80 or 120 characters.
pub clean-IsLiteral :
    (value : String)
    → ((s : String) → clean_county value ≡ ok s → (every is_literal s ≡ true) × (length s ≤ 80))
      × ((s : String)
          → clean_instrument value ≡ ok s
          → (every is_literal s ≡ true) × (length s ≤ 120))
unfolding clean_county clean_instrument
clean-IsLiteral value = (
  λ s e. elim (Bool-cases (is_county (collapse value))) [
    | inl good ↦
        let same : collapse value ≡ s = ground (arith, rw good at e) in
        rw (← same) (county-IsLiteral (collapse value) good)
    | inr bad ↦ absurd (ground (arith, rw bad at e))
  ],
  λ s e. elim (Bool-cases (is_instrument (collapse value))) [
    | inl good ↦
        let same : collapse value ≡ s = ground (arith, rw good at e) in
        rw (← same) (instrument-IsLiteral (collapse value) good)
    | inr bad ↦ absurd (ground (arith, rw bad at e))
  ],
)
