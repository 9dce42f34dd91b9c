-- ===== src/Common/Result.antt =====
-- Python exceptions as values: the class that is raised, and its message.
use Prim.Native.String.{String}
use mathlib.Core.Path.{◌≡◌, refl}
use mathlib.Core.Logic.{◌⊎◌, inl, inr}
use mathlib.Core.Bool.{Bool, true, false}

-- The exception classes that the modelled code raises.
pub data Exception : Type 0 where
  value_error type_error lookup_error runtime_error : Exception
  permanent_job_error idempotency_conflict lease_fence_rejected : Exception
  object_store_error scrape_error relay_error relay_configuration_error canary_error : Exception
  not_found job_state_conflict service_unavailable : Exception

pub data Result {ℓ} (A : Type ℓ) : Type ℓ where
  ok : A → Result A
  err : Exception → String → Result A

-- The statement after a raise does not run.
infixl 5 ◌>>=◌
abbrev pub ◌>>=◌ {ℓ κ} : {A : Type ℓ} {B : Type κ} → Result A → (A → Result B) → Result B
◌>>=◌ (err raised message) next = err raised message
◌>>=◌ (ok value) next = next value

-- `if test: raise raised(message)`
abbrev pub raise_if : Bool → Exception → String → Result (Unit {0})
raise_if test raised message = elim test [ true ↦ err raised message | false ↦ ok tt ]

infixl 5 ◌>>◌
abbrev pub ◌>>◌ {ℓ} : {B : Type ℓ} → Result (Unit {0}) → Result B → Result B
◌>>◌ first rest = first >>= λ _. rest

pub Result-cases {ℓ} :
    {A : Type ℓ} (r : Result A)
    → ((a : A) × (r ≡ ok a)) ⊎ ((e : Exception) × (m : String) × (r ≡ err e m))
Result-cases (ok a) = inl (a, refl)
Result-cases (err e m) = inr (e, m, refl)

-- A sequence that answers had a first part that answers.
pub answers {ℓ κ} :
    {A : Type ℓ} {B : Type κ} (r : Result A) (k : A → Result B) {b : B}
    → (r >>= k) ≡ ok b
    → (a : A) × (r ≡ ok a) × (k a ≡ ok b)
answers (ok a) k e = (a, refl, e)
answers (err x m) k e = cc
