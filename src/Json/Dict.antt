-- ===== src/Json/Dict.antt =====
-- A payload has the JSON text that it has.
use shadowglass_v35_runtime.Common.{
  String, ◌≡◌, refl, sym, inl, inr, Bool, true, false, some, [], ◌∷◌, All, arith, eq_iff, str_eq,
  all, Bool-cases, not, ◌&&◌,
}
use shadowglass_v35_runtime.Common.Distinct.{Distinct, Fresh}
use shadowglass_v35_runtime.Json.{
  Json, null, boolean, int, str, other, Payload, get, json_eq, holds, same_text,
}

-- A Python dict has one value for each key.
abbrev pub IsDict : Payload → Type 0
IsDict p = Distinct (λ (b : String × Json). b.0) p

pub str_eq_refl : (s : String) → str_eq s s ≡ true
str_eq_refl s = (eq_iff s s).1 refl

json_eq_refl : (v : Json) → json_eq v v ≡ true
unfolding json_eq
json_eq_refl null = refl
json_eq_refl (boolean true) = refl
json_eq_refl (boolean false) = refl
json_eq_refl (int n) = ground arith
json_eq_refl (str s) = str_eq_refl s
json_eq_refl (other s) = str_eq_refl s

-- A member under another key is found past the first one.
get-cons :
    (k : String) (v : Json) (p xs : Payload)
    → All (λ b. get b.0 p ≡ some b.1) xs
    → Fresh (λ (b : String × Json). b.0) k xs
    → All (λ b. get b.0 ((k, v) ∷ p) ≡ some b.1) xs
unfolding get
get-cons k v p [] a f = tt
get-cons k v p ((j, w) ∷ xs) (e, a) (ne, f) = (
  elim (Bool-cases (str_eq k j)) [
    | inl same ↦ absurd (ne (sym ((eq_iff k j).0 same)))
    | inr miss ↦ rw miss e
  ],
  get-cons k v p xs a f,
)

-- Every member of a dict is found under its key.
get-members : (p : Payload) → IsDict p → All (λ b. get b.0 p ≡ some b.1) p
unfolding get
get-members [] d = tt
get-members ((k, v) ∷ p) (fresh, d) =
    (rw (str_eq_refl k) refl, get-cons k v p p (get-members p d) fresh)

all_hold : (p xs : Payload) → All (λ b. get b.0 p ≡ some b.1) xs → all (holds p) xs ≡ true
all_hold p [] h = refl
all_hold p ((k, v) ∷ xs) (e, h) =
    let ih = all_hold p xs h in let same = json_eq_refl v in ground (arith, e, ih, same)

pub same_text_refl : (p : Payload) → IsDict p → same_text p p ≡ true
unfolding same_text
same_text_refl p d = let h = all_hold p p (get-members p d) in ground (arith, h)

unfoldable absent : String → Payload → Bool
absent k p = all (λ b. not (str_eq b.0 k)) p

-- The keys differ, tested.
unfoldable pub distinct_keys : Payload → Bool
unfolding absent
distinct_keys [] = true
distinct_keys ((k, v) ∷ p) = absent k p && distinct_keys p

absent-Fresh :
    (k : String) (p : Payload) → absent k p ≡ true → Fresh (λ (b : String × Json). b.0) k p
unfolding absent
absent-Fresh k [] h = tt
absent-Fresh k ((j, v) ∷ p) h =
    ((λ same. let t = (eq_iff j k).1 same in ground (arith, t)), absent-Fresh k p (ground arith))

pub distinct_keys-IsDict : (p : Payload) → distinct_keys p ≡ true → IsDict p
unfolding distinct_keys
distinct_keys-IsDict [] h = tt
distinct_keys-IsDict ((k, v) ∷ p) h =
    (absent-Fresh k p (ground arith), distinct_keys-IsDict p (ground arith))
