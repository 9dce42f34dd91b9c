-- ===== src/Database/Repeat.antt =====
-- storage.py: what `complete_scrape` does to the deeds where a page is scraped again.
use shadowglass_v35_runtime.Common.{
  ℕ, ◌≡◌, refl, ap, ◌∙◌, inl, inr, Bool, true, false, not, Option, List, [], ◌∷◌, map, any, all,
  Bool-cases, String, arith,
}
use shadowglass_v35_runtime.Common.Text.{take, is_empty}
use shadowglass_v35_runtime.Json.Dict.{str_eq_refl}
use shadowglass_v35_runtime.Database.Tables.{Deed, upsert}
use shadowglass_v35_runtime.Database.Context.{JobContext}
use shadowglass_v35_runtime.Database.Scrape.{
  Record, text_of, text_or_none, deed_of, same_external, same_deed, redeed, store_deed, store_deeds,
}

module _ {A : Type 0} (p : A → Bool) (merge : A → A) (new : A) where
  -- An upsert keeps every key that is there.
  any-upsert_kept :
      (q : A → Bool) (xs : List A)
      → ((x : A) → q x ≡ true → q (merge x) ≡ true)
      → any q xs ≡ true
      → any q (upsert p merge new xs) ≡ true
  any-upsert_kept q [] keep h = ground arith
  any-upsert_kept q (x ∷ xs) keep h = elim (Bool-cases (p x)) [
    | inl hit ↦ elim (Bool-cases (q x)) [
      | inl there ↦ (let m = keep x there in rw (hit, m) refl)
      | inr other ↦ ground arith
    ]
    | inr miss ↦ elim (Bool-cases (q x)) [
      | inl there ↦ rw (miss, there) refl
      | inr other ↦ rw (miss, other) (any-upsert_kept q xs keep (ground arith))
    ]
  ]

  -- An upsert leaves its own key there.
  any-upsert_own :
      (xs : List A)
      → p new ≡ true
      → ((x : A) → p x ≡ true → p (merge x) ≡ true)
      → any p (upsert p merge new xs) ≡ true
  any-upsert_own [] h keep = rw h refl
  any-upsert_own (x ∷ xs) h keep = elim (Bool-cases (p x)) [
    | inl hit ↦ (let m = keep x hit in rw (hit, m) refl)
    | inr miss ↦ rw (miss, miss) (any-upsert_own xs h keep)
  ]

  -- An upsert under a key that is there changes nothing that its merge keeps.
  map-upsert :
      {B : Type 0} (f : A → B) (xs : List A)
      → ((x : A) → f (merge x) ≡ f x)
      → any p xs ≡ true
      → map f (upsert p merge new xs) ≡ map f xs
  map-upsert f [] keep h = ground arith
  map-upsert f (x ∷ xs) keep h = elim (Bool-cases (p x)) [
    | inl hit ↦ (let m = keep x in rw (hit, m) refl)
    | inr miss ↦ rw miss (ap (λ ys. f x ∷ ys) (map-upsert f xs keep (ground arith)))
  ]

-- A record with an id: its deed has an identity.
abbrev pub has_id : Record → Bool
has_id r = not (is_empty (take 500 (text_of "id" r)))

-- What an upsert of a deed never changes.
abbrev pub identity : Deed → Option String × String × String × ℕ × ℕ
identity d = (d.external_id, d.county, d.instrument_type, d.instrument_type_id, d.created_at)

named :
    (s : String) → not (is_empty s) ≡ true → same_external (text_or_none s) (text_or_none s) ≡ true
named s h = let filled : is_empty s ≡ false = ground arith in rw filled (str_eq_refl s)

same_deed_own :
    (now : ℕ) (c : JobContext) (key : String) (r : Record)
    → has_id r ≡ true
    → same_deed (deed_of now c key r) (deed_of now c key r) ≡ true
unfolding same_deed
same_deed_own now c key r h =
    rw (str_eq_refl c.county, str_eq_refl c.instrument_type, named (take 500 (text_of "id" r)) h)
      refl

-- The deed of a record is in the table.
abbrev is_stored : JobContext → List Deed → Record → Bool
is_stored c deeds r = any (same_deed (deed_of 0 c "" r)) deeds

store_deeds-is_stored :
    (now : ℕ) (c c' : JobContext) (key : String) (r : Record) (rs : List Record) (deeds : List Deed)
    → is_stored c deeds r ≡ true
    → is_stored c (store_deeds now c' key rs deeds) r ≡ true
unfolding store_deeds same_deed
store_deeds-is_stored now c c' key r [] deeds h = h
store_deeds-is_stored now c c' key r (s ∷ rs) deeds h =
    let new = deed_of now c' key s in
    store_deeds-is_stored now c c' key r rs (store_deed new deeds) (
      any-upsert_kept (same_deed new) (redeed new) new (same_deed (deed_of 0 c "" r)) deeds
        (λ x k. k) h)

store_deeds-stored :
    (now : ℕ) (c : JobContext) (key : String) (rs : List Record) (deeds : List Deed)
    → all has_id rs ≡ true
    → all (is_stored c (store_deeds now c key rs deeds)) rs ≡ true
unfolding store_deeds same_deed
store_deeds-stored now c key [] deeds h = refl
store_deeds-stored now c key (r ∷ rs) deeds h =
    let new = deed_of now c key r in
    let own : is_stored c (store_deed new deeds) r ≡ true =
      any-upsert_own (same_deed new) (redeed new) new deeds
        (same_deed_own now c key r (ground arith)) (λ x k. k) in
    let first = store_deeds-is_stored now c c key r rs (store_deed new deeds) own in
    let others = store_deeds-stored now c key rs (store_deed new deeds) (ground arith) in
    rw (first, others) refl

all_kept :
    (now : ℕ) (c c' : JobContext) (key : String) (others rs : List Record) (deeds : List Deed)
    → all (is_stored c deeds) rs ≡ true
    → all (is_stored c (store_deeds now c' key others deeds)) rs ≡ true
all_kept now c c' key others [] deeds h = refl
all_kept now c c' key others (s ∷ rs) deeds h =
    let first = store_deeds-is_stored now c c' key s others deeds (ground arith) in
    let rest = all_kept now c c' key others rs deeds (ground arith) in rw (first, rest) refl

stored-identity :
    (now : ℕ) (c : JobContext) (key : String) (rs : List Record) (deeds : List Deed)
    → all (is_stored c deeds) rs ≡ true
    → map identity (store_deeds now c key rs deeds) ≡ map identity deeds
unfolding store_deeds same_deed
stored-identity now c key [] deeds h = refl
stored-identity now c key (r ∷ rs) deeds h =
    let new = deed_of now c key r in
    stored-identity now c key rs (store_deed new deeds)
      (all_kept now c c key (r ∷ []) rs deeds (ground arith))
    ∙ map-upsert (same_deed new) (redeed new) new identity deeds (λ x. refl) (ground arith)

-- Records with an id that are stored a second time, at any time, from an object of any key and with
-- other records of any pair stored in between, add no deed and change no deed's identity, instrument
-- id, creation time or place in the table.
pub store_deeds_repeated :
    (now between again : ℕ) (c c' : JobContext) (key key' key'' : String) (rs others : List Record)
    (deeds : List Deed)
    → all has_id rs ≡ true
    → map identity (
        store_deeds again c key'' rs
          (store_deeds between c' key' others (store_deeds now c key rs deeds)))
      ≡ map identity (store_deeds between c' key' others (store_deeds now c key rs deeds))
store_deeds_repeated now between again c c' key key' key'' rs others deeds h =
    let once = store_deeds now c key rs deeds in
    stored-identity again c key'' rs (store_deeds between c' key' others once)
      (all_kept between c c' key' others rs once (store_deeds-stored now c key rs deeds h))
