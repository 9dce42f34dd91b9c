-- ===== src/Requests.antt =====
-- core.py: the validated requests. `extra="forbid"` and the JSON types are pydantic's; a body comes
-- here with its declared fields, of the declared types. `casefold` is `str.casefold`.
pub mod Literal
use Prim.Native.String
use Prim.Native.Char.{code}
use shadowglass_v35_runtime.Common.{
  ℕ, ◌-◌, String, Bool, true, false, not, ◌&&◌, ◌||◌, Option, none, some, List, [], ◌∷◌, length,
  any, leb, ltb, ◌==◌, str_eq, if◌then◌else◌,
}
use shadowglass_v35_runtime.Common.Int.{ℤ, pos, negsuc}
use shadowglass_v35_runtime.Common.Text
use shadowglass_v35_runtime.Common.Text.{collapse, strip, every, is_empty}
use shadowglass_v35_runtime.Common.Result.{Result, ok, err, value_error, raise_if, ◌>>=◌, ◌>>◌}

abbrev pub is_letter : ℕ → Bool
is_letter c = (leb 65 c && leb c 90) || (leb 97 c && leb c 122)

abbrev pub is_digit : ℕ → Bool
is_digit c = leb 48 c && leb c 57

-- `c in chars`
abbrev pub one_of_chars : List ℕ → ℕ → Bool
one_of_chars chars c = any (λ d. d == c) chars

-- [A-Za-z .'-]
unfoldable pub is_county_char : ℕ → Bool
is_county_char c = is_letter c || one_of_chars (32 ∷ 46 ∷ 39 ∷ 45 ∷ []) c

-- [A-Za-z0-9 &/().,'-]
unfoldable pub is_instrument_char : ℕ → Bool
is_instrument_char c =
    is_letter c || is_digit c || one_of_chars (32 ∷ 38 ∷ 47 ∷ 40 ∷ 41 ∷ 46 ∷ 44 ∷ 39 ∷ 45 ∷ []) c

-- [A-Za-z0-9_.:-]
unfoldable pub is_key_char : ℕ → Bool
is_key_char c = is_letter c || is_digit c || one_of_chars (95 ∷ 46 ∷ 58 ∷ 45 ∷ []) c

-- COUNTY_RE.fullmatch
unfoldable pub is_county : String → Bool
unfolding is_county_char
is_county String.[] = false
is_county (String.◌∷◌ c s) = is_letter (code c) && every is_county_char s && leb (Text.length s) 79

-- INSTRUMENT_RE.fullmatch
unfoldable pub is_instrument : String → Bool
unfolding is_instrument_char
is_instrument String.[] = false
is_instrument (String.◌∷◌ c s) =
    (is_letter (code c) || is_digit (code c))
    && every is_instrument_char s
    && leb (Text.length s) 119

-- IDEMPOTENCY_RE.fullmatch
unfoldable pub is_key : String → Bool
unfolding is_key_char
is_key s = every is_key_char s && leb 8 (Text.length s) && leb (Text.length s) 160

unfoldable pub clean_county : String → Result String
unfolding collapse is_county
clean_county value =
    let cleaned = collapse value in
    if is_county cleaned then ok cleaned else err value_error "invalid county"

unfoldable pub clean_instrument : String → Result String
unfolding collapse is_instrument
clean_instrument value =
    let cleaned = collapse value in
    if is_instrument cleaned then ok cleaned else err value_error "invalid instrument type"

-- `Field(ge=…, le=…)`
abbrev pub bounded_field : ℕ → ℕ → ℤ → Result ℕ
bounded_field lo hi (pos n) =
    if leb lo n && leb n hi then ok n else err value_error "value is out of range"
bounded_field lo hi (negsuc n) = err value_error "value is out of range"

pub record ScrapeRequest : Type 0 where
  pub county : String
  pub instrument : String
  pub start_page : ℕ

-- Every text is stripped first: `str_strip_whitespace=True`.
unfoldable pub scrape_request : String → String → ℤ → Result ScrapeRequest
unfolding clean_county clean_instrument
scrape_request county instrument start = do
  c ← clean_county (strip county)
  i ← clean_instrument (strip instrument)
  n ← bounded_field 0 1000000 start
  ok (record { county = c; instrument = i; start_page = n })

pub record DirectScrapeRequest : Type 0 where
  pub county : String
  pub instrument : String
  pub pages : ℕ

unfoldable pub direct_scrape_request : String → String → ℤ → Result DirectScrapeRequest
unfolding clean_county clean_instrument
direct_scrape_request county instrument pages = do
  c ← clean_county (strip county)
  i ← clean_instrument (strip instrument)
  n ← bounded_field 1 50 pages
  ok (record { county = c; instrument = i; pages = n })

-- `ScrapeAllRequest` and `DiscoverRequest`
unfoldable pub county_request : String → Result String
unfolding clean_county
county_request county = clean_county (strip county)

unfoldable pub clean_counties : List String → Result (List String)
unfolding clean_county
clean_counties [] = ok []
clean_counties (v ∷ vs) = do c ← clean_county (strip v); cs ← clean_counties vs; ok (c ∷ cs)

-- `len({value.casefold() for value in cleaned}) == len(cleaned)`
abbrev pub has_duplicate : (String → String) → List String → Bool
has_duplicate casefold [] = false
has_duplicate casefold (c ∷ cs) =
    any (λ d. str_eq (casefold d) (casefold c)) cs || has_duplicate casefold cs

unfoldable pub scrape_multi_request : (String → String) → List String → Result (List String)
unfolding clean_counties
scrape_multi_request casefold counties = do
  raise_if (not (leb 1 (length counties) && leb (length counties) 25)) value_error
      "between 1 and 25 counties are required"
  cleaned ← clean_counties counties
  raise_if (has_duplicate casefold cleaned) value_error "duplicate county"
  ok cleaned

-- A missing header is none.
unfoldable pub validate_idempotency_key : Option String → Result String
unfolding is_key
validate_idempotency_key none = err value_error "a valid X-Idempotency-Key header is required"
validate_idempotency_key (some value) =
    if is_empty value || not (is_key value)
    then err value_error "a valid X-Idempotency-Key header is required"
    else ok value
