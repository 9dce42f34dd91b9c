-- ===== src/Worker/Payload.antt =====
-- queue_worker.py: `validate_payload`. A payload is an object by its type here, so the test for a
-- mapping, which cannot fail, has no counterpart; `payload_version` is a SMALLINT that is 1.
use shadowglass_v35_runtime.Common.{
  ℕ, ◌-◌, String, Bool, true, false, not, ◌&&◌, ◌||◌, none, some, List, [], ◌∷◌, all, any, leb, ltb,
  ◌==◌, str_eq, is_some, if◌then◌else◌,
}
use shadowglass_v35_runtime.Common.Int.{pos}
use shadowglass_v35_runtime.Common.Text.{length, is_empty, strip, every}
use shadowglass_v35_runtime.Common.Result.{
  Result, ok, err, permanent_job_error, raise_if, ◌>>=◌, ◌>>◌,
}
use shadowglass_v35_runtime.Json.{Json, null, int, str, Payload, get}

-- The validated fields of a scrape or a discovery.
pub record Task : Type 0 where
  pub kind : String
  pub county : String
  pub county_id : ℕ
  pub instrument_type : String
  pub instrument_type_id : ℕ
  pub start_page : ℕ
  pub end_page : ℕ
  pub platform : String
  pub retry : ℕ

pub data Validated : Type 0 where
  canary : String → String → Validated
  task : Task → Validated

abbrev pub supported_payload_version : ℕ
supported_payload_version = 1

-- `value in {…}`
abbrev pub one_of : List String → String → Bool
one_of texts s = any (λ t. str_eq t s) texts

abbrev pub allowed_job_kinds : List String
allowed_job_kinds = "scrape" ∷ "discover" ∷ "acceptance_canary" ∷ []

abbrev pub allowed_payload_fields : List String
allowed_payload_fields =
    "type" ∷ "county" ∷ "countyId" ∷ "instrumentType" ∷ "instrumentTypeId" ∷ "startPage" ∷ "endPage"
    ∷ "platform" ∷ "retry" ∷ []

-- Every key of the payload is one of these.
abbrev pub keys_within : List String → Payload → Bool
keys_within fields p = all (λ b. one_of fields b.0) p

-- `field in payload` for each of these.
abbrev pub has_all : List String → Payload → Bool
has_all fields p = all (λ f. is_some (get f p)) fields

-- `payload[field]` where the field is known to be there, `payload.get(field, default)` elsewhere.
abbrev pub field_or : String → Json → Payload → Json
field_or key default p = elim (get key p) [ none ↦ default | some v ↦ v ]

-- `[a-f0-9]{32}`
unfoldable pub is_canary_id : String → Bool
is_canary_id s =
    length s == 32 && every (λ c. (leb b'a' c && leb c b'f') || (leb b'0' c && leb c b'9')) s

-- A text that is at most so long, and not blank unless it may be.
abbrev pub text_field : Bool → ℕ → String → Json → Result String
text_field blank most message (str s) =
    if (blank || not (is_empty (strip s))) && leb (length s) most
    then ok s
    else err permanent_job_error message
text_field blank most message _ = err permanent_job_error message

-- `isinstance(value, int)` and not a `bool`, at least 1.
abbrev pub positive_field : String → Json → Result ℕ
positive_field message (int (pos n)) = if ltb n 1 then err permanent_job_error message else ok n
positive_field message _ = err permanent_job_error message

abbrev pub page_range : Json → Json → Result (ℕ × ℕ)
page_range (int (pos s)) (int (pos e)) =
    if ltb e s || ltb 999 (e - s)
    then err permanent_job_error "page range must be zero-based, ordered, and bounded"
    else ok (s, e)
page_range _ _ = err permanent_job_error "page range must be zero-based, ordered, and bounded"

abbrev pub retry_field : Json → Result ℕ
retry_field (int (pos n)) =
    if ltb 100 n
    then err permanent_job_error "retry must be an integer from 0 through 100"
    else ok n
retry_field _ = err permanent_job_error "retry must be an integer from 0 through 100"

abbrev pub canary_id_field : Json → Result String
canary_id_field (str s) =
    if is_canary_id s then ok s else err permanent_job_error "canary identity is invalid"
canary_id_field _ = err permanent_job_error "canary identity is invalid"

unfoldable pub validate_canary : Payload → Result Validated
unfolding get is_canary_id
validate_canary p = do
  raise_if
      (not (
        keys_within ("canaryId" ∷ "targetWorkerId" ∷ []) p
        && has_all ("canaryId" ∷ "targetWorkerId" ∷ []) p))
      permanent_job_error "canary payload shape is invalid"
  id ← canary_id_field (field_or "canaryId" null p)
  worker ← text_field false 128 "canary target worker is invalid" (field_or "targetWorkerId" null p)
  ok (canary id (strip worker))

unfoldable pub validate_task : String → Payload → Result Validated
unfolding get
validate_task kind p = do
  raise_if (not (keys_within allowed_payload_fields p)) permanent_job_error
      "payload contains unsupported fields"
  raise_if (not (has_all ("county" ∷ "countyId" ∷ "instrumentType" ∷ "instrumentTypeId" ∷ []) p))
      permanent_job_error "payload is missing required fields"
  county ←
      text_field false 200 "county must be a non-empty bounded string" (field_or "county" null p)
  county_id ← positive_field "countyId must be a positive integer" (field_or "countyId" null p)
  instrument ←
      text_field false 200 "instrumentType must be a non-empty bounded string"
        (field_or "instrumentType" null p)
  instrument_id ←
      positive_field "instrumentTypeId must be a positive integer"
        (field_or "instrumentTypeId" null p)
  platform ← text_field true 64 "platform must be a bounded string" (field_or "platform" (str "") p)
  pages ←
      page_range (field_or "startPage" (int (pos 0)) p)
        (field_or "endPage" (field_or "startPage" (int (pos 0)) p) p)
  retry ← retry_field (field_or "retry" (int (pos 0)) p)
  ok (
      task (record {
        kind = kind;
        county = strip county;
        county_id = county_id;
        instrument_type = strip instrument;
        instrument_type_id = instrument_id;
        start_page = pages.0;
        end_page = pages.1;
        platform = strip platform;
        retry = retry;
      }))

unfoldable pub validate_payload : String → ℕ → Payload → Result Validated
unfolding validate_canary validate_task
validate_payload kind version p = do
  raise_if (not (one_of allowed_job_kinds kind)) permanent_job_error "unsupported job kind"
  raise_if (not (version == supported_payload_version)) permanent_job_error
      "unsupported payload version"
  if str_eq kind "acceptance_canary" then validate_canary p else validate_task kind p
