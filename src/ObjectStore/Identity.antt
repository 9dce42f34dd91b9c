-- ===== src/ObjectStore/Identity.antt =====
-- object_store.py: the keys, the bodies and the metadata of the objects.
use Prim.Native.Char.{code}
use shadowglass_v35_runtime.Common.{
  ℕ, ◌-◌, String, Bool, true, false, ◌&&◌, ◌||◌, [], ◌∷◌, leb, if◌then◌else◌,
}
use shadowglass_v35_runtime.Common.Int.{ℤ, pos, ltb_ℤ}
use shadowglass_v35_runtime.Common.Text.{
  length, is_space, is_empty, strip, take, show, show_ℤ, includes, replicate,
}
use shadowglass_v35_runtime.Common.Result.{Result, ok, object_store_error, raise_if, ◌>>◌}
use shadowglass_v35_runtime.Json.Dumps.{◌<>◌, quote, dump_object}
use shadowglass_v35_runtime.Worker.Payload.{is_canary_id}

-- `[a-z0-9]`
abbrev is_slug : ℕ → Bool
is_slug c = (leb b'a' c && leb c b'z') || (leb b'0' c && leb c b'9')

-- `re.sub(r"[^a-z0-9]+", "-", s).strip("-")`: `started` once a kept character was seen, `gap` once
-- another was seen after it.
slug_from : Bool → Bool → String → String
slug_from started gap String.[] = ""
slug_from started gap (String.◌∷◌ c s) =
    let kept = is_slug (code c) in
    let rest = slug_from (if kept then true else started) (if kept then false else started) s in
    if kept then if gap then "-" <> String.◌∷◌ c rest else String.◌∷◌ c rest else rest

unfoldable pub slug : (String → String) → String → Result String
unfolding slug_from
slug casefold value =
    let result = take 80 (slug_from false false (casefold value)) in
    do
      raise_if (is_empty result) object_store_error "object identity cannot be normalized"
      ok result

-- `re.sub(r"\s+", "_", s)`: `space` after a white space.
underscored_from : Bool → String → String
underscored_from space String.[] = ""
underscored_from space (String.◌∷◌ c s) =
    let blank = is_space (code c) in
    let rest = underscored_from blank s in
    if blank then if space then rest else "_" <> rest else String.◌∷◌ c rest

unfoldable pub underscored : String → String
unfolding underscored_from is_space
underscored s = underscored_from false s

-- `f"{page:06d}"`
unfoldable pub six_digits : ℕ → String
unfolding show
six_digits n = let digits = show n in replicate (6 - length digits) "0" <> digits

abbrev six_digits_ℤ : ℤ → String
six_digits_ℤ (pos n) = six_digits n
six_digits_ℤ n = show_ℤ n

abbrev pub has_separator : String → Bool
has_separator s = includes s "/" || includes s "\\" || includes s ".."

unfoldable pub page_key : (String → String) → String → String → ℤ → String → Result String
unfolding strip underscored six_digits
page_key casefold county instrument_type page platform =
    let county_segment = strip county in
    let instrument_segment = underscored (strip instrument_type) in
    let platform_prefix = if includes (casefold platform) "tyler" then "TYLER/" else "" in
    do
      raise_if (ltb_ℤ page (pos 0) || has_separator (county <> instrument_type)) object_store_error
          "object identity contains a path separator"
      raise_if (is_empty county_segment || is_empty instrument_segment) object_store_error
          "object identity is empty"
      ok (
          "SHADOWGLASS_V35/"
          <> platform_prefix
          <> county_segment
          <> "/"
          <> instrument_segment
          <> "/page_"
          <> six_digits_ℤ page
          <> ".json")

unfoldable pub canary_key : String → Result String
unfolding is_canary_id
canary_key id = do
  raise_if (if is_canary_id id then false else true) object_store_error "canary identity is invalid"
  ok ("_acceptance_canary/v1/" <> id <> ".json")

-- `_canary_body`, before its encoding
unfoldable pub canary_body : String → String
unfolding quote dump_object
canary_body id =
    dump_object (
      ("canary_id", quote id) ∷ ("schema_version", "1") ∷ ("service", quote "shadowglass-v35") ∷ [])
