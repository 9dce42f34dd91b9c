-- ===== src/Scraper/Parse.antt =====
-- scraper.py: `parse_public_search` and `public_search_url`.
use Prim.Native.String
use shadowglass_v35_runtime.Common.{
  ℕ, ◌*◌, String, not, ◌||◌, Option, none, some, List, [], ◌∷◌, filter, length, ltb, ◌==◌,
  if◌then◌else◌,
}
use shadowglass_v35_runtime.Common.Regex.{
  Unicode, Piece, run, words, boundary, open_group, close_group, search_group, is_digit, int_of,
}
use shadowglass_v35_runtime.Common.Result.{
  Result, ok, err, value_error, scrape_error, raise_if, ◌>>=◌, ◌>>◌,
}
use shadowglass_v35_runtime.Common.Text.{collapse, strip, is_empty, show, rstrip_char}
use shadowglass_v35_runtime.Database.Context.{JobContext}
use shadowglass_v35_runtime.Database.Scrape.{Record}
use shadowglass_v35_runtime.Json.Tree.{Value, Members, str, get, truthy_at}
use shadowglass_v35_runtime.Network.{Url, UrlLib, urlunsplit}
use shadowglass_v35_runtime.Relay.Origin.{is_http, host_of}
use shadowglass_v35_runtime.Scraper.Tables.{
  Event, new_table, feed_table, join, public_record, row_records, extracted_records,
}

module _ (u : Unicode) where
  abbrev digits_run : ℕ → Piece
  digits_run least = run (is_digit u) least none

  abbrev spaces : ℕ → Piece
  spaces least = run u.is_space least none

  -- `([\d,]+)`
  abbrev counted : List Piece → List Piece
  counted rest = open_group ∷ run (λ c. is_digit u c || c == b',') 1 none ∷ close_group ∷ rest

  -- `\b\d+\s*-\s*\d+\s+of\s+([\d,]+)\s+results\b`
  abbrev pub range_pattern : List Piece
  range_pattern =
      boundary
      ∷ digits_run 1
      ∷ spaces 0
      ∷ words ("-" ∷ [])
      ∷ spaces 0
      ∷ digits_run 1
      ∷ spaces 1
      ∷ words ("of" ∷ [])
      ∷ spaces 1
      ∷ counted (spaces 1 ∷ words ("results" ∷ []) ∷ boundary ∷ [])

  -- `\b(?:total|found|showing)\D{0,20}([\d,]+)\s+(?:results|records|documents)\b`
  abbrev pub total_pattern : List Piece
  total_pattern =
      boundary
      ∷ words ("total" ∷ "found" ∷ "showing" ∷ [])
      ∷ run (λ c. not (is_digit u c)) 0 (some 20)
      ∷ counted (spaces 1 ∷ words ("results" ∷ "records" ∷ "documents" ∷ []) ∷ boundary ∷ [])

  -- `int(match.group(1).replace(",", ""))`
  abbrev int_group : List ℕ → Result ℕ
  int_group group = elim (int_of u.digit (filter (λ c. not (c == b',')) group)) [
    | none ↦ err value_error "invalid literal for int() with base 10"
    | some n ↦ ok n
  ]

  -- The loop over the patterns.
  unfoldable pub found_total : String → Result ℕ
  unfolding search_group int_of
  found_total text = elim (search_group u range_pattern text) [
    | some group ↦ int_group group
    | none ↦ elim (search_group u total_pattern text) [ some group ↦ int_group group | none ↦ ok 0 ]
  ]

  module _ (casefold : String → String) (sha256 : List ℕ → String)
      (html_events : String → List Event) where
    abbrev pub max : ℕ → ℕ → ℕ
    max a b = if ltb a b then b else a

    -- With HTML that is usable: the rows, unless records were extracted, and the total of the text.
    abbrev pub parse_html : List Record → String → Result (List Record × ℕ)
    parse_html extracted html =
        let table = feed_table casefold (html_events html) new_table in
        let records = if length extracted == 0 then row_records sha256 table.rows else extracted in
        do
          total ← found_total (collapse (join " " table.texts))
          ok (records, max total (length records))

    abbrev pub without_html : List Record → Result (List Record × ℕ)
    without_html [] = err scrape_error "relay response contains no usable HTML"
    without_html (r ∷ rs) = ok (r ∷ rs, length (r ∷ rs))

    abbrev pub usable : List Record → Option Value → Result (List Record × ℕ)
    usable extracted (some (str html)) =
        if is_empty (strip html) then without_html extracted else parse_html extracted html
    usable extracted _ = without_html extracted

    abbrev html_of : Members → Option Value
    html_of payload =
        if truthy_at (get "html" payload) then get "html" payload else get "content" payload

    unfoldable pub parse_public_search : Members → Result (List Record × ℕ)
    unfolding feed_table public_record found_total collapse strip
    parse_public_search payload = do
      raise_if (truthy_at (get "error" payload)) scrape_error "relay reported a browser error"
      usable (extracted_records sha256 (get "extracted" payload)) (html_of payload)

-- `public_search_url`; `urlencode` is `urllib.parse.urlencode`. The page is not negative.
abbrev pub page_url : (List (String × String) → String) → JobContext → ℕ → Url → String
page_url urlencode c page url =
    urlunsplit url.scheme url.netloc (String.◌++◌ (rstrip_char b'/' url.path) "/results") (
      urlencode (
        ("department", "RP")
        ∷ ("limit", "50")
        ∷ ("offset", show (page * 50))
        ∷ ("recordedDateRange", ",")
        ∷ ("searchOcrText", "false")
        ∷ ("searchType", c.instrument_type)
        ∷ []))

abbrev split_county : Option Url → Result Url
split_county none = err value_error "Invalid URL"
split_county (some url) =
    if not (is_http url.scheme) || is_empty (host_of url)
    then err scrape_error "county base URL is invalid"
    else ok url

unfoldable pub public_search_url :
    UrlLib → (List (String × String) → String) → JobContext → ℕ → Result String
unfolding urlunsplit show rstrip_char
public_search_url lib urlencode c page = do
  url ← split_county (lib.urlsplit c.base_url)
  ok (page_url urlencode c page url)
