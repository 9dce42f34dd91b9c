-- ===== src/Tests/Web.antt =====
-- Tests of relay.py and scraper.py on a network that notes the exchanges.
use shadowglass_v35_runtime.Common.{
  ℕ, ◌+◌, ◌-◌, ◌≡◌, refl, String, Bool, true, false, Option, none, some, List, [], ◌∷◌, map, All,
  count, length, leb, ◌==◌, ◌&&◌, ◌||◌, str_eq, arith, if◌then◌else◌,
}
use shadowglass_v35_runtime.Common.Int.{pos}
use shadowglass_v35_runtime.Common.Regex.{Unicode}
use shadowglass_v35_runtime.Common.Result.{Result, ok}
use shadowglass_v35_runtime.Common.Utf8.{encode}
use shadowglass_v35_runtime.Database.Context.{JobContext}
use shadowglass_v35_runtime.Json.Tree.{Value, bool, str, object, end, member}
use shadowglass_v35_runtime.Network.{Bytes, Url, UrlLib, Exchange, Network, Net}
use shadowglass_v35_runtime.Network.Traffic.{Kept}
use shadowglass_v35_runtime.Relay.Origin.{RelayClient}
use shadowglass_v35_runtime.Relay.Browse.{browse}
use shadowglass_v35_runtime.Relay.Public.{IsAllowed, browse-IsAllowed}
use shadowglass_v35_runtime.Scraper.Chunks.{
  floor, IsChunk, holds, tyler_chunks, tyler_chunks-IsPartition,
}
use shadowglass_v35_runtime.Scraper.Session.{Session, new_session, request}
use shadowglass_v35_runtime.Scraper.Session.Pinned.{request-IsPinned}
use shadowglass_v35_runtime.Scraper.Session.Traffic.{IsPinned, IsAt, Holds}
use shadowglass_v35_runtime.Scraper.Tables.{Event, start_tag, text_data, end_tag}
use shadowglass_v35_runtime.Scraper.Parse.{parse_public_search}
use shadowglass_v35_runtime.Scraper.Remote.{Trace, ended, beating}
use shadowglass_v35_runtime.Worker.Proc.{ScrapedPage}
use shadowglass_v35_runtime.Scraper.Tyler.{Library}
use shadowglass_v35_runtime.Scraper.Adapter.{scrape}
use shadowglass_v35_runtime.Scraper.Gives.{Gives}
use shadowglass_v35_runtime.Scraper.Pages.{IsBetween, scrape-IsBetween}

-- The exchanges so far, the last one first; every host has one address, and answers a short page.
abbrev Log : Type 0
Log = List Exchange

abbrev page_body : Bytes
page_body = 60 ∷ 112 ∷ 62 ∷ []

abbrev noting : Network Log
noting = record {
  getaddrinfo = λ host port n. (some ("203.0.113.5" ∷ []), n);
  exchange = λ e n.
      (some (record { status = 200; location = ""; cookies = []; content = page_body }), e ∷ n);
}

abbrev county_url : Url
county_url = record {
  scheme = "https";
  netloc = "county.example.org";
  path = "/results";
  query = "limit=50";
  fragment = "";
  hostname = some "county.example.org";
  username = none;
  password = none;
  port = some none;
}

abbrev relay_url : Url
relay_url = record county_url {
  netloc = "relay.internal";
  path = "";
  query = "";
  hostname = some "relay.internal";
}

abbrev urls : UrlLib
urls = record {
  urlsplit = λ s. if str_eq s "https://relay.internal" then some relay_url else some county_url;
  urljoin = λ base path. path;
  is_global = λ a. true;
  is_multicast = λ a. false;
  is_unspecified = λ a. false;
}

abbrev relay : RelayClient
relay = record {
  origin = "https://relay.internal";
  addresses = "203.0.113.5" ∷ [];
  host = "relay.internal";
  port = 443;
  secure = true;
}

-- The Master's answer, of a page that it did not keep.
abbrev master : Bytes → Option Value
master raw = some (
    object
      (member "ok" (bool true) (member "validated" (bool true) (member "rung" (str "L0") end))))

abbrev is_ascii_digit : ℕ → Bool
is_ascii_digit c = leb b'0' c && leb c b'9'

abbrev browsed : Result String × Log
browsed =
    browse urls noting (λ raw. some "<p>") master is_ascii_digit (λ v. "") (λ key n. none) relay
      "https://county.example.org/results?limit=50" "table" []

-- One exchange with the relay, then one with the county.
browse_direct : browsed.0 ≡ ok "<p>"
unfolding browse encode
browse_direct = refl

browse_hosts : length browsed.1 ≡ 2
unfolding browse encode
browse_hosts = refl

abbrev Allowed : Exchange → Type 0
Allowed = IsAllowed urls relay "https://county.example.org/results?limit=50"

browse-IsAllowed_example : All Allowed browsed.1
browse-IsAllowed_example =
    browse-IsAllowed urls noting (λ raw. some "<p>") master is_ascii_digit (λ v. "") (λ key n. none)
      relay "https://county.example.org/results?limit=50" "table" (All Allowed)
      (record { dns_kept = λ host port n h. h; exchange_kept = λ e n fine h. (fine, h) }) [] tt

abbrev session : Session
session = record {
  scheme = "https";
  host = "county.example.org";
  port = 443;
  origin = "https://county.example.org";
  addresses = "203.0.113.5" ∷ [];
  cookies = [];
}

abbrev Pinned : Exchange → Type 0
Pinned = IsPinned urls session

session_made : new_session urls noting "https://county.example.org" [] ≡ (ok session, [])
unfolding new_session
session_made = refl

request-IsPinned_example :
    IsAt urls "https://county.example.org" session
    × Kept (Holds (All Pinned) session) (request urls noting 5 "GET" "/web" [] none)
request-IsPinned_example =
    request-IsPinned urls noting "https://county.example.org" session [] [] session_made
      (All Pinned)
      (record { dns_kept = λ host port n h. h; exchange_kept = λ e n fine h. (fine, h) }) 5 "GET"
      "/web" [] none

-- Ninety-one days make two ranges.
two_chunks : tyler_chunks (floor + 90) ≡ (floor + 1, floor + 90) ∷ (floor, floor) ∷ []
unfolding tyler_chunks
two_chunks = refl

tyler_chunks-IsPartition_example :
    All IsChunk (tyler_chunks (floor + 90))
    × (count (holds (floor + 3)) (tyler_chunks (floor + 90)) ≡ 1)
    × (length (tyler_chunks (floor + 90)) ≡ 2)
tyler_chunks-IsPartition_example = tyler_chunks-IsPartition (floor + 90) (floor + 3)

abbrev ascii : Unicode
ascii = record {
  digit = λ c. if is_ascii_digit c then some (c - 48) else none;
  is_word = λ c. is_ascii_digit c || (leb b'A' c && leb c b'Z') || (leb b'a' c && leb c b'z');
  is_space = λ c. c == 32;
  lower = λ c. if leb b'A' c && leb c b'Z' then c + 32 else c;
}

-- A table of one row, with a sentence of the total.
abbrev document : List Event
document =
    text_data "Total: 61 results"
    ∷ start_tag "tr" (("data-id", some "2024-7") ∷ [])
    ∷ start_tag "td" []
    ∷ text_data "Smith"
    ∷ end_tag "td"
    ∷ start_tag "td" []
    ∷ end_tag "td"
    ∷ start_tag "td" []
    ∷ end_tag "td"
    ∷ start_tag "td" []
    ∷ end_tag "td"
    ∷ start_tag "td" []
    ∷ end_tag "td"
    ∷ start_tag "td" []
    ∷ end_tag "td"
    ∷ start_tag "td" []
    ∷ end_tag "td"
    ∷ end_tag "tr"
    ∷ []

abbrev python : Library
python = record {
  lib = urls;
  casefold = λ s. s;
  upper = λ s. s;
  quote_path = λ s. s;
  urlencode = λ fields. "q";
  ascii = λ s. [];
  decode_replacing = λ raw. "";
  html_events = λ html. document;
  total_pages = λ raw. some (pos 1);
  us_date = λ day. "";
}

abbrev fetched : String → String → Net Log String
fetched url selector n = (ok "<table>", n)

abbrev context : JobContext
context = record {
  county_id = 5;
  county = "Harris";
  base_url = "https://county.example.org";
  platform = "publicsearch";
  instrument_type_id = 8;
  instrument_type = "Deed";
}

total_of_document :
    parse_public_search ascii
      (λ s. s)
      (λ b. "digest")
      (λ html. document)
      (member "html" (str "<table>") end)
    ≡ ok (
      (("id", "2024-7")
            ∷ ("grantor", "Smith")
            ∷ ("grantee", "")
            ∷ ("instrumentType", "")
            ∷ ("recordedDate", "")
            ∷ ("filingDate", "")
            ∷ ("bookPage", "")
            ∷ ("legalDescription", "")
            ∷ ("consideration", "")
            ∷ [])
          ∷ [],
      61,
    )
unfolding parse_public_search
total_of_document = refl

abbrev run : Trace Log (List ScrapedPage)
run = scrape python noting (λ n. floor) ascii (λ b. "digest") fetched context 0 9 []

abbrev page_numbers : Trace Log (List ScrapedPage) → List ℕ
page_numbers (ended (ok pages) n) = map (λ p. p.page) pages
page_numbers (ended r n) = []
page_numbers (beating t) = page_numbers t

-- Page 1 starts below the total of 61, page 2 does not.
run_pages : page_numbers run ≡ 0 ∷ 1 ∷ 2 ∷ []
unfolding scrape
run_pages = refl

scrape-IsBetween_example :
    Gives
      (IsBetween 0 10)
      (scrape python noting (λ n. floor) ascii (λ b. "digest") fetched context 0 9)
scrape-IsBetween_example =
    scrape-IsBetween python noting (λ n. floor) ascii (λ b. "digest") fetched context 0 9
      (omega arith)
