-- ===== src/Relay/Browse.antt =====
-- relay.py: `RelayClient.browse` and `_direct_public_get`. `artifact` reads an object of the Master's
-- bucket, `none` where it raises; `decode` is UTF-8, `none` where it raises; `\d` matches Unicode's
-- decimal digits, `is_decimal`; `repr` is the text of a JSON value that is no text.
use Prim.Native.String
use shadowglass_v35_runtime.Common.{
  ℕ, zero, suc, ◌+◌, String, Bool, false, not, ◌&&◌, ◌||◌, Option, none, some, List, [], ◌∷◌,
  length, take, any, leb, ltb, ◌==◌, str_eq, is_some, if◌then◌else◌,
}
use shadowglass_v35_runtime.Common.Text
use shadowglass_v35_runtime.Common.Text.{is_empty, strip, ends_with, matches}
use shadowglass_v35_runtime.Common.Result.{Result, ok, err, relay_error, raise_if}
use shadowglass_v35_runtime.Json.Dumps.{dump_object, quote_ascii}
use shadowglass_v35_runtime.Json.Tree.{Value, Members, object, str, get, truthy_at, text}
use shadowglass_v35_runtime.Network.{
  Bytes, Url, UrlLib, urlunsplit, Exchange, Reply, Network, Net, ◌>>=◌, ◌>>◌, lift,
}
use shadowglass_v35_runtime.Network.Sets.{set_of, same_set}
use shadowglass_v35_runtime.Relay.Origin.{is_http, host_of, port_of, RelayClient}
use shadowglass_v35_runtime.Relay.Call.{max_response_bytes, call}

-- `MASTER_ARTIFACT_KEY`
abbrev is_char : ℕ → ℕ → Bool
is_char c d = c == d

abbrev is_hex : ℕ → Bool
is_hex c = (leb b'0' c && leb c b'9') || (leb b'a' c && leb c b'f')

abbrev times : ℕ → (ℕ → Bool) → List (ℕ → Bool) → List (ℕ → Bool)
times zero p rest = rest
times (suc n) p rest = p ∷ times n p rest

unfoldable pub is_artifact_key : (ℕ → Bool) → String → Bool
unfolding matches
is_artifact_key is_decimal = matches (
    times 4 is_decimal (
      is_char b'/'
      ∷ times 2 is_decimal (
          is_char b'/'
          ∷ times 2 is_decimal (
              is_char b'/'
              ∷ times 16 is_hex (
                  is_char b'.' ∷ is_char b'h' ∷ is_char b't' ∷ is_char b'm' ∷ is_char b'l' ∷ [])))))

-- What a page must be: at most so many bytes, UTF-8, and not blank.
abbrev pub page_text : (Bytes → Option String) → String → Bytes → Result String
page_text decode what raw =
    if ltb max_response_bytes (length raw)
    then err relay_error (String.◌++◌ what " exceeded the byte limit")
    else elim (decode raw) [
      | none ↦ err relay_error (String.◌++◌ what " is not UTF-8")
      | some html ↦
          if is_empty (strip html) then err relay_error (String.◌++◌ what " is empty") else ok html
    ]

module _ {N : Type 0} (lib : UrlLib) (net : Network N) (decode : Bytes → Option String) where
  abbrev pub direct_exchange : Url → ℕ → String → Exchange
  direct_exchange url port address = record {
    address = address;
    port = port;
    tls = str_eq url.scheme "https";
    host = host_of url;
    method = "GET";
    target = urlunsplit "" "" (if is_empty url.path then "/" else url.path) url.query;
    headers =
        ("Accept", "text/html,application/xhtml+xml")
        ∷ ("Host", host_of url)
        ∷ ("User-Agent", "shadowglass-v35-forge/35")
        ∷ [];
    body = none;
  }

  -- A reply of the target: its size is tested before its status.
  abbrev pub direct_page : Reply → Result String
  direct_page reply =
      let raw = take (max_response_bytes + 1) reply.content in
      if ltb max_response_bytes (length raw)
      then err relay_error "validated page exceeded the byte limit"
      else if leb 300 reply.status && ltb reply.status 400
      then err relay_error "validated page redirects are forbidden"
      else if ltb reply.status 200 || leb 300 reply.status
      then err relay_error "validated page returned a non-success status"
      else page_text decode "validated page" raw

  abbrev pub page_or_next : Option Reply × N → Net N String → Result String × N
  page_or_next (some reply, n) next = (direct_page reply, n)
  page_or_next (none, n) next = next n

  unfoldable pub direct_loop : (String → Exchange) → List String → Net N String
  unfolding strip
  direct_loop exchange [] n = (err relay_error "validated page retrieval failed", n)
  direct_loop exchange (a ∷ rest) n =
      page_or_next (net.exchange (exchange a) n) (λ n'. direct_loop exchange rest n')

  abbrev pub revalidated : List String → Option (List String) → Result (Unit {0})
  revalidated addresses none = err relay_error "browser target DNS revalidation failed"
  revalidated addresses (some answers) =
      raise_if (not (same_set (set_of answers) addresses)) relay_error
        "browser target DNS changed during operation"

  abbrev pub resolve : String → ℕ → Net N (Option (List String))
  resolve host port n = let (answers, n') = net.getaddrinfo host port n in (ok answers, n')

  -- `_direct_public_get`, of a URL that was parsed.
  unfoldable pub direct_public_get : Url → ℕ → List String → Net N String
  unfolding direct_loop set_of urlunsplit
  direct_public_get url port addresses = do
    answers ← resolve (host_of url) port
    lift (revalidated addresses answers)
    direct_loop (direct_exchange url port) addresses

  abbrev pub validated_addresses : Option (List String) → Result (List String)
  validated_addresses none = err relay_error "browser target DNS validation failed"
  validated_addresses (some answers) =
      let addresses = set_of answers in
      if length addresses == 0 || any (λ a. not (lib.is_global a)) addresses
      then err relay_error "browser target is not exclusively public"
      else ok addresses

  -- The URL is split and its port is read in one `try`.
  abbrev pub parsed_target : Option Url → Result (Url × ℕ)
  parsed_target none = err relay_error "browser target URL is invalid"
  parsed_target (some url) = elim (port_of url) [
    | ok port ↦ ok (url, port)
    | err e m ↦ err relay_error "browser target URL is invalid"
  ]

  abbrev pub checked_target : String → Url × ℕ → Result (Url × ℕ)
  checked_target wait_for (url, port) =
      if not (is_http url.scheme)
        || is_empty (host_of url)
        || is_some url.username
        || is_some url.password
        || not (is_empty url.fragment)
        || is_empty wait_for
        || ltb 200 (Text.length wait_for)
      then err relay_error "browser target URL is invalid"
      else ok (url, port)

  -- The request to the Master.
  abbrev pub request_text : String → String → String
  request_text target_url wait_for = dump_object (
      ("url", quote_ascii target_url)
      ∷ ("wait_selector", quote_ascii wait_for)
      ∷ ("screenshot", "false")
      ∷ ("ingest", "false")
      ∷ ("max_rung", quote_ascii "L6")
      ∷ ("min_len", "500")
      ∷ [])

  module _ (loads : Bytes → Option Value) (is_decimal : ℕ → Bool) (repr : Value → String)
      (artifact : String → N → Option Bytes) (client : RelayClient) where
    -- `artifacts.get("html_key") if isinstance(artifacts, dict) else None`
    abbrev pub html_key : Option Value → Option String
    html_key (some (object artifacts)) = text (get "html_key" artifacts)
    html_key _ = none

    -- `str(result.get("run_id", ""))`
    abbrev pub run_id : Option Value → String
    run_id none = ""
    run_id (some (str s)) = s
    run_id (some v) = repr v

    abbrev pub artifact_page : Option Bytes → Result String
    artifact_page none = err relay_error "ShadowGlass Master artifact could not be read"
    artifact_page (some content) =
        page_text decode "ShadowGlass Master artifact" (take (max_response_bytes + 1) content)

    abbrev pub read_artifact : Members → String → Net N String
    read_artifact result key =
        if ends_with key (String.◌++◌ "/" (String.◌++◌ (run_id (get "run_id" result)) ".html"))
        then (λ n. (artifact_page (artifact key n), n))
        else lift (err relay_error "ShadowGlass Master artifact identity is inconsistent")

    abbrev pub is_rung : Option String → Bool
    is_rung none = false
    is_rung (some s) = str_eq s "L0"

    abbrev pub without_artifact : Members → Url → ℕ → List String → Net N String
    without_artifact result url port addresses =
        if is_rung (text (get "rung" result))
        then direct_public_get url port addresses
        else lift (err relay_error "ShadowGlass Master returned no valid HTML artifact")

    abbrev pub artifact_of : Option String → Option String
    artifact_of none = none
    artifact_of (some key) = if is_artifact_key is_decimal key then some key else none

    abbrev pub fetched : Members → Url → ℕ → List String → Option String → Net N String
    fetched result url port addresses none = without_artifact result url port addresses
    fetched result url port addresses (some key) = read_artifact result key

    -- `browse`: the HTML of the target.
    unfoldable pub browse : String → String → Net N String
    unfolding call direct_public_get is_artifact_key dump_object quote_ascii set_of strip
    browse target_url wait_for = do
      split ← lift (parsed_target (lib.urlsplit target_url))
      (url, port) ← lift (checked_target wait_for split)
      answers ← resolve (host_of url) port
      addresses ← lift (validated_addresses answers)
      result ← call lib net loads client "browser" "" (request_text target_url wait_for)
      lift (
          raise_if (not (truthy_at (get "ok" result)) || not (truthy_at (get "validated" result)))
            relay_error "ShadowGlass Master did not validate the page")
      fetched result url port addresses (artifact_of (html_key (get "artifacts" result)))
