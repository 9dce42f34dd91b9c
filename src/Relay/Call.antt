-- ===== src/Relay/Call.antt =====
-- relay.py: `RelayClient.call`. The payload is the text of the JSON object without its idempotency
-- key, which stands beside it; `loads` is `json.loads`, `none` where it raises.
use shadowglass_v35_runtime.Common.{
  ℕ, ◌+◌, String, not, ◌&&◌, ◌||◌, Option, none, some, List, [], ◌∷◌, length, take, leb, ltb,
  str_eq, if◌then◌else◌,
}
use shadowglass_v35_runtime.Common.Text
use shadowglass_v35_runtime.Common.Utf8.{encode}
use shadowglass_v35_runtime.Common.Result.{Result, ok, err, relay_error, raise_if}
use shadowglass_v35_runtime.Json.Tree.{Value, Members, object, end, get, truthy_at}
use shadowglass_v35_runtime.Network.{
  Bytes, UrlLib, Exchange, Reply, Network, Net, ◌>>=◌, ◌>>◌, lift,
}
use shadowglass_v35_runtime.Network.Sets.{same_set}
use shadowglass_v35_runtime.Relay.Origin.{RelayClient, pin_addresses}

abbrev pub max_response_bytes : ℕ
max_response_bytes = 2_000_000

-- `FIXED_PATHS.get(action)`
abbrev pub fixed_path : String → Option String
fixed_path action =
    if str_eq action "browser"
    then some "/scrape"
    else if str_eq action "probe"
    then some "/health"
    else none

module _ {N : Type 0} (lib : UrlLib) (net : Network N) (loads : Bytes → Option Value)
    (client : RelayClient) where
  abbrev pub exchange_with : String → String → String → Bytes → String → Exchange
  exchange_with action path key body address =
      let probing = str_eq action "probe" in
      record {
        address = address;
        port = client.port;
        tls = client.secure;
        host = client.host;
        method = if probing then "GET" else "POST";
        target = path;
        headers =
            ("Accept", "application/json")
            ∷ ("Content-Type", "application/json")
            ∷ ("User-Agent", "shadowglass-v35-forge/35")
            ∷ ("X-Idempotency-Key", key)
            ∷ [];
        body = if probing then none else some body;
      }

  abbrev pub or_next : Option Reply × N → Net N (Option Reply) → Result (Option Reply) × N
  or_next (some reply, n) next = (ok (some reply), n)
  or_next (none, n) next = next n

  -- The loop over the addresses: the first that answers.
  unfoldable pub first_reply : (String → Exchange) → List String → Net N (Option Reply)
  first_reply exchange [] n = (ok none, n)
  first_reply exchange (a ∷ rest) n =
      or_next (net.exchange (exchange a) n) (λ n'. first_reply exchange rest n')

  abbrev parsed_body : Bytes → Option Value
  parsed_body [] = some (object end)
  parsed_body (b ∷ bs) = loads (b ∷ bs)

  abbrev response_fields : Option Value → Result Members
  response_fields none = err relay_error "relay returned invalid JSON"
  response_fields (some (object fields)) =
      if truthy_at (get "error" fields)
      then err relay_error "relay reported a browser error"
      else ok fields
  response_fields (some _) = err relay_error "relay returned an invalid response shape"

  -- What follows the loop.
  unfoldable pub response_of : Option Reply → Result Members
  response_of none = err relay_error "relay request failed"
  response_of (some reply) =
      let raw = take (max_response_bytes + 1) reply.content in
      if ltb max_response_bytes (length raw)
      then err relay_error "relay response exceeded the byte limit"
      else if leb 300 reply.status && ltb reply.status 400
      then err relay_error "relay redirects are forbidden"
      else if ltb reply.status 200 || leb 300 reply.status
      then err relay_error "relay returned a non-success status"
      else response_fields (parsed_body raw)

  -- `_assert_dns_pin`
  abbrev pub assert_dns_pin : Net N (Unit {0})
  assert_dns_pin = do
    current ← pin_addresses lib net client.origin
    lift (
        raise_if (not (same_set current client.addresses)) relay_error
          "relay DNS changed during operation")

  abbrev pub send : String → String → String → Bytes → Net N Members
  send action path key body = do
    assert_dns_pin
    lift (raise_if (ltb 128_000 (length body)) relay_error "relay payload is too large")
    reply ← first_reply (exchange_with action path (Text.take 160 key) body) client.addresses
    lift (response_of reply)

  unfoldable pub call : String → String → String → Net N Members
  unfolding pin_addresses first_reply response_of
  call action key payload = elim (fixed_path action) [
    | none ↦ lift (err relay_error "unsupported relay action")
    | some path ↦ send action path key (encode payload)
  ]
