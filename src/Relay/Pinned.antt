-- ===== src/Relay/Pinned.antt =====
-- relay.py: where `RelayClient.call` connects to.
use shadowglass_v35_runtime.Common.{
  ltb, ◌≡◌, refl, inl, inr, String, Option, none, some, List, [], ◌∷◌, length, All, All-implies,
}
use shadowglass_v35_runtime.Common.Sorted.{Has}
use shadowglass_v35_runtime.Common.Text
use shadowglass_v35_runtime.Common.Utf8.{encode}
use shadowglass_v35_runtime.Common.Result.{raise_if, ok, relay_error}
use shadowglass_v35_runtime.Json.Tree.{Value}
use shadowglass_v35_runtime.Network.{Bytes, UrlLib, Exchange, Reply, Network, Net, lift}
use shadowglass_v35_runtime.Network.Traffic.{KeepsTraffic, Kept, Kept-lift, Kept-bind}
use shadowglass_v35_runtime.Relay.Origin.{
  host_of, RelayClient, parsed_origin, pinned, pin_addresses,
}
use shadowglass_v35_runtime.Relay.Call.{
  exchange_with, first_reply, or_next, assert_dns_pin, response_of, send, call,
}

-- A connection to a pinned address of the relay, for its fixed path.
abbrev pub ToRelay : RelayClient → Exchange → Type 0
ToRelay client e =
    Has e.address client.addresses
    × (e.port ≡ client.port)
    × (e.host ≡ client.host)
    × (e.tls ≡ client.secure)
    × (e.target ≡ "/scrape")

pub All_self : (xs : List String) → All (λ a. Has a xs) xs
All_self [] = tt
All_self (x ∷ xs) =
    (inl refl, All-implies (λ a. Has a xs) (λ a. Has a (x ∷ xs)) xs (λ a h. inr h) (All_self xs))

module _ {N : Type 0} (lib : UrlLib) (net : Network N) (loads : Bytes → Option Value)
    (client : RelayClient) (Allowed : Exchange → Type 0) (I : N → Type 0)
    (keeps : KeepsTraffic net Allowed I) where
  pin_addresses-Kept : (origin : String) → Kept I (pin_addresses lib net origin)
  unfolding pin_addresses
  pin_addresses-Kept origin =
      Kept-bind I (lift (parsed_origin lib origin)) _ (Kept-lift I (parsed_origin lib origin))
        λ (url, port).
          Kept-bind I (λ n. let (a, n') = net.getaddrinfo (host_of url) port n in (ok a, n')) _
            (record { at = λ n h. keeps.dns_kept (host_of url) port n h })
            λ answers. Kept-lift I (pinned lib answers)

  or_next-Kept :
      (answer : Option Reply × N) (next : Net N (Option Reply))
      → Kept I next
      → I answer.1
      → I (or_next lib net loads client answer next).1
  or_next-Kept (none, n) next k h = k.at n h
  or_next-Kept (some reply, n) next k h = h

  first_reply-Kept :
      (exchange : String → Exchange) (addresses : List String)
      → All (λ a. Allowed (exchange a)) addresses
      → Kept I (first_reply lib net loads client exchange addresses)
  unfolding first_reply
  first_reply-Kept exchange [] allowed = record { at = λ n h. h }
  first_reply-Kept exchange (a ∷ rest) (fine, allowed) = record {
    at = λ n h.
        or_next-Kept (net.exchange (exchange a) n) (first_reply lib net loads client exchange rest)
          (first_reply-Kept exchange rest allowed) (keeps.exchange_kept (exchange a) n fine h);
  }

  assert_dns_pin-Kept : Kept I (assert_dns_pin lib net loads client)
  assert_dns_pin-Kept =
      Kept-bind I (pin_addresses lib net client.origin) _ (pin_addresses-Kept client.origin)
        λ current. Kept-lift I _

  send-Kept :
      (action path key : String) (body : Bytes)
      → All
          (λ a. Allowed (exchange_with lib net loads client action path (Text.take 160 key) body a))
          client.addresses
      → Kept I (send lib net loads client action path key body)
  send-Kept action path key body allowed =
      Kept-bind I (assert_dns_pin lib net loads client) _ assert_dns_pin-Kept λ _.
        Kept-bind I
          (lift (raise_if (ltb 128_000 (length body)) relay_error "relay payload is too large")) _
          (Kept-lift I _)
          λ _.
            Kept-bind I
              (first_reply lib net loads client
                (exchange_with lib net loads client action path (Text.take 160 key) body)
                client.addresses)
              _
              (first_reply-Kept
                (exchange_with lib net loads client action path (Text.take 160 key) body)
                client.addresses allowed)
              λ reply. Kept-lift I (response_of lib net loads client reply)

  -- The call of the fixed path "/scrape" that `browse` makes.
  pub call-Kept :
      (key payload : String)
      → ((e : Exchange) → ToRelay client e → Allowed e)
      → Kept I (call lib net loads client "browser" key payload)
  unfolding call
  call-Kept key payload relayed =
      let body = encode payload in
      send-Kept "browser" "/scrape" key body (
        All-implies (λ a. Has a client.addresses)
          (λ a.
            Allowed
              (exchange_with lib net loads client "browser" "/scrape" (Text.take 160 key) body a))
          client.addresses (λ a listed. relayed _ (listed, refl, refl, refl, refl))
          (All_self client.addresses))
