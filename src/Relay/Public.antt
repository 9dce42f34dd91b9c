-- ===== src/Relay/Public.antt =====
-- relay.py: where `browse` connects to.
use shadowglass_v35_runtime.Common.{
  ℕ, ◌≡◌, ◌⊎◌, inl, inr, refl, String, Bool, true, false, not, ◌||◌, Option, none, some, List, [],
  ◌∷◌, any, length, All, All-implies, ap, ◌∙◌, Bool-cases, ◌==◌, arith,
}
use Prim.Native.String
use shadowglass_v35_runtime.Common.Text.{ends_with}
use shadowglass_v35_runtime.Common.Result.{ok, relay_error, raise_if}
use shadowglass_v35_runtime.Json.Tree.{Value, Members, get, truthy_at, text}
use shadowglass_v35_runtime.Network.{Bytes, Url, UrlLib, Exchange, Reply, Network, Net, lift}
use shadowglass_v35_runtime.Network.Sets.{set_of}
use shadowglass_v35_runtime.Network.Traffic.{
  KeepsTraffic, Kept, Kept-lift, Kept-if, Kept-bind, Kept-lifted,
}
use shadowglass_v35_runtime.Relay.Origin.{host_of, RelayClient}
use shadowglass_v35_runtime.Relay.Call.{call}
use shadowglass_v35_runtime.Relay.Browse.{
  direct_exchange, page_or_next, direct_loop, resolve, revalidated, direct_public_get,
  validated_addresses, parsed_target, checked_target, request_text, fetched, is_rung, run_id,
  html_key, artifact_of, browse,
}
use shadowglass_v35_runtime.Relay.Pinned.{ToRelay, call-Kept}

-- A connection to a public address, for the host of the target.
abbrev pub ToTarget : UrlLib → String → Exchange → Type 0
ToTarget lib target_url e =
    (url : Url) × (lib.urlsplit target_url ≡ some url)
    × (e.host ≡ host_of url)
    × (lib.is_global e.address ≡ true)
    × (e.method ≡ "GET")

abbrev pub IsAllowed : UrlLib → RelayClient → String → Exchange → Type 0
IsAllowed lib client target_url e = ToRelay client e ⊎ ToTarget lib target_url e

pub all_global :
    (test : String → Bool) (xs : List String)
    → any (λ a. not (test a)) xs ≡ false
    → All (λ a. test a ≡ true) xs
all_global test [] h = tt
all_global test (x ∷ xs) h = (ground arith, all_global test xs (ground arith))

module _ {N : Type 0} (lib : UrlLib) (net : Network N) (decode : Bytes → Option String)
    (Allowed : Exchange → Type 0) (I : N → Type 0) (keeps : KeepsTraffic net Allowed I) where
  resolve-Kept : (host : String) (port : ℕ) → Kept I (resolve lib net decode host port)
  resolve-Kept host port = record { at = λ n h. keeps.dns_kept host port n h }

  page_or_next-Kept :
      (answer : Option Reply × N) (next : Net N String)
      → Kept I next
      → I answer.1
      → I (page_or_next lib net decode answer next).1
  page_or_next-Kept (none, n) next k h = k.at n h
  page_or_next-Kept (some reply, n) next k h = h

  direct_loop-Kept :
      (exchange : String → Exchange) (addresses : List String)
      → All (λ a. Allowed (exchange a)) addresses
      → Kept I (direct_loop lib net decode exchange addresses)
  unfolding direct_loop
  direct_loop-Kept exchange [] allowed = record { at = λ n h. h }
  direct_loop-Kept exchange (a ∷ rest) (fine, allowed) = record {
    at = λ n h.
        page_or_next-Kept (net.exchange (exchange a) n) (direct_loop lib net decode exchange rest)
          (direct_loop-Kept exchange rest allowed) (keeps.exchange_kept (exchange a) n fine h);
  }

  direct_public_get-Kept :
      (url : Url) (port : ℕ) (addresses : List String)
      → All (λ a. Allowed (direct_exchange lib net decode url port a)) addresses
      → Kept I (direct_public_get lib net decode url port addresses)
  unfolding direct_public_get
  direct_public_get-Kept url port addresses allowed =
      Kept-bind I (resolve lib net decode (host_of url) port) _ (resolve-Kept (host_of url) port)
        λ answers.
          Kept-bind I (lift (revalidated lib net decode addresses answers)) _ (Kept-lift I _)
            λ _. direct_loop-Kept (direct_exchange lib net decode url port) addresses allowed

  -- The addresses that `browse` accepts are global.
  validated-global :
      (answers : Option (List String)) (addresses : List String)
      → validated_addresses lib net decode answers ≡ ok addresses
      → All (λ a. lib.is_global a ≡ true) addresses
  validated-global none addresses e = cc
  validated-global (some found) addresses e =
      elim (Bool-cases
        (length (set_of found) == 0 || any (λ a. not (lib.is_global a)) (set_of found))) [
          | inl refused ↦ (let e' = rw refused at e in cc)
          | inr passed ↦
              let e' = rw passed at e in
              let same : set_of found ≡ addresses = ground arith in
              rw (← same) (all_global lib.is_global (set_of found) (ground arith))
        ]

  -- The target that `browse` accepts is the one that was given.
  parsed-target :
      (split : Option Url) (url : Url) (port : ℕ)
      → parsed_target lib net decode split ≡ ok (url, port)
      → split ≡ some url
  parsed-target none url port e = cc
  parsed-target (some given) url port e = ground arith

  checked-target :
      (wait_for : String) (split : Url × ℕ) (url : Url) (port : ℕ)
      → checked_target lib net decode wait_for split ≡ ok (url, port)
      → split ≡ (url, port)
  checked-target wait_for (given, p) url port e = ground arith

module _ {N : Type 0} (lib : UrlLib) (net : Network N) (decode : Bytes → Option String)
    (loads : Bytes → Option Value) (is_decimal : ℕ → Bool) (repr : Value → String)
    (artifact : String → N → Option Bytes) (client : RelayClient) (target_url wait_for : String)
    (I : N → Type 0) (keeps : KeepsTraffic net (IsAllowed lib client target_url) I) where
  fetched-Kept :
      (result : Members) (url : Url) (port : ℕ) (addresses : List String) (key : Option String)
      → lib.urlsplit target_url ≡ some url
      → All (λ a. lib.is_global a ≡ true) addresses
      → Kept I (
          fetched lib net decode loads is_decimal repr artifact client result url port addresses
            key)
  fetched-Kept result url port addresses none split public =
      Kept-if I
        (is_rung lib net decode loads is_decimal repr artifact client (text (get "rung" result))) _
        _
        (direct_public_get-Kept lib net decode (IsAllowed lib client target_url) I keeps url port
          addresses
          (All-implies (λ a. lib.is_global a ≡ true)
            (λ a. IsAllowed lib client target_url (direct_exchange lib net decode url port a))
            addresses (λ a global. inr (url, split, refl, global, refl)) public))
        (Kept-lift I _)
  fetched-Kept result url port addresses (some key) split public =
      Kept-if I
        (ends_with key (
          String.◌++◌ "/" (
            String.◌++◌
              (run_id lib net decode loads is_decimal repr artifact client (get "run_id" result))
              ".html")))
        _ _ (record { at = λ n h. h }) (Kept-lift I _)

  -- Every connection that `browse` makes goes to a pinned address of the relay, for the host, the
  -- port and the fixed path of the relay, or to an address that is global, for the host of the URL that
  -- was asked for, by GET. So whatever DNS queries and such connections keep, `browse` keeps, on
  -- every path.
  pub browse-IsAllowed :
      (n : N)
      → I n
      → I (browse lib net decode loads is_decimal repr artifact client target_url wait_for n).1
  unfolding browse
  browse-IsAllowed =
      (Kept-lifted I (parsed_target lib net decode (lib.urlsplit target_url)) _ λ (url, port) e.
        let split =
          parsed-target lib net decode (IsAllowed lib client target_url) I keeps
            (lib.urlsplit target_url) url port e in
        Kept-lifted I (checked_target lib net decode wait_for (url, port)) _ λ (url', port') e'.
          let same =
            checked-target lib net decode (IsAllowed lib client target_url) I keeps wait_for
              (url, port) url' port' e' in
          let split' : lib.urlsplit target_url ≡ some url' =
            split ∙ ap (λ (x : Url × ℕ). some x.0) same in
          Kept-bind I (resolve lib net decode (host_of url') port') _
            (resolve-Kept lib net decode (IsAllowed lib client target_url) I keeps (host_of url')
              port')
            λ answers.
              Kept-lifted I (validated_addresses lib net decode answers) _ λ addresses valid.
                Kept-bind I
                  (call lib net loads client "browser" ""
                    (request_text lib net decode target_url wait_for))
                  _
                  (call-Kept lib net loads client (IsAllowed lib client target_url) I keeps ""
                    (request_text lib net decode target_url wait_for) (λ x relayed. inl relayed))
                  λ result.
                    Kept-bind I
                      (lift (
                        raise_if
                          (not (truthy_at (get "ok" result))
                            || not (truthy_at (get "validated" result)))
                          relay_error "ShadowGlass Master did not validate the page"))
                      _ (Kept-lift I _)
                      λ _.
                        fetched-Kept result url' port' addresses
                          (artifact_of lib net decode loads is_decimal repr artifact client (
                            html_key lib net decode loads is_decimal repr artifact client
                              (get "artifacts" result)))
                          split'
                          (validated-global lib net decode (IsAllowed lib client target_url) I keeps
                            answers addresses valid)).at
