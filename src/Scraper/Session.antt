-- ===== src/Scraper/Session.antt =====
-- scraper.py: `_addresses` and `PinnedSession`.
pub mod Pinned
pub mod Traffic
use Prim.Native.String
use shadowglass_v35_runtime.Common.{
  ℕ, zero, suc, ◌+◌, String, Bool, true, false, not, ◌&&◌, ◌||◌, Option, none, some, List, [], ◌∷◌,
  length, take, any, leb, ltb, ◌==◌, str_eq, if◌then◌else◌,
}
use shadowglass_v35_runtime.Common.Text.{is_empty}
use shadowglass_v35_runtime.Common.Result.{Result, ok, err, value_error, scrape_error, raise_if}
use shadowglass_v35_runtime.Json.Dumps.{sort_keys}
use shadowglass_v35_runtime.Network.{
  Bytes, Url, UrlLib, urlunsplit, Exchange, Reply, Network, Net, ◌>>=◌, ◌>>◌, pure, lift,
}
use shadowglass_v35_runtime.Network.Sets.{set_of, same_set}
use shadowglass_v35_runtime.Relay.Origin.{is_http, host_of, port_of}

abbrev pub max_response_bytes : ℕ
max_response_bytes = 8_000_000

-- `PinnedSession`'s fields; the timeout is the network's.
pub record Session : Type 0 where
  pub scheme : String
  pub host : String
  pub port : ℕ
  pub origin : String
  pub addresses : List String
  pub cookies : List (String × String)

-- A session and the world outside.
pub record Web (N : Type 0) : Type 0 where
  pub session : Session
  pub outside : N

-- `d[key] = value`
abbrev pub set_item : String → String → List (String × String) → List (String × String)
set_item k v [] = (k, v) ∷ []
set_item k v ((j, w) ∷ d) = if str_eq j k then (k, v) ∷ d else (j, w) ∷ set_item k v d

-- `d.update(items)`
abbrev pub update : List (String × String) → List (String × String) → List (String × String)
update [] d = d
update ((k, v) ∷ items) d = update items (set_item k v d)

-- The Cookie header
abbrev cookie_text : List (String × String) → String
cookie_text [] = ""
cookie_text ((k, v) ∷ []) = String.◌++◌ k (String.◌++◌ "=" v)
cookie_text ((k, v) ∷ (j, w) ∷ d) =
    String.◌++◌ k (String.◌++◌ "=" (String.◌++◌ v (String.◌++◌ "; " (cookie_text ((j, w) ∷ d)))))

unfoldable pub request_headers : Session → List (String × String) → List (String × String)
request_headers s headers =
    let own = update headers (("User-Agent", "ShadowGlass-v35-Forge/35") ∷ ("Host", s.host) ∷ []) in
    elim s.cookies [ [] ↦ own | c ∷ cs ↦ set_item "Cookie" (cookie_text (sort_keys (c ∷ cs))) own ]

module _ (lib : UrlLib) where
  abbrev pub public_addresses : Option (List String) → Result (List String)
  public_addresses none = err scrape_error "county origin DNS resolution failed"
  public_addresses (some answers) =
      let result = set_of answers in
      if length result == 0 || any (λ a. not (lib.is_global a)) result
      then err scrape_error "county origin did not resolve exclusively to public addresses"
      else ok result

  abbrev pub opened : Url → ℕ → List String → Session
  opened url port addresses = record {
    scheme = url.scheme;
    host = host_of url;
    port = port;
    origin = urlunsplit url.scheme url.netloc "" "";
    addresses = addresses;
    cookies = [];
  }

  abbrev pub origin_url : Option Url → Result Url
  origin_url none = err value_error "Invalid URL"
  origin_url (some url) =
      if not (is_http url.scheme) || is_empty (host_of url)
      then err scrape_error "county origin is invalid"
      else ok url

  module _ {N : Type 0} (net : Network N) where
    -- `_addresses`
    unfoldable pub addresses_of : String → ℕ → Net N (List String)
    unfolding set_of
    addresses_of host port = do
      answers ← (λ n. let (a, n') = net.getaddrinfo host port n in (ok a, n'))
      lift (public_addresses answers)

    -- `PinnedSession.__init__`
    unfoldable pub new_session : String → Net N Session
    unfolding addresses_of urlunsplit
    new_session base_url = do
      url ← lift (origin_url (lib.urlsplit base_url))
      port ← lift (port_of url)
      addresses ← addresses_of (host_of url) port
      pure (opened url port addresses)

    -- An operation of the world outside, with the session beside it.
    abbrev pub outside : {A : Type 0} → Net N A → Net (Web N) A
    outside m w = let (r, n) = m w.outside in (r, record w { outside = n })

    abbrev pub session_exchange :
        Session → Url → String → List (String × String) → Option Bytes → String → Exchange
    session_exchange s target method headers body address = record {
      address = address;
      port = s.port;
      tls = str_eq s.scheme "https";
      host = s.host;
      method = method;
      target = urlunsplit "" "" (if is_empty target.path then "/" else target.path) target.query;
      headers = request_headers s headers;
      body = body;
    }

    abbrev pub same_target : Session → Option Url → Result Url
    same_target s none = err value_error "Invalid URL"
    same_target s (some target) =
        if not (str_eq (host_of target) s.host) || not (str_eq target.scheme s.scheme)
        then err scrape_error "county request escaped its validated origin"
        else ok target

    abbrev pub with_cookies : List (String × String) → Web N → Web N
    with_cookies cookies w = record w {
      session = record w.session { cookies = update cookies w.session.cookies };
    }

    -- A response: its size, its cookies, and a redirect, of which `redirect` takes the location.
    abbrev pub accepted : (String → Net (Web N) (ℕ × Bytes)) → Reply → Net (Web N) (ℕ × Bytes)
    accepted redirect reply w =
        let raw = take (max_response_bytes + 1) reply.content in
        let w' = with_cookies reply.cookies w in
        if ltb max_response_bytes (length raw)
        then (err scrape_error "county response exceeded the byte limit", w)
        else if leb 300 reply.status && ltb reply.status 400
        then redirect reply.location w'
        else (ok (reply.status, raw), w')

    abbrev pub accepted_or_next :
        (String → Net (Web N) (ℕ × Bytes))
        → Net (Web N) (ℕ × Bytes)
        → Session
        → Option Reply × N
        → Result (ℕ × Bytes) × Web N
    accepted_or_next redirect next s (none, n) = next (record { session = s; outside = n })
    accepted_or_next redirect next s (some reply, n) =
        accepted redirect reply (record { session = s; outside = n })

    -- The loop over the addresses.
    unfoldable pub address_loop :
        (String → Net (Web N) (ℕ × Bytes))
        → (String → Exchange)
        → List String
        → Net (Web N) (ℕ × Bytes)
    address_loop redirect exchange [] w = (err scrape_error "county request failed", w)
    address_loop redirect exchange (a ∷ rest) w =
        accepted_or_next redirect (λ w'. address_loop redirect exchange rest w') w.session
          (net.exchange (exchange a) w.outside)

    -- `request`, but for what a redirect does.
    unfoldable pub request_once :
        (String → Net (Web N) (ℕ × Bytes))
        → String
        → String
        → List (String × String)
        → Option Bytes
        → Net (Web N) (ℕ × Bytes)
    unfolding addresses_of address_loop request_headers urlunsplit
    request_once redirect method path headers body w =
        let s = w.session in
        (do
          current ← outside (addresses_of s.host s.port)
          lift (
              raise_if (not (same_set current s.addresses)) scrape_error
                "county origin DNS changed during session")
          target ← lift (same_target s (lib.urlsplit (lib.urljoin s.origin path)))
          address_loop redirect (session_exchange s target method headers body) s.addresses)
          w

    -- `request`, on the redirects left.
    unfoldable pub request :
        ℕ → String → String → List (String × String) → Option Bytes → Net (Web N) (ℕ × Bytes)
    unfolding request_once
    request zero method path headers body =
        request_once (λ location. lift (err scrape_error "county redirect limit exceeded")) method
          path headers body
    request (suc redirects) method path headers body =
        request_once
          (λ location w.
            request redirects "GET" (lib.urljoin w.session.origin location) headers none w)
          method path headers body
