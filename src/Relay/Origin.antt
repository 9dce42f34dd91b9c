-- ===== src/Relay/Origin.antt =====
-- relay.py: `_validated_origin`, `_pin_addresses` and `RelayClient.__init__`. The texts of the
-- credential files and `str.casefold` are arguments, and so is what `urllib.parse` answers.
use shadowglass_v35_runtime.Common.{
  ℕ, String, Bool, true, false, not, ◌&&◌, ◌||◌, Option, none, some, List, [], ◌∷◌, any, map, leb,
  ◌==◌, str_eq, is_some, coalesce, filter, if◌then◌else◌,
}
use shadowglass_v35_runtime.Common.Text.{is_empty, strip, split_on}
use shadowglass_v35_runtime.Common.Result.{
  Result, ok, err, value_error, relay_configuration_error, raise_if,
}
use shadowglass_v35_runtime.Common.Result
use shadowglass_v35_runtime.Network.{Url, UrlLib, urlunsplit, Network, Net, ◌>>=◌, pure, lift}
use shadowglass_v35_runtime.Network.Sets.{set_of}

-- `scheme not in {"http", "https"}`
abbrev pub is_http : String → Bool
is_http scheme = str_eq scheme "http" || str_eq scheme "https"

-- `parsed.hostname or ""`
abbrev pub host_of : Url → String
host_of url = coalesce url.hostname ""

abbrev default_port : String → ℕ
default_port scheme = if str_eq scheme "https" then 443 else 80

-- `parsed.port or (443 if parsed.scheme == "https" else 80)`
abbrev port_or : String → Option ℕ → ℕ
port_or scheme none = default_port scheme
port_or scheme (some n) = if n == 0 then default_port scheme else n

abbrev pub port_of : Url → Result ℕ
port_of url = elim url.port [
  | none ↦ err value_error "Port could not be cast to integer value"
  | some port ↦ ok (port_or url.scheme port)
]

-- The comma-separated allowlist, with what is blank left out.
unfoldable pub allowed_hosts : (String → String) → String → List String
unfolding strip split_on
allowed_hosts casefold texts =
    map (λ item. casefold (strip item))
      (filter (λ item. not (is_empty (strip item))) (split_on b',' texts))

abbrev pub is_exact : (String → String) → List String → Url → Bool
is_exact casefold allowlist url =
    let host = casefold (host_of url) in
    is_http url.scheme
    && not (is_empty host)
    && not (is_some url.username)
    && not (is_some url.password)
    && is_empty url.query
    && is_empty url.fragment
    && (is_empty url.path || str_eq url.path "/")
    && any (λ h. str_eq h host) allowlist

abbrev port_fails : Option (Option ℕ) → Bool
port_fails none = true
port_fails (some none) = false
port_fails (some (some n)) = not (leb 1 n && leb n 65535)

abbrev origin_of : (String → String) → List String → Option Url → Result String
origin_of casefold allowlist none = err relay_configuration_error "relay origin is invalid"
origin_of casefold allowlist (some url) =
    if not (is_exact casefold allowlist url)
    then err relay_configuration_error "relay origin is not exactly allowlisted"
    else if port_fails url.port
    then err relay_configuration_error "relay port is invalid"
    else ok (urlunsplit url.scheme url.netloc "" "")

unfoldable pub validated_origin : UrlLib → (String → String) → String → String → Result String
unfolding allowed_hosts urlunsplit
validated_origin lib casefold raw hosts =
    origin_of casefold (allowed_hosts casefold hosts) (lib.urlsplit raw)

-- `urlsplit` of an origin, with its port.
abbrev pub parsed_origin : UrlLib → String → Result (Url × ℕ)
parsed_origin lib origin = elim (lib.urlsplit origin) [
  | none ↦ err value_error "Invalid URL"
  | some url ↦ Result.◌>>=◌ (port_of url) λ port. ok (url, port)
]

abbrev pub checked_addresses : UrlLib → List String → Result (List String)
checked_addresses lib addresses =
    if any (λ a. lib.is_multicast a || lib.is_unspecified a) addresses
    then err relay_configuration_error "relay resolved to a forbidden address"
    else ok addresses

abbrev pub pinned : UrlLib → Option (List String) → Result (List String)
pinned lib none = err relay_configuration_error "relay DNS resolution failed"
pinned lib (some []) = err relay_configuration_error "relay DNS returned no addresses"
pinned lib (some (a ∷ rest)) = checked_addresses lib (set_of (a ∷ rest))

-- `RelayClient`'s fields; the timeout is the network's.
pub record RelayClient : Type 0 where
  pub origin : String
  pub addresses : List String
  pub host : String
  pub port : ℕ
  pub secure : Bool

module _ {N : Type 0} (lib : UrlLib) (net : Network N) where
  unfoldable pub pin_addresses : String → Net N (List String)
  unfolding set_of
  pin_addresses origin = do
    (url, port) ← lift (parsed_origin lib origin)
    answers ← (λ n. let (a, n') = net.getaddrinfo (host_of url) port n in (ok a, n'))
    lift (pinned lib answers)

  unfoldable pub new_client : (String → String) → String → String → Net N RelayClient
  unfolding validated_origin pin_addresses
  new_client casefold raw hosts = do
    origin ← lift (validated_origin lib casefold raw hosts)
    addresses ← pin_addresses origin
    (url, port) ← lift (parsed_origin lib origin)
    pure (record {
      origin = origin;
      addresses = addresses;
      host = host_of url;
      port = port;
      secure = str_eq url.scheme "https";
    })
