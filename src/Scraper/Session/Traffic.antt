-- ===== src/Scraper/Session/Traffic.antt =====
-- scraper.py: the connections of a `PinnedSession`.
use shadowglass_v35_runtime.Common.{
  ℕ, zero, suc, ◌≡◌, refl, sym, ◌∙◌, ap, true, ◌||◌, eq_iff, arith, if◌then◌else◌, inl, inr, String,
  not, ◌&&◌, Option, none, some, List, [], ◌∷◌, length, take, All, All-implies, leb, ltb, ◌+◌,
  str_eq, Bool-cases,
}
use shadowglass_v35_runtime.Common.Sorted.{Has, All-Has}
use shadowglass_v35_runtime.Common.Result.{ok, err, scrape_error, raise_if}
use shadowglass_v35_runtime.Network.{
  Bytes, Url, UrlLib, urlunsplit, Exchange, Reply, Network, Net, lift,
}
use shadowglass_v35_runtime.Network.Sets.{same_set}
use shadowglass_v35_runtime.Network.Traffic.{KeepsTraffic, Kept, Kept-lift, Kept-lifted, Kept-bind}
use shadowglass_v35_runtime.Relay.Pinned.{All_self}
use shadowglass_v35_runtime.Relay.Origin.{is_http, host_of, port_of}
use shadowglass_v35_runtime.Common.Text.{is_empty}
use shadowglass_v35_runtime.Scraper.Session.{
  max_response_bytes, Session, Web, public_addresses, addresses_of, outside, session_exchange,
  same_target, with_cookies, accepted, accepted_or_next, address_loop, request_once, request,
}

-- A URL of the session's origin: it is split from a path joined to the origin, and its host and its
-- scheme are those of the session. The exchange asks for its path and its query.
abbrev pub IsWithin : UrlLib → Session → Exchange → Type 0
IsWithin lib s e =
    (path : String) × (u : Url) × (lib.urlsplit (lib.urljoin s.origin path) ≡ some u)
    × (host_of u ≡ s.host)
    × (u.scheme ≡ s.scheme)
    × (e.target ≡ urlunsplit "" "" (if is_empty u.path then "/" else u.path) u.query)

-- A connection of the session: one of its addresses, which is global, its port, its scheme and its
-- host, for a URL of its origin.
abbrev pub IsPinned : UrlLib → Session → Exchange → Type 0
IsPinned lib s e =
    Has e.address s.addresses
    × (lib.is_global e.address ≡ true)
    × (e.port ≡ s.port)
    × (e.host ≡ s.host)
    × (e.tls ≡ str_eq s.scheme "https")
    × IsWithin lib s e

-- The session is at the host, the port and the scheme of the base URL, which is an HTTP URL.
abbrev pub IsAt : UrlLib → String → Session → Type 0
IsAt lib base_url s =
    (u : Url) × (lib.urlsplit base_url ≡ some u)
    × (is_http u.scheme ≡ true)
    × (port_of u ≡ ok s.port)
    × (s.host ≡ host_of u)
    × (s.scheme ≡ u.scheme)
    × (s.origin ≡ urlunsplit u.scheme u.netloc "" "")

-- The session is the same but for its cookies.
pub record SameOrigin (s t : Session) : Type 0 where
  pub scheme : t.scheme ≡ s.scheme
  pub host : t.host ≡ s.host
  pub port : t.port ≡ s.port
  pub origin : t.origin ≡ s.origin
  pub addresses : t.addresses ≡ s.addresses

-- The property outside, and the session's origin.
abbrev pub Holds : {N : Type 0} → (N → Type 0) → Session → Web N → Type 0
Holds I s w = I w.outside × SameOrigin s w.session

module _ {N : Type 0} (lib : UrlLib) (net : Network N) (s : Session)
    (global : All (λ a. lib.is_global a ≡ true) s.addresses) (I : N → Type 0)
    (keeps : KeepsTraffic net (IsPinned lib s) I) where
  abbrev HoldsIn : Web N → Type 0
  HoldsIn = Holds I s

  outside-Kept : {A : Type 0} (m : Net N A) → Kept I m → Kept HoldsIn (outside lib net m)
  outside-Kept m k = record { at = λ w (h, same). (k.at w.outside h, same) }

  addresses_of-Kept : (host : String) (port : ℕ) → Kept I (addresses_of lib net host port)
  unfolding addresses_of
  addresses_of-Kept host port =
      Kept-bind I (λ n. let (a, n') = net.getaddrinfo host port n in (ok a, n')) _
        (record { at = λ n h. keeps.dns_kept host port n h })
        λ answers. Kept-lift I (public_addresses lib answers)

  with_cookies-Holds :
      (cookies : List (String × String)) (w : Web N)
      → HoldsIn w
      → HoldsIn (with_cookies lib net cookies w)
  with_cookies-Holds cookies w (h, same) = (
    h,
    record {
      scheme = same.scheme;
      host = same.host;
      port = same.port;
      origin = same.origin;
      addresses = same.addresses;
    },
  )

  module _ (redirect : String → Net (Web N) (ℕ × Bytes))
      (kept : (location : String) → Kept HoldsIn (redirect location)) where
    accepted-Holds :
        (reply : Reply) (w : Web N) → HoldsIn w → HoldsIn (accepted lib net redirect reply w).1
    accepted-Holds reply w h =
        let known = with_cookies-Holds reply.cookies w h in
        elim (Bool-cases
          (ltb max_response_bytes (length (take (max_response_bytes + 1) reply.content)))) [
            | inl large ↦ rw large h
            | inr small ↦ elim (Bool-cases (leb 300 reply.status && ltb reply.status 400)) [
              | inl moved ↦
                  rw (small, moved)
                    ((kept reply.location).at (with_cookies lib net reply.cookies w) known)
              | inr final ↦ rw (small, final) known
            ]
          ]

    accepted_or_next-Holds :
        (next : Net (Web N) (ℕ × Bytes)) (t : Session) (answer : Option Reply × N)
        → Kept HoldsIn next
        → HoldsIn (record { session = t; outside = answer.1 })
        → HoldsIn (accepted_or_next lib net redirect next t answer).1
    accepted_or_next-Holds next t (none, n) k h = k.at (record { session = t; outside = n }) h
    accepted_or_next-Holds next t (some reply, n) k h =
        accepted-Holds reply (record { session = t; outside = n }) h

    address_loop-Kept :
        (exchange : String → Exchange) (addresses : List String)
        → All (λ a. IsPinned lib s (exchange a)) addresses
        → Kept HoldsIn (address_loop lib net redirect exchange addresses)
    unfolding address_loop
    address_loop-Kept exchange [] fine = record { at = λ w h. h }
    address_loop-Kept exchange (a ∷ rest) (fine, others) = record {
      at = λ w h.
          accepted_or_next-Holds (address_loop lib net redirect exchange rest) w.session
            (net.exchange (exchange a) w.outside) (address_loop-Kept exchange rest others)
            (keeps.exchange_kept (exchange a) w.outside fine h.0, h.1);
    }

    -- The target that the session accepts.
    accepted_target :
        (t : Session) (split : Option Url) (u : Url)
        → same_target lib net t split ≡ ok u
        → (split ≡ some u) × (host_of u ≡ t.host) × (u.scheme ≡ t.scheme)
    accepted_target t none u e = cc
    accepted_target t (some found) u e =
        elim (Bool-cases
          (not (str_eq (host_of found) t.host) || not (str_eq found.scheme t.scheme))) [
            | inl escaped ↦ (let e' = rw escaped at e in absurd (cc))
            | inr within ↦
                let e' = rw within at e in
                let same : found ≡ u = ground arith in
                (
                  ap (λ (x : Url). some x) same,
                  ap (λ (x : Url). host_of x) (sym same)
                      ∙ (eq_iff (host_of found) t.host).0 (ground (arith, within)),
                  ap (λ (x : Url). x.scheme) (sym same)
                      ∙ (eq_iff found.scheme t.scheme).0 (ground (arith, within)),
                )
          ]

    -- The exchanges of a session with the same origin are pinned.
    session-IsPinned :
        (t : Session) (u : Url) (method path : String) (headers : List (String × String))
        (body : Option Bytes)
        → SameOrigin s t
        → same_target lib net t (lib.urlsplit (lib.urljoin t.origin path)) ≡ ok u
        → All (λ a. IsPinned lib s (session_exchange lib net t u method headers body a)) t.addresses
    session-IsPinned t u method path headers body same within =
        let (split, host, scheme) =
          accepted_target t (lib.urlsplit (lib.urljoin t.origin path)) u within in
        let known = same.addresses in
        All-implies (λ a. Has a t.addresses)
          (λ a. IsPinned lib s (session_exchange lib net t u method headers body a)) t.addresses
          (λ a listed.
            let here = rw known at listed in
            (
              here,
              All-Has (λ a. lib.is_global a ≡ true) s.addresses a global here,
              same.port,
              same.host,
              ap (λ x. str_eq x "https") same.scheme,
              (path, u, rw same.origin at split, host ∙ same.host, scheme ∙ same.scheme, refl),
            ))
          (All_self t.addresses)

    request_once-Kept :
        (method path : String) (headers : List (String × String)) (body : Option Bytes)
        → Kept HoldsIn (request_once lib net redirect method path headers body)
    unfolding request_once
    request_once-Kept method path headers body = record {
      at = λ w h.
          let t = w.session in
          (Kept-bind HoldsIn (outside lib net (addresses_of lib net t.host t.port)) _
              (outside-Kept (addresses_of lib net t.host t.port) (addresses_of-Kept t.host t.port))
              λ current.
                Kept-bind HoldsIn
                  (lift (
                    raise_if (not (same_set current t.addresses)) scrape_error
                      "county origin DNS changed during session"))
                  _ (Kept-lift HoldsIn _)
                  λ _.
                    Kept-lifted HoldsIn
                      (same_target lib net t (lib.urlsplit (lib.urljoin t.origin path))) _
                      λ target within.
                        address_loop-Kept (session_exchange lib net t target method headers body)
                          t.addresses
                          (session-IsPinned t target method path headers body h.1 within)).at
            w h;
    }

  pub request-Kept :
      (redirects : ℕ) (method path : String) (headers : List (String × String))
      (body : Option Bytes)
      → Kept HoldsIn (request lib net redirects method path headers body)
  unfolding request
  request-Kept zero method path headers body =
      request_once-Kept (λ location. lift (err scrape_error "county redirect limit exceeded"))
        (λ location. Kept-lift HoldsIn _) method path headers body
  request-Kept (suc redirects) method path headers body =
      request_once-Kept
        (λ location w.
          request lib net redirects "GET" (lib.urljoin w.session.origin location) headers none w)
        (λ location. record {
          at = λ w.
              (request-Kept redirects "GET" (lib.urljoin w.session.origin location) headers none).at
                w;
        })
        method path headers body
