-- ===== src/Scraper/Session/Pinned.antt =====
-- scraper.py: where the sessions that `PinnedSession` opens connect to.
use shadowglass_v35_runtime.Common.{
  ℕ, ◌≡◌, refl, ap, true, ◌||◌, ◌==◌, any, arith, inl, inr, String, not, Option, none, some, List,
  length, All, Bool-cases,
}
use shadowglass_v35_runtime.Common.Result.{Result, ok, err}
use shadowglass_v35_runtime.Network.{Bytes, Url, UrlLib, Network, Net, continue, ◌>>=◌, lift}
use shadowglass_v35_runtime.Network.Sets.{set_of}
use shadowglass_v35_runtime.Network.Traffic.{KeepsTraffic, Kept}
use shadowglass_v35_runtime.Relay.Public.{all_global}
use shadowglass_v35_runtime.Relay.Origin.{is_http, host_of, port_of}
use shadowglass_v35_runtime.Common.Text.{is_empty}
use shadowglass_v35_runtime.Scraper.Session.{
  Session, origin_url, opened, new_session, public_addresses, addresses_of, request,
}
use shadowglass_v35_runtime.Scraper.Session.Traffic.{IsPinned, IsAt, Holds, request-Kept}

module _ (lib : UrlLib) where
  -- The addresses that a session accepts are global.
  public-global :
      (answers : Option (List String)) (addresses : List String)
      → public_addresses lib answers ≡ ok addresses
      → All (λ a. lib.is_global a ≡ true) addresses
  public-global none addresses e = cc
  public-global (some found) addresses e =
      elim (Bool-cases
        (length (set_of found) == 0 || any (λ a. not (lib.is_global a)) (set_of found))) [
          | inl refused ↦ (let e' = rw refused at e in absurd (cc))
          | inr passed ↦
              let e' = rw passed at e in
              let same : set_of found ≡ addresses = ground arith in
              rw (← same) (all_global lib.is_global (set_of found) (ground arith))
        ]

  origin_url-http :
      (split : Option Url) (u : Url)
      → origin_url lib split ≡ ok u
      → (split ≡ some u) × (is_http u.scheme ≡ true)
  origin_url-http none u e = cc
  origin_url-http (some found) u e =
      elim (Bool-cases (not (is_http found.scheme) || is_empty (host_of found))) [
        | inl refused ↦ (let e' = rw refused at e in absurd (cc))
        | inr passed ↦
            let e' = rw passed at e in
            let same : found ≡ u = ground arith in
            (ap (λ (x : Url). some x) same, rw (← same) (ground arith))
      ]

given : {A : Type 0} → (a b : A) → ok a ≡ ok b → a ≡ b
given a b e = ground arith

module _ {N A B : Type 0} where
  -- An answer of a chain comes from an answer of its first part.
  answered :
      (m : Net N A) (k : A → Net N B) (n : N) (b : B) (n' : N)
      → (m >>= k) n ≡ (ok b, n')
      → (a : A) × (n'' : N) × (m n ≡ (ok a, n'')) × (k a n'' ≡ (ok b, n'))
  answered m k n b n' e = go (m n) e
    where
      go :
          (x : Result A × N)
          → continue x.0 k x.1 ≡ (ok b, n')
          → (a : A) × (n'' : N) × (x ≡ (ok a, n'')) × (k a n'' ≡ (ok b, n'))
      go (ok a, n'') e = (a, n'', refl, e)
      go (err x s, n'') e = absurd (cc)

module _ {N : Type 0} (lib : UrlLib) (net : Network N) where
  addresses_of-global :
      (host : String) (port : ℕ) (n : N) (addresses : List String) (n' : N)
      → addresses_of lib net host port n ≡ (ok addresses, n')
      → All (λ a. lib.is_global a ≡ true) addresses
  unfolding addresses_of
  addresses_of-global host port n addresses n' e =
      let (answers, _, _, e') =
        answered (λ n. let (a, n') = net.getaddrinfo host port n in (ok a, n'))
          (λ answers. lift (public_addresses lib answers)) n addresses n' e in
      public-global lib answers addresses (ap (λ x. x.0) e')

  new_session-IsAt :
      (base_url : String) (s : Session) (n n' : N)
      → new_session lib net base_url n ≡ (ok s, n')
      → IsAt lib base_url s × All (λ a. lib.is_global a ≡ true) s.addresses
  unfolding new_session
  new_session-IsAt base_url s n n' e =
      let (u, n1, e1, k1) = answered (lift (origin_url lib (lib.urlsplit base_url))) _ n s n' e in
      let (port, n2, e2, k2) = answered (lift (port_of u)) _ n1 s n' k1 in
      let (addresses, n3, e3, k3) = answered (addresses_of lib net (host_of u) port) _ n2 s n' k2 in
      let (split, http) = origin_url-http lib (lib.urlsplit base_url) u (ap (λ x. x.0) e1) in
      let same = given (opened lib u port addresses) s (ap (λ x. x.0) k3) in
      rw (← same) (
        (u, split, http, ap (λ x. x.0) e2, refl, refl, refl),
        addresses_of-global (host_of u) port n2 addresses n3 e3,
      )

  -- For every base URL for which `PinnedSession(base_url)` gives a session, in every state of the
  -- network, and whatever the resolver and the peers answer from then on: the session has the scheme,
  -- the host and the port of the base URL, whose scheme is http or https; and every connection that
  -- `request` opens, for any path and over any number of redirects, goes to an address which is
  -- global and which the session resolved when it was made, at the session's port, with TLS exactly
  -- for https and with the session's host as the name, and it asks for a URL that has the session's
  -- scheme and host. That is stated of every property of the network's state: one that name lookups
  -- and such connections keep, the request keeps, and it keeps the session's origin and addresses.
  pub request-IsPinned :
      (base_url : String) (s : Session) (n n' : N)
      → new_session lib net base_url n ≡ (ok s, n')
      → (I : N → Type 0) → KeepsTraffic net (IsPinned lib s) I
      → (redirects : ℕ) (method path : String) (headers : List (String × String))
        (body : Option Bytes)
      → IsAt lib base_url s × Kept (Holds I s) (request lib net redirects method path headers body)
  request-IsPinned base_url s n n' e I keeps redirects method path headers body =
      let (here, global) = new_session-IsAt base_url s n n' e in
      (here, request-Kept lib net s global I keeps redirects method path headers body)
