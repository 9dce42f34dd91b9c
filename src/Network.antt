-- ===== src/Network.antt =====
-- What relay.py and scraper.py reach over the network: DNS, HTTP exchanges on a chosen address, and
-- `urllib.parse` and `ipaddress`, which are arguments.
pub mod Sets
pub mod Traffic
use Prim.Native.String
use shadowglass_v35_runtime.Common.{
  ℕ, String, Bool, true, false, Option, none, some, List, [], ◌∷◌, if◌then◌else◌,
}
use shadowglass_v35_runtime.Common.Text.{is_empty, starts_with}
use shadowglass_v35_runtime.Common.Result.{Result, Exception, ok, err}

abbrev pub Bytes : Type 0
Bytes = List ℕ

-- `urlsplit`'s result; `port` is `none` where reading it raises a ValueError.
pub record Url : Type 0 where
  pub scheme : String
  pub netloc : String
  pub path : String
  pub query : String
  pub fragment : String
  pub hostname : Option String
  pub username : Option String
  pub password : Option String
  pub port : Option (Option ℕ)

-- `urllib.parse` and `ipaddress`. `urlsplit` is `none` where it raises a ValueError.
pub record UrlLib : Type 0 where
  pub urlsplit : String → Option Url
  pub urljoin : String → String → String
  pub is_global : String → Bool
  pub is_multicast : String → Bool
  pub is_unspecified : String → Bool

-- `urlunsplit((scheme, netloc, path, query, ""))`
unfoldable pub urlunsplit : String → String → String → String → String
urlunsplit scheme netloc path query =
    let rooted =
      if is_empty path then path else if starts_with path "/" then path else String.◌++◌ "/" path in
    let located = if is_empty netloc then path else String.◌++◌ "//" (String.◌++◌ netloc rooted) in
    let schemed =
      if is_empty scheme then located else String.◌++◌ scheme (String.◌++◌ ":" located) in
    if is_empty query then schemed else String.◌++◌ schemed (String.◌++◌ "?" query)

-- One HTTP exchange on a connection to one address; with `tls` for the server name `host`.
pub record Exchange : Type 0 where
  pub address : String
  pub port : ℕ
  pub tls : Bool
  pub host : String
  pub method : String
  pub target : String
  pub headers : List (String × String)
  pub body : Option Bytes

-- A response; `cookies` are those of its Set-Cookie headers.
pub record Reply : Type 0 where
  pub status : ℕ
  pub location : String
  pub cookies : List (String × String)
  pub content : Bytes

-- The network over the state of the world outside. `getaddrinfo` is `none` on an OSError, and
-- `exchange` where connecting or reading raises an OSError, SSLError or HTTPException.
pub record Network (N : Type 0) : Type 0 where
  pub getaddrinfo : String → ℕ → N → Option (List String) × N
  pub exchange : Exchange → N → Option Reply × N

abbrev pub Net : Type 0 → Type 0 → Type 0
Net N A = N → Result A × N

module _ {N A B : Type 0} where
  abbrev pub continue : Result A → (A → Net N B) → Net N B
  continue (ok a) k n = k a n
  continue (err e m) k n = (err e m, n)

  infixl 5 ◌>>=◌ ◌>>◌
  abbrev pub ◌>>=◌ : Net N A → (A → Net N B) → Net N B
  ◌>>=◌ m k n = let (r, n') = m n in continue r k n'

  abbrev pub ◌>>◌ : Net N A → Net N B → Net N B
  m >> k = m >>= λ _. k

module _ {N A : Type 0} where
  abbrev pub pure : A → Net N A
  pure a n = (ok a, n)

  abbrev pub lift : Result A → Net N A
  lift r n = (r, n)
