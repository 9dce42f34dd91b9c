-- ===== src/App/Access.antt =====
-- app.py: `_presented_token`, `_route_template`, `_client_key`, `_authorized_response` and
-- `security_middleware` but for its log lines and fixed headers. `digest` is the hexadecimal SHA-256
-- of a host; the tokens are what `credential_text` reads, and the limits the integers of the
-- environment's variables. A handler runs over a state of its own.
pub mod Guarded
pub mod Writes
use Prim.Native.String
use Prim.Native.Char.{code}
use shadowglass_v35_runtime.Common.{
  ℕ, zero, suc, ◌+◌, String, Bool, true, false, not, ◌&&◌, ◌||◌, Option, none, some, List, [], ◌∷◌,
  any, leb, ltb, ◌==◌, str_eq, if◌then◌else◌,
}
use Prim.Native.Nat.{min, max}
use shadowglass_v35_runtime.Common.Text.{is_empty, strip, starts_with, take, every}
use shadowglass_v35_runtime.Common.Result.{Result, ok, err, Exception, type_error}
use shadowglass_v35_runtime.App.Limiter.{Limiter, Verdict, allowed, denied, index_error, allow}

pub record Request : Type 0 where
  pub method : String
  pub path : String
  pub route : Option String
  pub authorization : String
  pub token : String
  pub host : String
  pub body_size : ℕ

pub record Response : Type 0 where
  pub status : ℕ
  pub detail : String
  pub retry_after : Option ℕ

abbrev pub refusal : ℕ → String → Response
refusal status detail = record { status = status; detail = detail; retry_after = none }

-- `s[n:]`
abbrev pub drop : ℕ → String → String
drop zero s = s
drop (suc n) String.[] = ""
drop (suc n) (String.◌∷◌ c s) = drop n s

-- `authorization.lower().startswith("bearer ")`: no letter but these two lowers to each.
abbrev pub letter_at : ℕ → ℕ → String → Bool
letter_at upper lower String.[] = false
letter_at upper lower (String.◌∷◌ c s) = code c == upper || code c == lower

unfoldable pub is_bearer : String → Bool
is_bearer s =
    letter_at 66 98 s
    && letter_at 69 101 (drop 1 s)
    && letter_at 65 97 (drop 2 s)
    && letter_at 82 114 (drop 3 s)
    && letter_at 69 101 (drop 4 s)
    && letter_at 82 114 (drop 5 s)
    && letter_at 32 32 (drop 6 s)

unfoldable pub presented_token : Request → String
unfolding is_bearer
presented_token r =
    if is_bearer r.authorization then strip (drop 7 r.authorization) else strip r.token

abbrev pub template_of_path : String → String
template_of_path path =
    if starts_with path "/record/"
    then "/record/{id}"
    else if starts_with path "/status/"
    then "/status/{county}"
    else if starts_with path "/pause/"
    then "/pause/{id}"
    else if starts_with path "/resume/"
    then "/resume/{id}"
    else take 120 path

unfoldable pub route_template : Request → String
route_template r = elim r.route [ some t ↦ t | none ↦ template_of_path r.path ]

-- `template in WRITE_TEMPLATES`
abbrev pub write_templates : List String
write_templates =
    "/scrape" ∷ "/scrape/all" ∷ "/scrape/multi" ∷ "/discover" ∷ "/pause/{id}" ∷ "/resume/{id}"
    ∷ "/scrape/direct" ∷ []

unfoldable pub is_write : String → Bool
is_write template = any (λ t. str_eq t template) write_templates

-- `request.url.path not in PUBLIC_PATHS`
unfoldable pub is_protected : Request → Bool
is_protected r = not (str_eq r.path "/health")

-- `hmac.compare_digest` of two texts, which must be ASCII.
unfoldable pub compare_digest : String → String → Result Bool
compare_digest a b =
    if every (λ c. ltb c 128) a && every (λ c. ltb c 128) b
    then ok (str_eq a b)
    else err type_error "comparing strings with non-ASCII characters is not supported"

pub record Config : Type 0 where
  pub digest : String → String
  pub read_token : String
  pub write_token : String
  pub write_limit : ℕ
  pub read_limit : ℕ

-- Beside the answer, the limiter and the state of the handlers.
abbrev pub Outcome : Type 0 → Type 0
Outcome S = Result Response × Limiter × S

abbrev pub client_key : Config → Request → String
client_key c r = take 16 (c.digest r.host)

-- `request.method in {"POST", "PUT", "PATCH"}`
abbrev pub has_body : String → Bool
has_body method = str_eq method "POST" || str_eq method "PUT" || str_eq method "PATCH"

module _ {S : Type 0} where
  -- The 429 of a refused call; `events[0]` of no events would raise.
  abbrev pub limited : Verdict → Limiter → S → Outcome S → Outcome S
  limited allowed l s rest = rest
  limited (denied seconds) l s rest = (
    ok (record { status = 429; detail = "rate limit exceeded"; retry_after = some seconds }),
    l,
    s,
  )
  limited index_error l s rest = (err Exception.lookup_error "deque index out of range", l, s)

  -- From `limit_name` on: the second limit, then the handler.
  unfoldable pub dispatched :
      Config → ℕ → Request → String → String → (S → Result Response × S) → Limiter → S → Outcome S
  unfolding allow is_write
  dispatched c now r template subject next l s =
      let limit = max 1 (min (if is_write template then c.write_limit else c.read_limit) 2000) in
      let key =
        String.◌++◌ subject (String.◌++◌ ":" (String.◌++◌ template (String.◌++◌ ":" r.method))) in
      let (verdict, l') = allow now key limit 60 l in
      let (answer, s') = next s in limited verdict l' s (answer, l', s')

  -- The scopes of the presented token, once both comparisons are made.
  abbrev pub scoped :
      Config
      → ℕ
      → Request
      → String
      → (S → Result Response × S)
      → Limiter
      → S
      → Bool
      → Bool
      → Outcome S
  scoped c now r template next l s has_read has_write =
      if is_write template && not has_write
      then (ok (refusal 403 "write scope required"), l, s)
      else if not (is_write template) && not (has_read || has_write)
      then (ok (refusal 403 "invalid credential"), l, s)
      else dispatched c now r template (if has_write then "write" else "read") next l s

  abbrev pub compared :
      Config
      → ℕ
      → Request
      → String
      → (S → Result Response × S)
      → Limiter
      → S
      → Result Bool
      → Result Bool
      → Outcome S
  compared c now r template next l s (err e m) has_write = (err e m, l, s)
  compared c now r template next l s (ok has_read) (err e m) = (err e m, l, s)
  compared c now r template next l s (ok has_read) (ok has_write) =
      scoped c now r template next l s has_read has_write

  -- After the first limit.
  unfoldable pub authenticated :
      Config → ℕ → Request → String → (S → Result Response × S) → Limiter → S → Outcome S
  unfolding presented_token compare_digest dispatched
  authenticated c now r template next l s =
      let presented = presented_token r in
      if is_empty presented
      then (ok (refusal 401 "authentication required"), l, s)
      else if is_empty c.read_token || is_empty c.write_token
      then (ok (refusal 503 "authentication unavailable"), l, s)
      else compared c now r template next l s (compare_digest presented c.read_token)
          (compare_digest presented c.write_token)

  -- `first` and `now` are the readings of the clock at the two limits.
  unfoldable pub authorized_response :
      Config → ℕ → ℕ → Request → String → (S → Result Response × S) → Limiter → S → Outcome S
  unfolding authenticated is_protected
  authorized_response c first now r template next l s =
      if is_protected r
      then (let (verdict, l') = allow first (String.◌++◌ "auth:" (client_key c r)) 60 60 l in
          limited verdict l' s (authenticated c now r template next l' s))
      else dispatched c now r template (client_key c r) next l s

  -- `except Exception`
  abbrev pub guarded : Outcome S → Response × Limiter × S
  guarded (ok response, l, s) = (response, l, s)
  guarded (err e m, l, s) = (refusal 500 "internal service error", l, s)

  unfoldable pub security_middleware :
      Config → ℕ → ℕ → Request → (S → Result Response × S) → Limiter → S → Response × Limiter × S
  unfolding route_template authorized_response
  security_middleware c first now r next l s =
      if str_eq r.method "OPTIONS"
      then (refusal 403 "cross-origin requests are disabled", l, s)
      else if has_body r.method && ltb 128000 r.body_size
      then (refusal 413 "request body too large", l, s)
      else guarded (authorized_response c first now r (route_template r) next l s)
