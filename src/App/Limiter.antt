-- ===== src/App/Limiter.antt =====
-- app.py: `SlidingWindowLimiter`. The clock `time.monotonic` counts microseconds; the dictionary is
-- the list of its items from the first that `popitem(last=False)` takes.
pub mod Deque
pub mod Window
use shadowglass_v35_runtime.Common.{
  ℕ, ◌+◌, ◌-◌, ◌*◌, ◌/◌, String, Bool, true, false, not, Option, none, some, List, [], ◌∷◌, ◌++◌,
  length, filter, leb, coalesce, str_eq, if◌then◌else◌,
}
use Prim.Native.Nat.{min, max}
use shadowglass_v35_runtime.Queue.Table.{second}

pub record Limiter : Type 0 where
  pub events : List (String × List ℕ)
  pub max_keys : ℕ

-- `__init__`
abbrev pub new_limiter : ℕ → Limiter
new_limiter max_keys = record { events = []; max_keys = max 64 (min max_keys 65536) }

-- The answers of `allow`: `(True, 0)`, `(False, retry_after)`, or the IndexError of `events[0]`.
pub data Verdict : Type 0 where
  allowed : Verdict
  denied : ℕ → Verdict
  index_error : Verdict

abbrev pub is_allowed : Verdict → Bool
is_allowed allowed = true
is_allowed _ = false

-- `self._events.get(key)`
unfoldable pub lookup : String → List (String × List ℕ) → Option (List ℕ)
lookup key [] = none
lookup key ((k, d) ∷ items) = if str_eq k key then some d else lookup key items

-- `while len(self._events) >= self._max_keys: popitem(last=False)`
unfoldable pub evict : ℕ → List (String × List ℕ) → List (String × List ℕ)
evict max_keys [] = []
evict max_keys (item ∷ items) =
    let rest = evict max_keys items in
    if leb max_keys (length (item ∷ items)) then rest else item ∷ items

abbrev pub remove : String → List (String × List ℕ) → List (String × List ℕ)
remove key items = filter (λ item. not (str_eq item.0 key)) items

-- `while events and events[0] <= cutoff: events.popleft()`
unfoldable pub drop_old : ℕ → ℕ → List ℕ → List ℕ
drop_old now seconds [] = []
drop_old now seconds (e ∷ es) =
    let rest = drop_old now seconds es in if leb (e + seconds * second) now then rest else e ∷ es

-- `max(1, int(seconds - (now - events[0])))`
abbrev pub refused : ℕ → ℕ → List ℕ → Verdict
refused now seconds [] = index_error
refused now seconds (e ∷ es) = denied (max 1 ((e + seconds * second - now) / second))

-- The decision on one deque, and the deque after it.
unfoldable pub admit : ℕ → ℕ → ℕ → List ℕ → Verdict × List ℕ
unfolding drop_old
admit now limit seconds events =
    let live = drop_old now seconds events in
    if leb limit (length live)
    then (refused now seconds live, live)
    else (allowed, live ++ now ∷ [])

-- The items beside the key's own: room is made for a new key.
abbrev pub others : String → Limiter → List (String × List ℕ)
others key l = elim (lookup key l.events) [
  | none ↦ evict l.max_keys l.events
  | some d ↦ remove key l.events
]

unfoldable pub allow : ℕ → String → ℕ → ℕ → Limiter → Verdict × Limiter
unfolding lookup evict admit
allow now key limit seconds l =
    let (verdict, events) = admit now limit seconds (coalesce (lookup key l.events) []) in
    (verdict, record l { events = others key l ++ (key, events) ∷ [] })
