-- ===== src/Json/Tree.antt =====
-- JSON documents, as `json.loads` gives them, and how Python reads them.
use shadowglass_v35_runtime.Common.{
  String, Bool, true, false, not, Option, none, some, str_eq, if◌then◌else◌,
}
use shadowglass_v35_runtime.Common.Int.{ℤ, pos, eq_ℤ}
use shadowglass_v35_runtime.Common.Text.{is_empty}

-- `float` holds whether the number is zero, and its text.
mutual
  pub data Value : Type 0 where
    null : Value
    bool : Bool → Value
    int : ℤ → Value
    float : Bool → String → Value
    str : String → Value
    array : Items → Value
    object : Members → Value

  pub data Items : Type 0 where
    nil : Items
    cons : Value → Items → Items

  pub data Members : Type 0 where
    end : Members
    member : String → Value → Members → Members

-- `bool(value)`
abbrev pub truthy : Value → Bool
truthy null = false
truthy (bool b) = b
truthy (int n) = not (eq_ℤ n (pos 0))
truthy (float zero text) = not zero
truthy (str s) = not (is_empty s)
truthy (array nil) = false
truthy (array (cons v vs)) = true
truthy (object end) = false
truthy (object (member k v ms)) = true

-- `members.get(key)`, of distinct keys
abbrev pub get : String → Members → Option Value
get key end = none
get key (member k v ms) = if str_eq k key then some v else get key ms

-- The truth of `members.get(key)`
abbrev pub truthy_at : Option Value → Bool
truthy_at none = false
truthy_at (some v) = truthy v

-- The text of a value that is one.
abbrev pub text : Option Value → Option String
text (some (str s)) = some s
text _ = none
