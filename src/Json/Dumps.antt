-- ===== src/Json/Dumps.antt =====
-- Python's `json.dumps` on the documents that the program writes, with `sort_keys` and the compact
-- separators; `ensure_ascii` is off, or the texts are ASCII.
pub mod Plain
use Prim.Native.Char.{code}
use Prim.Native.String
use text.Mathlib.Text.{is_lt}
use shadowglass_v35_runtime.Common.{
  ℕ, ◌+◌, ◌-◌, ◌/◌, ◌%◌, String, List, [], ◌∷◌, ltb, ◌==◌, if◌then◌else◌,
}
use shadowglass_v35_runtime.Common.Text.{show}

infixr 65 ◌<>◌
abbrev pub ◌<>◌ : String → String → String
s <> t = String.◌++◌ s t

-- A hexadecimal digit.
abbrev hex_digit : ℕ → String
hex_digit d =
    if d == 10
    then "a"
    else if d == 11
    then "b"
    else if d == 12
    then "c"
    else if d == 13
    then "d"
    else if d == 14
    then "e"
    else if d == 15
    then "f"
    else show d

-- The characters that JSON escapes.
escape_code : ℕ → String → String
escape_code c kept =
    if c == 34
    then "\\\""
    else if c == 92
    then "\\\\"
    else if c == 10
    then "\\n"
    else if c == 13
    then "\\r"
    else if c == 9
    then "\\t"
    else if c == 12
    then "\\f"
    else if c == 8
    then "\\b"
    else if ltb c 32
    then "\\u00" <> hex_digit (c / 16) <> hex_digit (c % 16)
    else kept

escaped : String → String
unfolding escape_code
escaped String.[] = ""
escaped (String.◌∷◌ c s) = escape_code (code c) (String.◌∷◌ c "") <> escaped s

-- A text as JSON.
unfoldable pub quote : String → String
unfolding escaped
quote s = "\"" <> escaped s <> "\""

-- `\u` and four hexadecimal digits
abbrev unicode_escape : ℕ → String
unicode_escape u =
    "\\u"
    <> hex_digit (u / 4096)
    <> hex_digit (u / 256 % 16)
    <> hex_digit (u / 16 % 16)
    <> hex_digit (u % 16)

-- With `ensure_ascii`: what is not in `[ -~]` is escaped, above U+FFFF as a surrogate pair.
ascii_code : ℕ → String → String
ascii_code c kept =
    if ltb c 127
    then kept
    else if ltb c 0x10000
    then unicode_escape c
    else unicode_escape (0xd800 + (c - 0x10000) / 1024) <> unicode_escape (0xdc00 + c % 1024)

ascii_escaped : String → String
unfolding escape_code ascii_code
ascii_escaped String.[] = ""
ascii_escaped (String.◌∷◌ c s) =
    escape_code (code c) (ascii_code (code c) (String.◌∷◌ c "")) <> ascii_escaped s

unfoldable pub quote_ascii : String → String
unfolding ascii_escaped
quote_ascii s = "\"" <> ascii_escaped s <> "\""

-- `sorted(…)` of keyed values: a stable insertion sort.
module _ {V : Type 0} where
  abbrev pub insert_key : String × V → List (String × V) → List (String × V)
  insert_key x [] = x ∷ []
  insert_key x (y ∷ ys) =
      let rest = insert_key x ys in if is_lt (String.compare y.0 x.0) then y ∷ rest else x ∷ y ∷ ys

  abbrev pub sort_keys : List (String × V) → List (String × V)
  sort_keys [] = []
  sort_keys (x ∷ xs) = insert_key x (sort_keys xs)

-- The values, with a comma between.
abbrev pub joined : List String → String
joined [] = ""
joined (s ∷ []) = s
joined (s ∷ t ∷ ss) = s <> "," <> joined (t ∷ ss)

-- The members `"key":value`, of values that are written already.
abbrev members : List (String × String) → List String
members [] = []
members ((k, v) ∷ ms) = (quote k <> ":" <> v) ∷ members ms

-- An object, its keys sorted.
unfoldable pub dump_object : List (String × String) → String
unfolding quote
dump_object ms = "{" <> joined (members (sort_keys ms)) <> "}"

abbrev pub dump_array : List String → String
dump_array vs = "[" <> joined vs <> "]"

-- `dict[str, str]`
abbrev quoted : List (String × String) → List (String × String)
quoted [] = []
quoted ((k, v) ∷ ms) = (k, quote v) ∷ quoted ms

unfoldable pub dump_texts : List (String × String) → String
unfolding quote dump_object
dump_texts ms = dump_object (quoted ms)
