-- ===== src/Common/Text.antt =====
-- Python's text operations on native texts, character by character.
pub mod Decimal
use Prim.Native.Nat.{ℕ, zero, suc, ◌/◌, ◌%◌}
use Prim.Native.String
use Prim.Native.Char.{code}
use Prim.Native.String.{String}
use mathlib.Core.Bool.{Bool, true, false, ◌&&◌, ◌||◌}
use shadowglass_v35_runtime.Common.Int.{ℤ, pos, negsuc}
use mathlib.Core.List.{List, [], ◌∷◌}
use shadowglass_v35_runtime.Common.Tests.{ltb, leb, ◌==◌, str_eq, if◌then◌else◌}

-- `len(s)`: Python counts code points.
abbrev pub length : String → ℕ
length String.[] = 0
length (String.◌∷◌ c s) = suc (length s)

-- `str.isspace` of one character: the code points that `strip` and `split` treat as white space.
unfoldable pub is_space : ℕ → Bool
is_space c =
    (leb 9 c && leb c 13)
    || (leb 28 c && leb c 32)
    || c == 0x85
    || c == 0xa0
    || c == 0x1680
    || (leb 0x2000 c && leb c 0x200a)
    || c == 0x2028
    || c == 0x2029
    || c == 0x202f
    || c == 0x205f
    || c == 0x3000

abbrev pub is_empty : String → Bool
is_empty String.[] = true
is_empty (String.◌∷◌ c s) = false

-- `s.lstrip()`
unfoldable pub lstrip : String → String
lstrip String.[] = ""
lstrip (String.◌∷◌ c s) = let rest = lstrip s in if is_space (code c) then rest else String.◌∷◌ c s

-- `s.rstrip()`
unfoldable pub rstrip : String → String
rstrip String.[] = ""
rstrip (String.◌∷◌ c s) =
    let rest = rstrip s in if is_empty rest && is_space (code c) then "" else String.◌∷◌ c rest

-- `s.strip()`
unfoldable pub strip : String → String
unfolding lstrip rstrip is_space
strip s = rstrip (lstrip s)

-- `s[:n]`
abbrev pub take : ℕ → String → String
take zero s = ""
take (suc n) String.[] = ""
take (suc n) (String.◌∷◌ c s) = String.◌∷◌ c (take n s)

-- `s.startswith(p)`
abbrev pub starts_with : String → String → Bool
starts_with s String.[] = true
starts_with String.[] (String.◌∷◌ d p) = false
starts_with (String.◌∷◌ c s) (String.◌∷◌ d p) = code c == code d && starts_with s p

-- Every character's code point passes.
abbrev pub every : (ℕ → Bool) → String → Bool
every test String.[] = true
every test (String.◌∷◌ c s) = test (code c) && every test s

abbrev digit : ℕ → String
digit d =
    if d == 0
    then "0"
    else if d == 1
    then "1"
    else if d == 2
    then "2"
    else if d == 3
    then "3"
    else if d == 4
    then "4"
    else if d == 5
    then "5"
    else if d == 6
    then "6"
    else if d == 7
    then "7"
    else if d == 8
    then "8"
    else "9"

-- The decimal digits of a number; the fuel is more than the number of digits.
show_from : ℕ → ℕ → String
show_from zero n = ""
show_from (suc f) n =
    let rest = show_from f (n / 10) in
    if ltb n 10 then digit n else String.◌++◌ rest (digit (n % 10))

-- `str(n)` of a number that is not negative.
unfoldable pub show : ℕ → String
unfolding show_from
show n = show_from (suc n) n

-- `str(n)`
unfoldable pub show_ℤ : ℤ → String
unfolding show
show_ℤ (pos n) = show n
show_ℤ (negsuc n) = String.◌++◌ "-" (show (suc n))

-- `started`: a word was seen; `gap`: white space was seen after it.
collapse_from : Bool → Bool → String → String
collapse_from started gap String.[] = ""
collapse_from started gap (String.◌∷◌ c s) =
    let space = is_space (code c) in
    let rest =
      collapse_from (if space then started else true) (if space then started else false) s in
    if space then rest else if gap then String.◌++◌ " " (String.◌∷◌ c rest) else String.◌∷◌ c rest

-- `" ".join(s.split())`
unfoldable pub collapse : String → String
unfolding collapse_from is_space
collapse s = collapse_from false false s

-- `s or t`
abbrev pub or_text : String → String → String
or_text s t = if is_empty s then t else s

-- `t in s`
abbrev pub includes : String → String → Bool
includes String.[] t = is_empty t
includes (String.◌∷◌ c s) t = starts_with (String.◌∷◌ c s) t || includes s t

-- `s * n`
abbrev pub replicate : ℕ → String → String
replicate zero s = ""
replicate (suc n) s = String.◌++◌ s (replicate n s)

-- `s.endswith(t)`
abbrev pub ends_with : String → String → Bool
ends_with String.[] t = is_empty t
ends_with (String.◌∷◌ c s) t = str_eq (String.◌∷◌ c s) t || ends_with s t

-- The first text of a list, with a character before it.
abbrev push : String → List String → List String
push c [] = c ∷ []
push c (s ∷ ss) = String.◌++◌ c s ∷ ss

-- `s.split(d)` at the code point of one character
unfoldable pub split_on : ℕ → String → List String
split_on d String.[] = "" ∷ []
split_on d (String.◌∷◌ c s) =
    let rest = split_on d s in if code c == d then "" ∷ rest else push (String.◌∷◌ c "") rest

-- A `fullmatch` of as many characters as there are classes.
unfoldable pub matches : List (ℕ → Bool) → String → Bool
matches [] s = is_empty s
matches (p ∷ ps) String.[] = false
matches (p ∷ ps) (String.◌∷◌ c s) = p (code c) && matches ps s

-- `s.rstrip(d)` at the code point of one character
unfoldable pub rstrip_char : ℕ → String → String
rstrip_char d String.[] = ""
rstrip_char d (String.◌∷◌ c s) =
    let rest = rstrip_char d s in if is_empty rest && code c == d then "" else String.◌∷◌ c rest
