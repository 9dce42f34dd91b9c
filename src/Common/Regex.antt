-- ===== src/Common/Regex.antt =====
-- The regular expressions of the program that search a text, by backtracking as Python's `re`: a
-- pattern is a sequence of pieces, and a piece answers the places where it can end, in the order in
-- which they are tried.
use Prim.Native.Char.{code}
use Prim.Native.Nat.{ℕ, zero, suc, ◌+◌, ◌*◌, ◌-◌}
use Prim.Native.String.{String}
use mathlib.Core.Bool.{Bool, true, false, not}
use mathlib.Core.Option.{Option, none, some}
use mathlib.Core.List.{List, [], ◌∷◌, ◌++◌}
use shadowglass_v35_runtime.Common.Tests.{◌==◌, if◌then◌else◌}

-- What `re` asks of Unicode: a decimal digit's value, a word character, a white space, and the lower
-- case by which IGNORECASE compares.
pub record Unicode : Type 0 where
  pub digit : ℕ → Option ℕ
  pub is_word : ℕ → Bool
  pub is_space : ℕ → Bool
  pub lower : ℕ → ℕ

-- A character class repeated, at least and at most so often; a literal of any case; one of several;
-- `\b`; and the ends of the group.
pub data Piece : Type 0 where
  run : (ℕ → Bool) → ℕ → Option ℕ → Piece
  words : List String → Piece
  boundary open_group close_group : Piece

-- A place in the text: the character before it, the rest, and the group so far.
pub record Place : Type 0 where
  pub before : Option ℕ
  pub rest : List ℕ
  pub inside : Bool
  pub group : List ℕ

abbrev codes : String → List ℕ
codes String.[] = []
codes (String.◌∷◌ c s) = code c ∷ codes s

abbrev advance : ℕ → List ℕ → Place → Place
advance c rest p = record p {
  before = some c;
  rest = rest;
  group = if p.inside then p.group ++ c ∷ [] else p.group;
}

module _ (u : Unicode) where
  abbrev at_boundary : Option ℕ → List ℕ → Bool
  at_boundary none [] = false
  at_boundary none (c ∷ cs) = u.is_word c
  at_boundary (some b) [] = u.is_word b
  at_boundary (some b) (c ∷ cs) = if u.is_word b then not (u.is_word c) else u.is_word c

  -- The ends of a greedy run, the longest first.
  runs : (ℕ → Bool) → ℕ → Option ℕ → List ℕ → Place → List Place
  runs test least most [] p = if least == 0 then p ∷ [] else []
  runs test least most (c ∷ cs) p =
      let longer : List Place = elim most [
        | none ↦ runs test (least - 1) none cs (advance c cs p)
        | some zero ↦ []
        | some (suc n) ↦ runs test (least - 1) (some n) cs (advance c cs p)
      ] in
      let here : List Place = if least == 0 then p ∷ [] else [] in
      if test c then longer ++ here else here

  -- A literal of any case.
  literal : List ℕ → Place → List ℕ → Option Place
  literal [] p rest = some p
  literal (c ∷ cs) p [] = none
  literal (c ∷ cs) p (d ∷ rest) =
      let more = literal cs (advance d rest p) rest in if u.lower c == u.lower d then more else none

  alternatives : List String → Place → List Place
  unfolding literal
  alternatives [] p = []
  alternatives (w ∷ ws) p = elim (literal (codes w) p p.rest) [
    | none ↦ alternatives ws p
    | some q ↦ q ∷ alternatives ws p
  ]

  ends : Piece → Place → List Place
  unfolding runs alternatives
  ends (run test least most) p = runs test least most p.rest p
  ends (words ws) p = alternatives ws p
  ends boundary p = if at_boundary p.before p.rest then p ∷ [] else []
  ends open_group p = record p { inside = true } ∷ []
  ends close_group p = record p { inside = false } ∷ []

  abbrev first_some : (Place → Option (List ℕ)) → List Place → Option (List ℕ)
  first_some f [] = none
  first_some f (p ∷ ps) = elim (f p) [ none ↦ first_some f ps | some g ↦ some g ]

  -- The group of a match at a place.
  match_at : List Piece → Place → Option (List ℕ)
  unfolding ends
  match_at [] p = some p.group
  match_at (piece ∷ pieces) p = first_some (match_at pieces) (ends piece p)

  search_from : List Piece → Option ℕ → List ℕ → Option (List ℕ)
  unfolding match_at
  search_from pieces before [] =
      match_at pieces (record { before = before; rest = []; inside = false; group = [] })
  search_from pieces before (c ∷ cs) =
      elim (match_at pieces
        (record { before = before; rest = c ∷ cs; inside = false; group = [] })) [
          | some group ↦ some group
          | none ↦ search_from pieces (some c) cs
        ]

  -- `re.search(pattern, text).group(1)`
  unfoldable pub search_group : List Piece → String → Option (List ℕ)
  unfolding search_from
  search_group pieces text = search_from pieces none (codes text)

  -- `\d+`, `\s*`, … of the patterns
  abbrev pub is_digit : ℕ → Bool
  is_digit c = elim (u.digit c) [ none ↦ false | some _ ↦ true ]

-- `int(text)` of digits; `none` where it raises.
digits_from : (ℕ → Option ℕ) → ℕ → List ℕ → Option ℕ
digits_from digit n [] = some n
digits_from digit n (c ∷ cs) = elim (digit c) [
  | none ↦ none
  | some d ↦ digits_from digit (10 * n + d) cs
]

unfoldable pub int_of : (ℕ → Option ℕ) → List ℕ → Option ℕ
unfolding digits_from
int_of digit [] = none
int_of digit (c ∷ cs) = digits_from digit 0 (c ∷ cs)
