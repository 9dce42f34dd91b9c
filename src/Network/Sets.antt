-- ===== src/Network/Sets.antt =====
-- `frozenset` of texts, as the sorted list of its elements.
use Prim.Native.String
use Prim.Native.Nat.{Ordering}
use shadowglass_v35_runtime.Common.{String, Bool, true, false, ◌&&◌, List, [], ◌∷◌, str_eq}

abbrev pub add : String → List String → List String
add s [] = s ∷ []
add s (t ∷ ts) =
    let rest = add s ts in
    elim (String.compare s t) [
      | Ordering.lt ↦ s ∷ t ∷ ts
      | Ordering.eq ↦ t ∷ ts
      | Ordering.gt ↦ t ∷ rest
    ]

unfoldable pub set_of : List String → List String
set_of [] = []
set_of (s ∷ ss) = add s (set_of ss)

-- `==` of two sets
abbrev pub same_set : List String → List String → Bool
same_set [] [] = true
same_set (s ∷ ss) (t ∷ ts) = str_eq s t && same_set ss ts
same_set _ _ = false
