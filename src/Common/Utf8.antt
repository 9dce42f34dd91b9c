-- ===== src/Common/Utf8.antt =====
-- `str.encode("utf-8")`: a text as bytes.
use Prim.Native.Char.{code}
use Prim.Native.Nat.{ℕ, ◌+◌, ◌/◌, ◌%◌}
use Prim.Native.String.{String}
use mathlib.Core.List.{List, [], ◌∷◌, ◌++◌}
use shadowglass_v35_runtime.Common.Tests.{ltb, if◌then◌else◌}

-- The continuation byte of six bits.
abbrev tail_byte : ℕ → ℕ
tail_byte bits = 128 + bits % 64

abbrev encode_code : ℕ → List ℕ
encode_code c =
    if ltb c 0x80
    then c ∷ []
    else if ltb c 0x800
    then (192 + c / 64) ∷ tail_byte c ∷ []
    else if ltb c 0x10000
    then (224 + c / 4096) ∷ tail_byte (c / 64) ∷ tail_byte c ∷ []
    else (240 + c / 262144) ∷ tail_byte (c / 4096) ∷ tail_byte (c / 64) ∷ tail_byte c ∷ []

unfoldable pub encode : String → List ℕ
encode String.[] = []
encode (String.◌∷◌ c s) = encode_code (code c) ++ encode s
