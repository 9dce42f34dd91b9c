-- ===== src/Json/Dumps/Plain.antt =====
-- The JSON of texts that `json.dumps` does not escape, as bytes.
use Prim.Native.Char.{Char, code}
use text.Mathlib.TextEquality.{Char-path}
use text.Mathlib.TextLemmas.{nil-append, cons-append}
use mathlib.Core.List.{append_cancel_left, append_cancel_right, append_assoc}
use shadowglass_v35_runtime.Common.{
  ℕ, String, ◌≡◌, refl, sym, ap, ◌∙◌, Bool, true, not, ◌&&◌, ◌∷◌, ◌++◌, leb, ltb, ◌==◌, arith,
}
use shadowglass_v35_runtime.Common.Utf8.{encode}
use shadowglass_v35_runtime.Json.Dumps.{◌<>◌, quote, escaped, escape_code}

-- A printable ASCII character other than the quotation mark and the backslash.
abbrev is_plain : ℕ → Bool
is_plain c = leb 32 c && ltb c 127 && not (c == 34) && not (c == 92)

-- A text of such characters, as a timestamp of `isoformat()` is.
abbrev pub IsPlain : String → Type 0
IsPlain String.[] = Unit
IsPlain (String.◌∷◌ c s) = (is_plain (code c) ≡ true) × IsPlain s

pub encode-append : (s t : String) → encode (s <> t) ≡ encode s ++ encode t
unfolding encode
encode-append String.[] t = rw (nil-append t) refl
encode-append (String.◌∷◌ c s) t =
    rw (cons-append c s t, encode-append s t) (sym (append_assoc _ (encode s) (encode t)))

escape_plain : (c : ℕ) (kept : String) → is_plain c ≡ true → escape_code c kept ≡ kept
unfolding escape_code
escape_plain c kept h = ground arith

escaped_plain : (s : String) → IsPlain s → escaped s ≡ s
unfolding escaped
escaped_plain String.[] h = refl
escaped_plain (String.◌∷◌ c s) (p, h) =
    rw (escape_plain (code c) (String.◌∷◌ c "") p, escaped_plain s h)
      (cons-append c "" s ∙ ap (λ t. String.◌∷◌ c t) (nil-append s))

encode_plain :
    (c : Char) (s : String) → is_plain (code c) ≡ true → encode (String.◌∷◌ c s) ≡ code c ∷ encode s
unfolding encode
encode_plain c s h = ground arith

encode_injective : (s t : String) → IsPlain s → IsPlain t → encode s ≡ encode t → s ≡ t
unfolding encode
encode_injective String.[] String.[] h k e = refl
encode_injective String.[] (String.◌∷◌ d t) h (q, k) e = absurd (cc (e ∙ encode_plain d t q))
encode_injective (String.◌∷◌ c s) String.[] (p, h) k e = absurd (cc (sym e ∙ encode_plain c s p))
encode_injective (String.◌∷◌ c s) (String.◌∷◌ d t) (p, h) (q, k) e =
    let same : (code c ∷ encode s) ≡ (code d ∷ encode t) =
      sym (encode_plain c s p) ∙ e ∙ encode_plain d t q in
    let first : c ≡ d = Char-path c d (ground arith) in
    let rest : s ≡ t = encode_injective s t h k (ground arith) in rw (first, rest) refl

encode-quote :
    (s : String) → IsPlain s → encode (quote s) ≡ encode "\"" ++ (encode s ++ encode "\"")
unfolding quote
encode-quote s h = rw (escaped_plain s h, encode-append "\"" (s <> "\""), encode-append s "\"") refl

-- Different plain texts have different JSON.
pub quote_injective :
    (s t : String) → IsPlain s → IsPlain t → encode (quote s) ≡ encode (quote t) → s ≡ t
quote_injective s t h k e =
    let inner =
      append_cancel_left (encode "\"") (encode s ++ encode "\"") (encode t ++ encode "\"")
        (sym (encode-quote s h) ∙ e ∙ encode-quote t k) in
    encode_injective s t h k (append_cancel_right (encode s) (encode t) (encode "\"") inner)
