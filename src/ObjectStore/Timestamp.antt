-- ===== src/ObjectStore/Timestamp.antt =====
-- scraper.py's `page_document`: documents of other times have other bodies.
use text.Mathlib.TextLemmas.{append_assoc}
use mathlib.Core.List.{append_cancel_left, append_cancel_right}
use shadowglass_v35_runtime.Common.{String, ◌≡◌, refl, sym, ◌∙◌, [], ◌∷◌, ◌++◌, map}
use shadowglass_v35_runtime.Common.Text.{show}
use shadowglass_v35_runtime.Common.Utf8.{encode}
use shadowglass_v35_runtime.Json.Dumps.{◌<>◌, quote, dump_object, dump_array, dump_texts}
use shadowglass_v35_runtime.Json.Dumps.Plain.{IsPlain, encode-append, quote_injective}
use shadowglass_v35_runtime.ObjectStore.Writes.{Document, document_body}

abbrev at_time : Document → String → Document
at_time d now = record d { timestamp = now }

abbrev member : String → String → String
member key value = quote key <> ":" <> value

-- The text up to the timestamp, and the text after it.
abbrev opening : Document → String
opening d =
    "{"
    <> member "county" (quote d.county)
    <> ","
    <> member "domTotal" (show d.dom_total)
    <> ","
    <> member "instrumentType" (quote d.instrument_type)
    <> ","
    <> member "page" (show d.page)
    <> ","
    <> member "records" (dump_array (map dump_texts d.records))
    <> ","
    <> quote "timestamp"
    <> ":"

abbrev closing : Document → String
closing d = "," <> member "totalFound" (show d.total_found) <> "}"

text-split :
    (d : Document) (now : String)
    → dump_object (
        ("county", quote d.county)
        ∷ ("instrumentType", quote d.instrument_type)
        ∷ ("page", show d.page)
        ∷ ("records", dump_array (map dump_texts d.records))
        ∷ ("totalFound", show d.total_found)
        ∷ ("domTotal", show d.dom_total)
        ∷ ("timestamp", quote now)
        ∷ [])
      ≡ opening d <> (quote now <> closing d)
unfolding dump_object
text-split d now = simp (append_assoc)

body-split :
    (d : Document) (now : String)
    → document_body (at_time d now)
      ≡ encode (opening d) ++ (encode (quote now) ++ encode (closing d))
unfolding document_body
body-split d now =
    rw
      (
        text-split d now,
        encode-append (opening d) (quote now <> closing d),
        encode-append (quote now) (closing d),
      )
      refl

-- Documents that differ in their timestamps have different bodies.
pub document_body-timestamp :
    (d : Document) (s t : String)
    → IsPlain s
    → IsPlain t
    → document_body (at_time d s) ≡ document_body (at_time d t)
    → s ≡ t
document_body-timestamp d s t h k e =
    let rest =
      append_cancel_left (encode (opening d)) (encode (quote s) ++ encode (closing d))
        (encode (quote t) ++ encode (closing d)) (sym (body-split d s) ∙ e ∙ body-split d t) in
    quote_injective s t h k
      (append_cancel_right (encode (quote s)) (encode (quote t)) (encode (closing d)) rest)
