-- ===== src/Scraper/Tables.antt =====
-- scraper.py: `_TableParser` and `_public_record`, with the events of Python's HTML parser,
-- `str.casefold` and SHA-256 as arguments.
use Prim.Native.String
use shadowglass_v35_runtime.Common.{
  ℕ, ◌*◌, String, Bool, true, false, not, ◌&&◌, Option, none, some, List, [], ◌∷◌, ◌++◌, length,
  leb, ltb, coalesce, str_eq, if◌then◌else◌,
}
use shadowglass_v35_runtime.Common
use shadowglass_v35_runtime.Common.Text
use shadowglass_v35_runtime.Common.Text.{collapse, strip, is_empty, split_on}
use shadowglass_v35_runtime.Common.Utf8.{encode}
use shadowglass_v35_runtime.Database.Scrape.{Record}
use shadowglass_v35_runtime.Json.Tree.{Value, Items, nil, cons, array, object, get, text}
use shadowglass_v35_runtime.Scraper.Session.{set_item}

-- What `HTMLParser` calls: `handle_starttag`, `handle_data`, `handle_endtag`.
pub data Event : Type 0 where
  start_tag : String → List (String × Option String) → Event
  text_data : String → Event
  end_tag : String → Event

abbrev pub Attributes : Type 0
Attributes = List (String × String)

-- `sep.join(texts)`
abbrev pub join : String → List String → String
join sep [] = ""
join sep (s ∷ []) = s
join sep (s ∷ t ∷ ts) = String.◌++◌ s (String.◌++◌ sep (join sep (t ∷ ts)))

-- `attrs.get(name, "")`
abbrev pub attribute : String → Attributes → String
attribute name [] = ""
attribute name ((k, v) ∷ attrs) = if str_eq k name then v else attribute name attrs

-- `_TableParser`'s fields
pub record Table : Type 0 where
  pub rows : List (Attributes × List String)
  pub texts : List String
  pub row : Option (List String)
  pub attrs : Attributes
  pub cell : Option (List String)

abbrev pub new_table : Table
new_table = record { rows = []; texts = []; row = none; attrs = []; cell = none }

module _ (casefold : String → String) where
  -- `{key.casefold(): value or "" for key, value in attrs}`
  abbrev pub folded : List (String × Option String) → Attributes → Attributes
  folded [] d = d
  folded ((k, v) ∷ attrs) d = folded attrs (set_item (casefold k) (coalesce v "") d)

  abbrev table_start : String → List (String × Option String) → Table → Table
  table_start tag attrs t =
      if str_eq tag "tr"
      then record t { row = some []; attrs = folded attrs [] }
      else if str_eq tag "td" && Common.is_some t.row
      then record t { cell = some [] }
      else t

  abbrev more : Option (List String) → String → Option (List String)
  more none s = none
  more (some ss) s = some (ss ++ s ∷ [])

  abbrev table_text : String → Table → Table
  table_text s t = record t { texts = t.texts ++ s ∷ []; cell = more t.cell s }

  abbrev close_cell : Table → Option (List String) → Option (List String) → Table
  close_cell t (some cell) (some row) = record t {
    row = some (row ++ collapse (join " " cell) ∷ []);
    cell = none;
  }
  close_cell t _ _ = t

  abbrev close_row : Table → Option (List String) → Table
  close_row t none = t
  close_row t (some row) = record t { rows = t.rows ++ (t.attrs, row) ∷ []; row = none }

  abbrev table_end : String → Table → Table
  table_end tag t =
      if str_eq tag "td" && Common.is_some t.cell && Common.is_some t.row
      then close_cell t t.cell t.row
      else if str_eq tag "tr"
      then close_row t t.row
      else t

  unfoldable pub table_step : Event → Table → Table
  unfolding collapse
  table_step (start_tag tag attrs) t = table_start (casefold tag) attrs t
  table_step (text_data s) t = table_text s t
  table_step (end_tag tag) t = table_end (casefold tag) t

  unfoldable pub feed_table : List Event → Table → Table
  unfolding table_step
  feed_table [] t = t
  feed_table (e ∷ es) t = feed_table es (table_step e t)

module _ (sha256 : List ℕ → String) where
  -- `_fallback_id`
  unfoldable pub fallback_id : List String → String
  unfolding encode
  fallback_id values =
      String.◌++◌ "generated-" (Text.take 24 (sha256 (encode (join "\u{1f}" values))))

  -- The first attribute of these that is not empty, else the document number.
  abbrev external_id : Attributes → String → List String → String
  external_id attrs document values =
      let a = attribute "data-id" attrs in
      let b = attribute "data-doc-id" attrs in
      let c = attribute "data-document-id" attrs in
      let chosen =
        if not (is_empty a)
        then a
        else if not (is_empty b)
        then b
        else if not (is_empty c)
        then c
        else document in
      if is_empty chosen then fallback_id values else chosen

  -- The seven values of a row.
  abbrev record_of : Attributes → List String → Option Record
  record_of attrs (grantor ∷ grantee ∷ kind ∷ recorded ∷ document ∷ book_page ∷ legal ∷ rest) =
      if is_empty grantor && is_empty grantee && is_empty kind
      then none
      else some (
          (
            "id",
            external_id attrs document
                (grantor ∷ grantee ∷ kind ∷ recorded ∷ document ∷ book_page ∷ legal ∷ []),
          )
          ∷ ("grantor", grantor)
          ∷ ("grantee", grantee)
          ∷ ("instrumentType", kind)
          ∷ ("recordedDate", recorded)
          ∷ ("filingDate", recorded)
          ∷ ("bookPage", book_page)
          ∷ ("legalDescription", legal)
          ∷ ("consideration", "")
          ∷ [])
  record_of attrs _ = none

  abbrev drop_three : List String → List String
  drop_three (a ∷ b ∷ c ∷ rest) = rest
  drop_three _ = []

  -- `_public_record`
  unfoldable pub public_record : List String → Attributes → Option Record
  unfolding fallback_id
  public_record cells attrs =
      record_of attrs (if leb 10 (length cells) then drop_three cells else cells)

  abbrev kept : Option Record → List Record → List Record
  kept none rs = rs
  kept (some r) rs = r ∷ rs

  abbrev pub row_records : List (Attributes × List String) → List Record
  row_records [] = []
  row_records ((attrs, cells) ∷ rows) = kept (public_record cells attrs) (row_records rows)

  abbrev cleaned : List String → List String
  cleaned [] = []
  cleaned (s ∷ ss) = collapse s ∷ cleaned ss

  abbrev item_text : Value → Option String
  item_text (object item) = text (get "text" item)
  item_text _ = none

  abbrev item_record : Option String → Option Record
  item_record none = none
  item_record (some s) = public_record (cleaned (split_on b'\t' s)) []

  abbrev item_records : Items → List Record
  item_records nil = []
  item_records (cons v vs) = kept (item_record (item_text v)) (item_records vs)

  abbrev pub extracted_records : Option Value → List Record
  extracted_records (some (array items)) = item_records items
  extracted_records _ = []
