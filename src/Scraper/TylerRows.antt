-- ===== src/Scraper/TylerRows.antt =====
-- scraper.py: `_LinkParser` and `_TylerRows`.
use Prim.Native.Char.{code}
use shadowglass_v35_runtime.Common.{
  ℕ, zero, suc, ◌+◌, ◌-◌, ◌==◌, String, Bool, true, false, not, ◌&&◌, ◌||◌, Option, none, some,
  List, [], ◌∷◌, ◌++◌, filter, any, coalesce, str_eq, if◌then◌else◌,
}
use shadowglass_v35_runtime.Common
use shadowglass_v35_runtime.Common.Text.{collapse, strip, is_empty, includes, split_on}
use shadowglass_v35_runtime.Database.Scrape.{Record}
use shadowglass_v35_runtime.Network.{UrlLib}
use shadowglass_v35_runtime.Scraper.Session.{set_item}
use shadowglass_v35_runtime.Scraper.Tables.{
  Event, start_tag, text_data, end_tag, Attributes, join, attribute, folded,
}

-- `dict(attrs)["href"]`: the last one counts.
abbrev href_of : List (String × Option String) → String → String
href_of [] found = found
href_of ((k, v) ∷ attrs) found = href_of attrs (if str_eq k "href" then coalesce v "" else found)

module _ (casefold : String → String) where
  -- `_LinkParser`: the links of the document, in order.
  unfoldable pub links_of : List Event → List String
  links_of [] = []
  links_of (start_tag tag attrs ∷ es) =
      let href = href_of attrs "" in
      let rest = links_of es in
      if str_eq (casefold tag) "a" && not (is_empty href) then href ∷ rest else rest
  links_of (text_data s ∷ es) = links_of es
  links_of (end_tag tag ∷ es) = links_of es

-- `_TylerRows`'s fields; the row is a dict.
pub record Rows : Type 0 where
  pub rows : List Record
  pub depth : ℕ
  pub row : Option Record
  pub heading : Option (List String)
  pub item : Option (List String)

abbrev pub new_rows : Rows
new_rows = record { rows = []; depth = 0; row = none; heading = none; item = none }

-- `word in value.split()`, of a word that is not empty
abbrev has_word : String → String → Bool
has_word word value = any (λ w. str_eq w word) (split_on b' ' (collapse value))

-- `d.pop(key, None)`
abbrev without : String → Record → Record
without key r = filter (λ b. not (str_eq b.0 key)) r

-- `text.partition(":")`: the parts, and whether the separator is there.
abbrev partition_colon : String → String × Bool × String
partition_colon String.[] = ("", false, "")
partition_colon (String.◌∷◌ c s) =
    let (label, found, value) = partition_colon s in
    if code c == b':' then ("", true, s) else (String.◌∷◌ c label, found, value)

-- `re.split(r"[•·]", heading, maxsplit=1)`
abbrev split_bullet : String → String × Option String
split_bullet String.[] = ("", none)
split_bullet (String.◌∷◌ c s) =
    let (first, rest) = split_bullet s in
    if code c == 0x2022 || code c == 0xb7 then ("", some s) else (String.◌∷◌ c first, rest)

module _ (casefold : String → String) (lib : UrlLib) (origin : String) where
  -- A tag inside a row.
  abbrev inner_start : String → Attributes → Rows → Record → Rows
  inner_start tag values t row =
      let deeper = record t { depth = t.depth + 1 } in
      if str_eq tag "h1"
      then record deeper { heading = some [] }
      else if str_eq tag "li"
      then record deeper { item = some [] }
      else if str_eq tag "a" && includes (attribute "href" values) "/document/"
      then record deeper {
        row = some (set_item "pdfUrl" (lib.urljoin origin (attribute "href" values)) row);
      }
      else deeper

  abbrev rows_start : String → Attributes → Rows → Option Record → Rows
  rows_start tag values t row =
      if str_eq tag "li" && has_word "ss-search-row" (attribute "class" values)
      then record t {
        row = some (("_documentid", attribute "data-documentid" values) ∷ []);
        depth = 1;
      }
      else elim row [ none ↦ t | some r ↦ inner_start tag values t r ]

  abbrev more : Option (List String) → String → Option (List String)
  more none s = none
  more (some ss) s = some (ss ++ s ∷ [])

  abbrev with_heading : Record → List String → Record
  with_heading row texts =
      let (first, rest) = split_bullet (collapse (join " " texts)) in
      let named = set_item "id" (strip first) row in
      elim rest [ none ↦ named | some kind ↦ set_item "instrumentType" (strip kind) named ]

  abbrev labelled : Record → String → String → Record
  labelled row key value =
      if includes key "recording date"
      then set_item "filingDate" value (set_item "recordedDate" value row)
      else if str_eq key "grantor"
      then set_item "grantor" value row
      else if str_eq key "grantee"
      then set_item "grantee" value row
      else if includes key "legal"
      then set_item "legalDescription" value row
      else if includes key "book" && includes key "page"
      then set_item "bookPage" value row
      else row

  abbrev with_item : Record → List String → Record
  with_item row texts =
      let (label, found, value) = partition_colon (collapse (join " " texts)) in
      if found then labelled row (strip (casefold label)) (strip value) else row

  -- The end of a heading or of an item.
  abbrev inner_end : String → Rows → Record → Rows × Record
  inner_end tag t row =
      if str_eq tag "h1" && Common.is_some t.heading
      then (record t { heading = none }, with_heading row (coalesce t.heading []))
      else if str_eq tag "li" && Common.is_some t.item
      then (record t { item = none }, with_item row (coalesce t.item []))
      else (t, row)

  -- `record["id"] = record.get("id") or record.pop("_documentid", "")`
  abbrev identified : Record → Record
  identified row =
      if is_empty (attribute "id" row)
      then set_item "id" (attribute "_documentid" row) (without "_documentid" row)
      else row

  abbrev finished : Record → Record
  finished row =
      let named = identified row in
      set_item "consideration" ""
        (set_item "instrumentType" (attribute "instrumentType" named) named)

  abbrev is_complete : Record → Bool
  is_complete r =
      not (is_empty (attribute "id" r))
      && not (is_empty (attribute "grantor" r))
      && not (is_empty (attribute "recordedDate" r))

  -- `self._depth -= 1`, and the end of the row at 0.
  abbrev shallower : Rows × Record → Rows
  shallower (t, row) =
      let done = finished row in
      if t.depth - 1 == 0
      then record t {
        rows = if is_complete done then t.rows ++ without "_documentid" done ∷ [] else t.rows;
        depth = 0;
        row = none;
      }
      else record t { depth = t.depth - 1; row = some row }

  abbrev rows_end : String → Rows → Option Record → Rows
  rows_end tag t none = t
  rows_end tag t (some row) = shallower (inner_end tag t row)

  unfoldable pub rows_step : Event → Rows → Rows
  unfolding collapse strip split_on
  rows_step (start_tag tag attrs) t = rows_start (casefold tag) (folded casefold attrs []) t t.row
  rows_step (text_data s) t = record t { heading = more t.heading s; item = more t.item s }
  rows_step (end_tag tag) t = rows_end (casefold tag) t t.row

  unfoldable pub feed_rows : List Event → Rows → Rows
  unfolding rows_step
  feed_rows [] t = t
  feed_rows (e ∷ es) t = feed_rows es (rows_step e t)
