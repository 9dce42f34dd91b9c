-- ===== src/Scraper/Tyler.antt =====
-- scraper.py: `TylerAdapter`. Python's URL quoting, HTML and JSON parsing, the text of a date and the
-- decoding of a body (`errors="replace"`) are arguments.
use Prim.Native.String
use shadowglass_v35_runtime.Common.{
  ℕ, zero, suc, ◌==◌, String, not, ◌&&◌, Option, none, some, List, [], ◌∷◌, find, leb, ltb,
  if◌then◌else◌,
}
use shadowglass_v35_runtime.Common.Int.{ℤ, pos}
use shadowglass_v35_runtime.Common.Text.{is_empty, includes, split_on, rstrip_char}
use shadowglass_v35_runtime.Common.Result.{Result, ok, err, value_error, scrape_error, raise_if}
use shadowglass_v35_runtime.Database.Context.{JobContext}
use shadowglass_v35_runtime.Database.Scrape.{Record}
use shadowglass_v35_runtime.Network.{Bytes, Url, UrlLib, Network, Net, ◌>>=◌, ◌>>◌, pure, lift}
use shadowglass_v35_runtime.Scraper.Session.{Web, request}
use shadowglass_v35_runtime.Scraper.Tables.{Event}
use shadowglass_v35_runtime.Scraper.TylerRows.{links_of, new_rows, feed_rows}

-- The parts of Python's library that the adapter calls. `total_pages` is
-- `int(json.loads(raw)["totalPages"])`, `none` where that raises; `us_date` is `%m/%d/%Y` of an
-- ordinal.
pub record Library : Type 0 where
  pub lib : UrlLib
  pub casefold : String → String
  pub upper : String → String
  pub quote_path : String → String
  pub urlencode : List (String × String) → String
  pub ascii : String → Bytes
  pub decode_replacing : Bytes → String
  pub html_events : String → List Event
  pub total_pages : Bytes → Option ℤ
  pub us_date : ℕ → String

-- `TylerAdapter`'s fields; its session is in the state.
pub record Adapter : Type 0 where
  pub context : JobContext
  pub base_path : String
  pub search_path : String

abbrev pub ajax : List (String × String)
ajax = ("ajaxRequest", "true") ∷ ("X-Requested-With", "XMLHttpRequest") ∷ []

-- `urlsplit(path).path.rstrip("/").split("/")[-1]`
abbrev last_text : List String → String → String
last_text [] found = found
last_text (s ∷ ss) found = last_text ss s

module _ {N : Type 0} (py : Library) (net : Network N) where
  open py use {
    lib, casefold, upper, quote_path, urlencode, ascii, decode_replacing, html_events, total_pages,
    us_date,
  }

  abbrev get_page : String → List (String × String) → Net (Web N) (ℕ × Bytes)
  get_page path headers = request lib net 5 "GET" path headers none

  abbrev post : String → List (String × String) → Bytes → Net (Web N) (ℕ × Bytes)
  post path headers body = request lib net 5 "POST" path headers (some body)

  -- `_require`
  abbrev pub require : String → ℕ × Bytes → Net (Web N) String
  require label (status, raw) =
      if leb 200 status && ltb status 300
      then pure (decode_replacing raw)
      else lift
          (err scrape_error (String.◌++◌ "Tyler " (String.◌++◌ label " returned non-success")))

  -- The first link with both marks, or "".
  abbrev link_with : String → String → String → String
  link_with mark upper_mark html =
      elim (find (λ href. includes href mark && includes (upper href) upper_mark)
        (links_of casefold (html_events html))) [ none ↦ "" | some href ↦ href ]

  abbrev pub base_path_of : JobContext → Result String
  base_path_of c = elim (lib.urlsplit c.base_url) [
    | none ↦ err value_error "Invalid URL"
    | some url ↦ ok (if includes url.path "/recorder/" then "/recorder/web" else "/web")
  ]

  unfoldable pub initialize : Adapter → Net (Web N) Adapter
  unfolding request links_of
  initialize a = do
    first ← get_page (String.◌++◌ a.base_path "/user/disclaimer") []
    require "disclaimer" first
    accepted ← post (String.◌++◌ a.base_path "/user/disclaimer") ajax []
    require "disclaimer acceptance" accepted
    home ← get_page (String.◌++◌ a.base_path "/") []
    require "home" home
    actions ← post (String.◌++◌ a.base_path "/homeActions") ajax []
    actions_html ← require "home actions" actions
    let action = link_with "/action/" "ACTIONGROUP" actions_html
    lift (raise_if (is_empty action) scrape_error "Tyler action group is unavailable")
    group ← get_page action []
    group_html ← require "action group" group
    let search = link_with "/search/" "DOCSEARCH" group_html
    lift (raise_if (is_empty search) scrape_error "Tyler document search module is unavailable")
    form ← get_page search []
    require "search form" form
    pure (record a { search_path = search })

  abbrev action_id_of : Option Url → Result String
  action_id_of none = err value_error "Invalid URL"
  action_id_of (some url) = ok (last_text (split_on b'/' (rstrip_char b'/' url.path)) "")

  abbrev fields_of : Adapter → ℕ → ℕ → List (String × String)
  fields_of a start end =
      ("field_BothNamesID", "")
      ∷ ("field_GrantorID", "")
      ∷ ("field_GranteeID", "")
      ∷ ("field_RecordingDateID_DOT_StartDate", us_date start)
      ∷ ("field_RecordingDateID_DOT_EndDate", us_date end)
      ∷ ("field_DocumentNumberID", "")
      ∷ ("field_BookPageID_DOT_Book", "")
      ∷ ("field_BookPageID_DOT_Volume", "")
      ∷ ("field_BookPageID_DOT_Page", "")
      ∷ ("field_PlattedLegalID_DOT_Subdivision", "")
      ∷ ("field_PlattedLegalID_DOT_Lot", "")
      ∷ ("field_PlattedLegalID_DOT_Block", "")
      ∷ ("field_PlattedLegalID_DOT_Tract", "")
      ∷ ("field_PlattedLegalID_DOT_Unit", "")
      ∷ ("field_selfservice_documentTypes", a.context.instrument_type)
      ∷ []

  -- The JSON envelope of a search.
  abbrev envelope : Option ℤ → Result ℕ
  envelope none = err scrape_error "Tyler search response is invalid"
  envelope (some (pos n)) = ok n
  envelope (some n) = err scrape_error "Tyler search page count is invalid"

  -- `_submit_search`: the action id, the number of pages and the referer.
  unfoldable pub submit_search : Adapter → ℕ → ℕ → Net (Web N) (String × ℕ × String)
  unfolding request split_on rstrip_char
  submit_search a start end = do
    lift (raise_if (is_empty a.search_path) scrape_error "Tyler search session is not initialized")
    action_id ← lift (action_id_of (lib.urlsplit a.search_path))
    origin ← (λ w. (ok w.session.origin, w))
    let referer = lib.urljoin origin a.search_path
    (status, raw) ←
        post (String.◌++◌ a.base_path (String.◌++◌ "/searchPost/" (quote_path action_id)))
          (("ajaxRequest", "true")
            ∷ ("X-Requested-With", "XMLHttpRequest")
            ∷ ("Content-Type", "application/x-www-form-urlencoded")
            ∷ ("Accept", "application/json")
            ∷ ("Origin", origin)
            ∷ ("Referer", referer)
            ∷ [])
          (ascii (urlencode (fields_of a start end)))
    lift (
        raise_if (not (leb 200 status && ltb status 300)) scrape_error
          "Tyler search submission returned non-success")
    pages ← lift (envelope (total_pages raw))
    pure (action_id, pages, referer)

  -- The three attempts at a result page: another one while the server answers 500.
  unfoldable pub result_page : ℕ → String → String → Net (Web N) (ℕ × Bytes)
  unfolding request
  result_page zero path referer =
      get_page path (("Accept", "text/html") ∷ ("Referer", referer) ∷ [])
  result_page (suc attempts) path referer =
      let again = result_page attempts path referer in
      get_page path (("Accept", "text/html") ∷ ("Referer", referer) ∷ []) >>= λ (status, raw).
      if status == 500 then again else pure (status, raw)

  -- The rows of a result page.
  unfoldable pub page_rows : ℕ × Bytes → Net (Web N) (List Record)
  unfolding feed_rows
  page_rows (status, raw) w =
      if leb 200 status && ltb status 300
      then (
        ok (
            (feed_rows casefold lib w.session.origin (html_events (decode_replacing raw))
              new_rows).rows),
        w,
      )
      else (err scrape_error "Tyler result page returned non-success", w)
