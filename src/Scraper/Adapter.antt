-- ===== src/Scraper/Adapter.antt =====
-- scraper.py: the paging loops of `TylerAdapter.search` and `Scraper`. A date is its ordinal; `today`
-- reads it from the world outside, `browse` is the relay's, and pauses change nothing.
use Prim.Native.String
use shadowglass_v35_runtime.Common.{
  ℕ, zero, suc, ◌+◌, ◌-◌, ◌*◌, ◌/◌, ◌==◌, String, Bool, true, false, not, ◌&&◌, ◌||◌, List, [], ◌∷◌,
  ◌++◌, any, length, leb, ltb, if◌then◌else◌,
}
use shadowglass_v35_runtime.Common.Text.{includes, show}
use shadowglass_v35_runtime.Common.Regex.{Unicode}
use shadowglass_v35_runtime.Common.Result.{Result, ok, err, scrape_error}
use shadowglass_v35_runtime.Database.Context.{JobContext}
use shadowglass_v35_runtime.Database.Scrape.{Record}
use shadowglass_v35_runtime.Json.Tree.{str, end, member}
use shadowglass_v35_runtime.Network.{Network, Net}
use shadowglass_v35_runtime.Worker.Proc.{Discovery, ScrapedPage, ScraperLike}
use shadowglass_v35_runtime.Scraper.Chunks.{tyler_chunks}
use shadowglass_v35_runtime.Scraper.Session.{Session, Web, new_session}
use shadowglass_v35_runtime.Scraper.Parse.{parse_public_search, public_search_url}
use shadowglass_v35_runtime.Scraper.Remote.{
  Trace, ended, beating, Remote, ◌>>=◌, ◌>>◌, pure, lift, over, script, heartbeat,
}
use shadowglass_v35_runtime.Scraper.Tyler.{
  Library, Adapter, base_path_of, initialize, submit_search, result_page, page_rows,
}

abbrev pub is_empty_list : List Record → Bool
is_empty_list [] = true
is_empty_list (r ∷ rs) = false

-- `empty + 1 if not records else 0`
abbrev pub empties : ℕ → List Record → ℕ
empties empty records = if is_empty_list records then empty + 1 else 0

-- One page after another: `fetch` answers a page's records, its total and whether it is the last.
-- `left` pages may follow; three pages in a row without records end the loop.
module _ {W : Type 0} (fetch : ℕ → Remote W (ScrapedPage × Bool)) where
  unfoldable pub page_loop : ℕ → ℕ → ℕ → Remote W (List ScrapedPage)
  page_loop zero page empty = pure []
  page_loop (suc left) page empty = do
    heartbeat
    (found, last) ← fetch page
    let more = page_loop left (page + 1) (empties empty found.records)
    if last || leb 3 (empties empty found.records)
        then pure (found ∷ [])
        else more >>= λ rest. pure (found ∷ rest)

module _ {N : Type 0} (py : Library) (net : Network N) (today : N → ℕ) where
  abbrev pub min : ℕ → ℕ → ℕ
  min a b = if ltb b a then b else a

  -- The chunk's range of dates.
  abbrev pub nth_chunk : ℕ → List (ℕ × ℕ) → Result (ℕ × ℕ)
  nth_chunk i [] = err scrape_error "Tyler date chunk is outside the supported range"
  nth_chunk zero (c ∷ cs) = ok c
  nth_chunk (suc i) (c ∷ cs) = nth_chunk i cs

  -- A result page of a chunk; no page says that it is the last.
  unfoldable pub tyler_page :
      Adapter → ℕ → String → ℕ → String → ℕ → Remote (Web N) (ScrapedPage × Bool)
  unfolding result_page page_rows
  tyler_page a chunk action_id total referer page = do
    let path = String.◌++◌ a.base_path (
        String.◌++◌ "/searchResults/"
          (String.◌++◌ (py.quote_path action_id) (String.◌++◌ "?page=" (show page))))
    answer ← over (result_page py net 2 path referer)
    rows ← over (page_rows py net answer)
    pure (
      record {
        page = chunk * 1000 + page;
        records = rows;
        total_found = total * 50;
        dom_total = total * 50;
      },
      false,
    )

  -- `search`
  unfoldable pub search : Adapter → ℕ → Remote (Web N) (List ScrapedPage)
  unfolding submit_search page_loop tyler_page tyler_chunks
  search a chunk w =
      (do
        (first, final) ← lift (nth_chunk chunk (tyler_chunks (today w.outside)))
        (action_id, total, referer) ← over (submit_search py net a first final)
        page_loop (tyler_page a chunk action_id total referer) (min total 100) 1 0)
        w

  -- The run of an adapter with its own session.
  abbrev pub closed : {A : Type 0} → Trace (Web N) A → Trace N A
  closed (ended r w) = ended r w.outside
  closed (beating t) = beating (closed t)

  abbrev pub in_session : {A : Type 0} → Remote (Web N) A → Session → Remote N A
  in_session m s n = closed (m (record { session = s; outside = n }))

  -- `TylerAdapter(context)`, `initialize`, and what follows.
  abbrev pub with_adapter : {A : Type 0} → JobContext → (Adapter → Remote (Web N) A) → Remote N A
  with_adapter c k = do
    session ← over (new_session py.lib net c.base_url)
    base ← lift (base_path_of py net c)
    in_session
        (do
          a ← over (initialize py net (record { context = c; base_path = base; search_path = "" }))
          k a)
        session

  abbrev pub is_tyler : JobContext → Bool
  is_tyler c = includes (py.casefold c.platform) "tyler"

  abbrev has_records : List ScrapedPage → Bool
  has_records pages = any (λ p. not (is_empty_list p.records)) pages

  module _ (u : Unicode) (sha256 : List ℕ → String) (browse : String → String → Net N String) where
    -- A PublicSearch page: its records and its total.
    unfoldable pub public_page : JobContext → ℕ → Remote N (List Record × ℕ)
    unfolding parse_public_search public_search_url
    public_page c page = do
      url ← lift (public_search_url py.lib py.urlencode c page)
      html ← over (browse url "table tbody tr")
      lift (parse_public_search u py.casefold sha256 py.html_events (member "html" (str html) end))

    abbrev pub discover_tyler : JobContext → Remote N Discovery
    discover_tyler c = do
      pages ← with_adapter c (λ a. do heartbeat; search a 0)
      (λ n.
          let chunks = if has_records pages then length (tyler_chunks (today n)) else 0 in
          ended (ok (record { total_records = chunks * 100; page_count = chunks })) n)

    abbrev pub discover_public : JobContext → Remote N Discovery
    discover_public c = do
      url ← lift (public_search_url py.lib py.urlencode c 0)
      html ← over (browse url "table tbody tr")
      heartbeat
      (records, total) ←
          lift
            (parse_public_search u py.casefold sha256 py.html_events (member "html" (str html) end))
      if total == 0 && is_empty_list records
          then pure (record { total_records = 0; page_count = 0 })
          else pure (record { total_records = total; page_count = (total + 49) / 50 })

    unfoldable pub discover : JobContext → Remote N Discovery
    unfolding search public_page
    discover c = do heartbeat; if is_tyler c then discover_tyler c else discover_public c

    -- The chunks of a range, each with its own adapter.
    unfoldable pub scrape_chunks : JobContext → ℕ → ℕ → Remote N (List ScrapedPage)
    unfolding search
    scrape_chunks c zero chunk = pure []
    scrape_chunks c (suc left) chunk = do
      pages ← with_adapter c (λ a. search a chunk)
      rest ← scrape_chunks c left (chunk + 1)
      pure (pages ++ rest)

    -- A page with its totals; it is the last where the total lies before its end.
    abbrev pub public_fetch : JobContext → ℕ → Remote N (ScrapedPage × Bool)
    public_fetch c page = do
      (records, total) ← public_page c page
      pure (
        record { page = page; records = records; total_found = total; dom_total = total },
        leb total (page * 50),
      )

    unfoldable pub scrape : JobContext → ℕ → ℕ → Remote N (List ScrapedPage)
    unfolding scrape_chunks public_page page_loop
    scrape c start_page end_page =
        let count = end_page + 1 - start_page in
        if is_tyler c
        then scrape_chunks c count start_page
        else page_loop (public_fetch c) count start_page 0

    -- `Scraper` as the worker calls it, in a world outside.
    abbrev pub scraper_in : N → ScraperLike
    scraper_in n = record {
      discover = λ c. script (discover c n);
      scrape = λ c first final. script (scrape c first final n);
    }
