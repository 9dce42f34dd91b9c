-- ===== src/Scraper/Pages.antt =====
-- scraper.py: the pages that a scrape answers with.
use shadowglass_v35_runtime.Common.{
  ℕ, zero, suc, ◌+◌, ◌-◌, ◌*◌, ◌≤◌, ◌≡◌, refl, inl, inr, String, Bool, ◌||◌, List, [], ◌∷◌, ◌++◌,
  leb, Bool-cases, arith, if◌then◌else◌,
}
use shadowglass_v35_runtime.Common.Regex.{Unicode}
use shadowglass_v35_runtime.Common.Result.{ok, err}
use shadowglass_v35_runtime.Database.Context.{JobContext}
use shadowglass_v35_runtime.Network.{Network, Net}
use shadowglass_v35_runtime.Worker.Proc.{ScrapedPage}
use shadowglass_v35_runtime.Scraper.Session.{Web, new_session}
use shadowglass_v35_runtime.Scraper.Chunks.{tyler_chunks}
use shadowglass_v35_runtime.Scraper.Remote.{
  Trace, ended, beating, Remote, ◌>>=◌, pure, lift, over, heartbeat,
}
use Prim.Native.String
use shadowglass_v35_runtime.Common.Text.{show}
use shadowglass_v35_runtime.Scraper.Gives.{
  Answers, Gives, Gives-bind, Gives-after, Gives-if, Gives-pure, Gives-implies,
}
use shadowglass_v35_runtime.Scraper.Tyler.{
  Library, Adapter, base_path_of, initialize, submit_search, result_page, page_rows,
}
use shadowglass_v35_runtime.Scraper.Adapter.{
  empties, min, nth_chunk, closed, page_loop, tyler_page, search, with_adapter, is_tyler,
  public_page, public_fetch, scrape_chunks, scrape,
}

-- The page numbers grow, from the first bound on and below the second.
abbrev pub IsBetween : ℕ → ℕ → List ScrapedPage → Type 0
IsBetween low high [] = low ≤ high
IsBetween low high (p ∷ ps) = (low ≤ p.page) × IsBetween (p.page + 1) high ps

IsBetween-weaken :
    (low low' high high' : ℕ) (ps : List ScrapedPage)
    → low' ≤ low
    → high ≤ high'
    → IsBetween low high ps
    → IsBetween low' high' ps
IsBetween-weaken low low' high high' [] l h b = omega arith
IsBetween-weaken low low' high high' (p ∷ ps) l h (first, b) =
    (omega arith, IsBetween-weaken (p.page + 1) (p.page + 1) high high' ps (omega arith) h b)

IsBetween-append :
    (low mid high : ℕ) (ps qs : List ScrapedPage)
    → IsBetween low mid ps
    → IsBetween mid high qs
    → IsBetween low high (ps ++ qs)
IsBetween-append low mid high [] qs b c = IsBetween-weaken mid low high high qs b (omega arith) c
IsBetween-append low mid high (p ∷ ps) qs (first, b) c =
    (first, IsBetween-append (p.page + 1) mid high ps qs b c)

module _ {W : Type 0} (fetch : ℕ → Remote W (ScrapedPage × Bool)) (base : ℕ)
    (numbered : (page : ℕ)
      → Gives (λ (x : ScrapedPage × Bool). x.0.page ≡ base + page) (fetch page)) where
  -- The loop's pages lie one after another, at most as many as were left.
  page_loop-IsBetween :
      (left page empty : ℕ)
      → Gives (IsBetween (base + page) (base + page + left)) (page_loop fetch left page empty)
  unfolding page_loop
  page_loop-IsBetween zero page empty = record { at = λ w. omega arith }
  page_loop-IsBetween (suc left) page empty =
      let low = base + page in
      let high = low + suc left in
      Gives-after (IsBetween low high) heartbeat _ λ _.
        Gives-bind (IsBetween low high) (λ (x : ScrapedPage × Bool). x.0.page ≡ low) (fetch page) _
          (numbered page)
          λ (found, last) named.
            let empty' = empties empty found.records in
            Gives-if (IsBetween low high) (last || leb 3 empty') (pure (found ∷ []))
              (page_loop fetch left (page + 1) empty' >>= λ rest. pure (found ∷ rest))
              (record { at = λ w. omega arith })
              (Gives-bind (IsBetween low high)
                (IsBetween (base + (page + 1)) (base + (page + 1) + left))
                (page_loop fetch left (page + 1) empty') (λ rest. pure (found ∷ rest))
                (page_loop-IsBetween left (page + 1) empty')
                λ rest b. Gives-pure (IsBetween low high) (found ∷ rest) (
                  omega arith,
                  IsBetween-weaken (base + (page + 1)) (found.page + 1) (base + (page + 1) + left)
                      high rest (omega arith) (omega arith) b,
                ))

module _ {N : Type 0} (py : Library) (net : Network N) (today : N → ℕ) where
  closed-Answers :
      {A : Type 0} (P : A → Type 0) (t : Trace (Web N) A)
      → Answers P t
      → Answers P (closed py net today t)
  closed-Answers P (ended (ok a) w) h = h
  closed-Answers P (ended (err e m) w) h = tt
  closed-Answers P (beating t) h = closed-Answers P t h

  -- A run with its own adapter.
  with_adapter-Gives :
      {A : Type 0} (P : A → Type 0) (c : JobContext) (k : Adapter → Remote (Web N) A)
      → ((a : Adapter) → Gives P (k a))
      → Gives P (with_adapter py net today c k)
  with_adapter-Gives P c k f = Gives-after P (over (new_session py.lib net c.base_url)) _ λ session.
      Gives-after P (lift (base_path_of py net c)) _ λ base.
        let fresh : Adapter = record { context = c; base_path = base; search_path = "" } in
        let inner : Gives P (over (initialize py net fresh) >>= k) =
          Gives-after P (over (initialize py net fresh)) k f in
        record {
          at = λ n.
              let w : Web N = record { session = session; outside = n } in
              closed-Answers P ((over (initialize py net fresh) >>= k) w) (inner.at w);
        }

  tyler_page-numbered :
      (a : Adapter) (chunk : ℕ) (action_id : String) (total : ℕ) (referer : String) (page : ℕ)
      → Gives
          (λ (x : ScrapedPage × Bool). x.0.page ≡ chunk * 1000 + page)
          (tyler_page py net today a chunk action_id total referer page)
  unfolding tyler_page
  tyler_page-numbered a chunk action_id total referer page =
      let path = String.◌++◌ a.base_path (
        String.◌++◌ "/searchResults/"
          (String.◌++◌ (py.quote_path action_id) (String.◌++◌ "?page=" (show page)))) in
      let Numbered = λ (x : ScrapedPage × Bool). x.0.page ≡ chunk * 1000 + page in
      Gives-after Numbered (over (result_page py net 2 path referer)) _ λ answer.
        Gives-after Numbered (over (page_rows py net answer)) _ λ rows. record { at = λ w. refl }

  -- A chunk's pages are numbered from its thousand on, a hundred at most.
  search-IsBetween :
      (a : Adapter) (chunk : ℕ)
      → Gives (IsBetween (chunk * 1000 + 1) (chunk * 1000 + 101)) (search py net today a chunk)
  unfolding search
  search-IsBetween a chunk =
      let Wanted = IsBetween (chunk * 1000 + 1) (chunk * 1000 + 101) in
      record {
        at = λ w.
            (Gives-after Wanted
                (lift (nth_chunk py net today chunk (tyler_chunks (today w.outside)))) _
                λ (first, final).
                  Gives-after Wanted (over (submit_search py net a first final)) _
                    λ (action_id, total, referer).
                      let few = min py net today total 100 in
                      Gives-implies (IsBetween (chunk * 1000 + 1) (chunk * 1000 + 1 + few)) Wanted
                        (λ ps b.
                          IsBetween-weaken (chunk * 1000 + 1) (chunk * 1000 + 1)
                            (chunk * 1000 + 1 + few) (chunk * 1000 + 101) ps (omega arith)
                            (ground arith) b)
                        (page_loop (tyler_page py net today a chunk action_id total referer) few 1
                          0)
                        (page_loop-IsBetween
                          (tyler_page py net today a chunk action_id total referer) (chunk * 1000)
                          (tyler_page-numbered a chunk action_id total referer) few 1 0)).at
              w;
      }

  module _ (u : Unicode) (sha256 : List ℕ → String) (browse : String → String → Net N String) where
    scrape_chunks-IsBetween :
        (c : JobContext) (left chunk : ℕ)
        → Gives
            (IsBetween (chunk * 1000 + 1) ((chunk + left) * 1000 + 1))
            (scrape_chunks py net today u sha256 browse c left chunk)
    unfolding scrape_chunks
    scrape_chunks-IsBetween c zero chunk = record { at = λ w. omega arith }
    scrape_chunks-IsBetween c (suc left) chunk =
        let low = chunk * 1000 + 1 in
        let mid = (chunk + 1) * 1000 + 1 in
        let high = (chunk + suc left) * 1000 + 1 in
        let ending = (chunk + 1 + left) * 1000 + 1 in
        Gives-bind (IsBetween low high) (IsBetween low (chunk * 1000 + 101))
          (with_adapter py net today c (λ a. search py net today a chunk)) _
          (with_adapter-Gives (IsBetween low (chunk * 1000 + 101)) c
            (λ a. search py net today a chunk) (λ a. search-IsBetween a chunk))
          λ pages first.
            Gives-bind (IsBetween low high) (IsBetween mid ending)
              (scrape_chunks py net today u sha256 browse c left (chunk + 1)) _
              (scrape_chunks-IsBetween c left (chunk + 1))
              λ rest later. Gives-pure (IsBetween low high) (pages ++ rest) (
                IsBetween-append low mid high pages rest
                  (IsBetween-weaken low low (chunk * 1000 + 101) mid pages (omega arith)
                    (omega arith) first)
                  (IsBetween-weaken mid mid ending high rest (omega arith) (omega arith) later))

    public_fetch-numbered :
        (c : JobContext) (page : ℕ)
        → Gives
            (λ (x : ScrapedPage × Bool). x.0.page ≡ 0 + page)
            (public_fetch py net today u sha256 browse c page)
    public_fetch-numbered c page =
        Gives-after (λ (x : ScrapedPage × Bool). x.0.page ≡ 0 + page)
          (public_page py net today u sha256 browse c page) _
          λ (records, total). record { at = λ w. omega arith }

    -- The first page number that a scrape can answer with, and the first that it cannot.
    abbrev pub lowest : JobContext → ℕ → ℕ
    lowest c start = if is_tyler py net today c then start * 1000 + 1 else start

    abbrev pub beyond : JobContext → ℕ → ℕ
    beyond c end = if is_tyler py net today c then (end + 1) * 1000 + 1 else end + 1

    -- A scrape that answers has pages with growing numbers: on PublicSearch those of the range, and on
    -- Tyler those of the thousands that the range's chunks stand for. So no two pages of it have one
    -- number.
    pub scrape-IsBetween :
        (c : JobContext) (first final : ℕ)
        → first ≤ final
        → Gives
            (IsBetween (lowest c first) (beyond c final))
            (scrape py net today u sha256 browse c first final)
    unfolding scrape
    scrape-IsBetween c first final h =
        let count = final + 1 - first in
        elim (Bool-cases (is_tyler py net today c)) [
          | inl tyler ↦ rw tyler (
              Gives-implies (IsBetween (first * 1000 + 1) ((first + count) * 1000 + 1))
                (IsBetween (first * 1000 + 1) ((final + 1) * 1000 + 1))
                (λ ps b.
                  IsBetween-weaken (first * 1000 + 1) (first * 1000 + 1)
                    ((first + count) * 1000 + 1) ((final + 1) * 1000 + 1) ps (omega arith)
                    (omega arith) b)
                (scrape_chunks py net today u sha256 browse c count first)
                (scrape_chunks-IsBetween c count first))
          | inr public ↦ rw public (
              Gives-implies (IsBetween (0 + first) (0 + first + count))
                (IsBetween first (final + 1))
                (λ ps b.
                  IsBetween-weaken (0 + first) first (0 + first + count) (final + 1) ps
                    (omega arith) (omega arith) b)
                (page_loop (public_fetch py net today u sha256 browse c) count first 0)
                (page_loop-IsBetween (public_fetch py net today u sha256 browse c) 0
                  (public_fetch-numbered c) count first 0))
        ]
