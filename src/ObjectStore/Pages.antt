-- ===== src/ObjectStore/Pages.antt =====
-- object_store.py as the worker uses it, and a page that is scraped again.
use shadowglass_v35_runtime.Common.{
  ltb, ◌||◌, ◌≡◌, ◌≢◌, refl, sym, ap, ◌∙◌, String, Option, some, List, arith,
}
use shadowglass_v35_runtime.Common.Int.{ℤ, pos, ltb_ℤ}
use shadowglass_v35_runtime.Common.Result.{Result, ok, err, object_store_error, raise_if, answers}
use shadowglass_v35_runtime.Queue.Lease.{LeaseWriteFence}
use shadowglass_v35_runtime.Database.Context.{JobContext}
use shadowglass_v35_runtime.Worker.Proc.{ScrapedPage, StoredPage, StoreLike, World, Env}
use shadowglass_v35_runtime.Worker.Objects.{KeepsObjects, process_once-objects}
use shadowglass_v35_runtime.Worker.Process.{process_once}
use shadowglass_v35_runtime.ObjectStore.Identity.{slug, page_key, canary_key}
use shadowglass_v35_runtime.ObjectStore.Client.{Bytes, MinioLike, IsLawful}
use shadowglass_v35_runtime.ObjectStore.Writes.{
  Document, page_document, document_body, put_prepared, page_identity, put_page, put_canary,
}
use shadowglass_v35_runtime.ObjectStore.Immutable.{put_immutable-keeps}
use shadowglass_v35_runtime.ObjectStore.Stored.{IsStored, put_immutable-IsStored}
use shadowglass_v35_runtime.ObjectStore.Timestamp.{document_body-timestamp}
use shadowglass_v35_runtime.Json.Dumps.Plain.{IsPlain}

first_of : (k j : String) → ok k ≡ ok j → k ≡ j
first_of k j e = ground arith

some_of : (b c : Bytes) → some b ≡ some c → b ≡ c
some_of b c e = ground arith

module _ {S : Type 0} (client : MinioLike S) (sha256 : Bytes → String)
    (casefold : String → String) where
  -- `PageObjectStore` with `page_document`; `stamp` is the time of the world outside.
  abbrev pub page_store : (S → String) → StoreLike S
  page_store stamp = record {
    canary_key = canary_key;
    page_key = λ c n. page_key casefold c.county c.instrument_type (pos n) c.platform;
    put_page = λ c p fence s.
        put_page client sha256 casefold c.county c.instrument_type c.instrument_type_id (pos p.page)
          c.platform (page_document c p (stamp s)) fence s;
    put_canary = put_canary client sha256;
  }

  put_prepared-keeps :
      (content : String → S → Option Bytes) (law : IsLawful client content) (body : Bytes)
      (fence : LeaseWriteFence) (s : S) (r : Result (String × List (String × String))) (j : String)
      (b : Bytes)
      → content j s ≡ some b
      → content j (put_prepared client sha256 body fence s r).1 ≡ some b
  put_prepared-keeps content law body fence s (err e m) j b here = here
  put_prepared-keeps content law body fence s (ok (key, metadata)) j b here =
      put_immutable-keeps client content law sha256 key body metadata fence s j b here

  -- `put_page` of a page with the document of this time.
  abbrev pub put_at :
      JobContext → ScrapedPage → String → LeaseWriteFence → S → Result StoredPage × S
  put_at c p now fence s =
      put_page client sha256 casefold c.county c.instrument_type c.instrument_type_id (pos p.page)
        c.platform (page_document c p now) fence s

  -- A page's write that answers has prepared its key, which the document does not enter.
  page_identity-key :
      (c : JobContext) (n : ℤ) (d : Document) (key : String) (metadata : List (String × String))
      → page_identity client sha256 casefold c.county c.instrument_type c.instrument_type_id n
          c.platform d
        ≡ ok (key, metadata)
      → page_key casefold c.county c.instrument_type n c.platform ≡ ok key
  unfolding page_identity
  page_identity-key c n d key metadata e =
      let (_, _, e1) =
        answers
          (raise_if (ltb c.instrument_type_id 1 || ltb_ℤ n (pos 0)) object_store_error
            "object identity is invalid")
          _ e in
      let (k, named, e2) =
        answers (page_key casefold c.county c.instrument_type n c.platform) _ e1 in
      let (_, _, e3) = answers (slug casefold c.county) _ e2 in
      let (_, _, e4) = answers (slug casefold c.instrument_type) _ e3 in
      named ∙ ap (λ (x : String). ok x) (ground arith)

  module _ (content : String → S → Option Bytes) (law : IsLawful client content) where
    put_prepared-IsStored :
        (body : Bytes) (fence : LeaseWriteFence) (s : S) (p : StoredPage)
        (r : Result (String × List (String × String)))
        → (put_prepared client sha256 body fence s r).0 ≡ ok p
        → (key : String) × (metadata : List (String × String)) × (r ≡ ok (key, metadata))
          × IsStored content sha256 key body s p (put_prepared client sha256 body fence s r).1
    put_prepared-IsStored body fence s p (err e m) e' = absurd (cc)
    put_prepared-IsStored body fence s p (ok (key, metadata)) e = (
      key,
      metadata,
      refl,
      (put_immutable-IsStored client content law sha256 key body metadata fence s p e).2,
    )

    put_at-IsStored :
        (c : JobContext) (p : ScrapedPage) (now : String) (fence : LeaseWriteFence) (s : S)
        (a : StoredPage)
        → (put_at c p now fence s).0 ≡ ok a
        → (key : String) × (page_key casefold c.county c.instrument_type (pos p.page) c.platform
            ≡ ok key)
          × IsStored content sha256 key
              (document_body (page_document c p now))
              s
              a
              (put_at c p now fence s).1
    unfolding put_page
    put_at-IsStored c p now fence s a e =
        let (key, metadata, named, after) =
          put_prepared-IsStored (document_body (page_document c p now)) fence s a _ e in
        (key, page_identity-key c (pos p.page) (page_document c p now) key metadata named, after)

    -- A page that was written once cannot be written again at another time, though all else that was
    -- scraped is the same. Let a write of the page answer, over a client with its documented
    -- behaviour, and let its object still stand, unchanged, in some later state of the bucket. Then no
    -- write of the page with the document of another time answers there, under any fence, if the two
    -- bodies do not collide under SHA-256; and the object stays. The times are texts that JSON does
    -- not escape.
    pub put_page_again :
        (c : JobContext) (p : ScrapedPage) (before now : String) (first later : LeaseWriteFence)
        (s t : S) (a : StoredPage)
        → IsPlain before
        → IsPlain now
        → before ≢ now
        → (sha256 (document_body (page_document c p before))
              ≡ sha256 (document_body (page_document c p now))
            → document_body (page_document c p before) ≡ document_body (page_document c p now))
        → (put_at c p before first s).0 ≡ ok a
        → content a.key t ≡ content a.key (put_at c p before first s).1
        → (b : StoredPage)
        → ((put_at c p now later t).0 ≢ ok b)
          × (content a.key (put_at c p now later t).1 ≡ content a.key t)
    unfolding put_page
    put_page_again c p before now first later s t a plain plain' differ no_collision wrote stays b =
        let (key, named, one) = put_at-IsStored c p before first s a wrote in
        let there : content key t ≡ some one.stored = rw one.name at stays ∙ one.here in
        let kept =
          put_prepared-keeps content law (document_body (page_document c p now)) later t _ key
            one.stored there in
        (
          λ again.
              let (key', named', two) = put_at-IsStored c p now later t b again in
              let same : key' ≡ key = first_of key' key (sym named' ∙ named) in
              let stored : two.stored ≡ one.stored =
                some_of two.stored one.stored (sym (rw same at two.here) ∙ kept) in
              let digests = sym one.digest ∙ ap sha256 (sym stored) ∙ two.digest in
              differ (
                document_body-timestamp (page_document c p before) before now plain plain'
                  (no_collision digests)),
          rw one.name (kept ∙ sym there),
        )

  module _ (content : String → S → Option Bytes) (law : IsLawful client content)
      (stamp : S → String) (j : String) (b : Bytes) where
    -- A standing object survives every write of the worker's store.
    pub page_store-Keeps : KeepsObjects (page_store stamp) (λ s. content j s ≡ some b)
    unfolding put_page put_canary
    page_store-Keeps = record {
      page_kept = λ c p fence s here. put_prepared-keeps content law _ fence s _ j b here;
      canary_kept = λ id fence s here. put_prepared-keeps content law _ fence s _ j b here;
    }

    -- Whatever `process_once` does with the store of object_store.py, an object that stands in the
    -- bucket is there afterwards, unchanged: on every path, also where it raises.
    pub process_once-object_kept :
        (env : Env S) (kind : Option String) (w : World S)
        → env.store ≡ page_store stamp
        → content j w.objects ≡ some b
        → content j (process_once env kind w).1.objects ≡ some b
    process_once-object_kept env kind w same here =
        process_once-objects (λ s. content j s ≡ some b) env (rw same page_store-Keeps) kind w here
