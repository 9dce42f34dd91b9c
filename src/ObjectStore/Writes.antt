-- ===== src/ObjectStore/Writes.antt =====
-- object_store.py: `PageObjectStore`. Its bucket's name is part of the client; a call returns the
-- state of the bucket's world beside its result, also where it raises.
use shadowglass_v35_runtime.Common.{
  ℕ, ◌+◌, String, not, ◌||◌, Option, none, some, List, [], ◌∷◌, map, ltb, ◌==◌, str_eq, length,
  take, if◌then◌else◌,
}
use shadowglass_v35_runtime.Common.Int.{ℤ, pos, ltb_ℤ}
use shadowglass_v35_runtime.Common.Text
use shadowglass_v35_runtime.Common.Text.{show, show_ℤ, is_empty}
use shadowglass_v35_runtime.Common.Utf8.{encode}
use shadowglass_v35_runtime.Common.Result.{
  Result, ok, err, object_store_error, raise_if, ◌>>◌, ◌>>=◌,
}
use shadowglass_v35_runtime.Json.Dumps.{quote, dump_object, dump_array, dump_texts}
use shadowglass_v35_runtime.Queue.Lease.{LeaseWriteFence}
use shadowglass_v35_runtime.Database.Context.{JobContext}
use shadowglass_v35_runtime.Database.Scrape.{Record}
use shadowglass_v35_runtime.Worker.Proc.{ScrapedPage, StoredPage}
use shadowglass_v35_runtime.ObjectStore.Identity.{slug, page_key, canary_key, canary_body}
use shadowglass_v35_runtime.ObjectStore.Client.{
  Bytes, Stat, StatAnswer, found, missing, failed, MinioLike,
}

-- scraper.py's `page_document`; `timestamp` is the time of the call.
pub record Document : Type 0 where
  pub county : String
  pub instrument_type : String
  pub page : ℕ
  pub records : List Record
  pub total_found : ℕ
  pub dom_total : ℕ
  pub timestamp : String

abbrev pub page_document : JobContext → ScrapedPage → String → Document
page_document c p now = record {
  county = c.county;
  instrument_type = c.instrument_type;
  page = p.page;
  records = p.records;
  total_found = p.total_found;
  dom_total = p.dom_total;
  timestamp = now;
}

-- `json.dumps(document, …).encode("utf-8")`
unfoldable pub document_body : Document → Bytes
unfolding encode dump_object dump_texts
document_body d = encode (
    dump_object (
      ("county", quote d.county)
      ∷ ("instrumentType", quote d.instrument_type)
      ∷ ("page", show d.page)
      ∷ ("records", dump_array (map dump_texts d.records))
      ∷ ("totalFound", show d.total_found)
      ∷ ("domTotal", show d.dom_total)
      ∷ ("timestamp", quote d.timestamp)
      ∷ []))

-- `_require_fence`
abbrev pub require_fence : LeaseWriteFence → String → Result (Unit {0})
require_fence fence key =
    raise_if (not fence.active || not (str_eq fence.object_key key)) object_store_error
      "object write is not protected by its live lease fence"

-- 64 MiB
abbrev pub max_object : ℕ
max_object = 67_108_864

-- `int(getattr(stat, "size", -1))` within the bounds
abbrev pub bounded_size : ℤ → Option ℕ
bounded_size (pos n) = if ltb max_object n then none else some n
bounded_size n = none

module _ {S : Type 0} (client : MinioLike S) where
  -- `response.read(size + 1)`, which must have the size that was told.
  abbrev pub read_body : ℕ → Stat → Result Bytes → Result (Option (Bytes × Stat))
  read_body size st (err e m) = err e m
  read_body size st (ok content) =
      let body = take (size + 1) content in
      if length body == size
      then ok (some (body, st))
      else err object_store_error "existing object read verification failed"

  abbrev pub read_sized : String → S → Stat → Option ℕ → Result (Option (Bytes × Stat))
  read_sized key s st none = err object_store_error "existing object is outside verification bounds"
  read_sized key s st (some size) = read_body size st (client.get_object key s)

  abbrev pub read_answered : String → S → StatAnswer → Result (Option (Bytes × Stat))
  read_answered key s missing = ok none
  read_answered key s failed = err object_store_error "object-store existence check failed"
  read_answered key s (found st) = read_sized key s st (bounded_size st.size)

  unfoldable pub read_existing : String → S → Result (Option (Bytes × Stat))
  read_existing key s = read_answered key s (client.stat_object key s)

  module _ (sha256 : Bytes → String) where
    -- The object that stands already: its content must be the same.
    abbrev pub kept : String → Bytes → Bytes → Stat → Result StoredPage
    kept key body existing st =
        if str_eq (sha256 existing) (sha256 body)
        then ok (record {
          key = key;
          sha256 = sha256 body;
          etag = Text.take 128 st.etag;
          size = length existing;
        })
        else err object_store_error "immutable object contains divergent content"

    -- The object as it stands after the write.
    abbrev pub verified :
        String → Bytes → String → Result (Option (Bytes × Stat)) → Result StoredPage
    verified key body etag (err e m) = err e m
    verified key body etag (ok none) =
        err object_store_error "object-store write was not visible after persistence"
    verified key body etag (ok (some (persisted, st))) =
        if not (length persisted == length body) || not (str_eq (sha256 persisted) (sha256 body))
        then err object_store_error "object-store write verification failed"
        else ok (record {
          key = key;
          sha256 = sha256 body;
          etag = Text.take 128 (if is_empty etag then st.etag else etag);
          size = length persisted;
        })

    abbrev pub written : String → Bytes → Result String × S → Result StoredPage × S
    written key body (err e m, s) = (err e m, s)
    written key body (ok etag, s) = (verified key body etag (read_existing key s), s)

    abbrev pub write_checked :
        String
        → Bytes
        → List (String × String)
        → S
        → Result (Option (Bytes × Stat))
        → Result StoredPage × S
    write_checked key body metadata s (err e m) = (err e m, s)
    write_checked key body metadata s (ok (some (existing, st))) = (kept key body existing st, s)
    write_checked key body metadata s (ok none) =
        written key body (client.put_object key body metadata s)

    abbrev pub write_fenced :
        String → Bytes → List (String × String) → S → Result (Unit {0}) → Result StoredPage × S
    write_fenced key body metadata s (err e m) = (err e m, s)
    write_fenced key body metadata s (ok _) =
        write_checked key body metadata s (read_existing key s)

    -- `_put_immutable`
    unfoldable pub put_immutable :
        String → Bytes → List (String × String) → LeaseWriteFence → S → Result StoredPage × S
    unfolding read_existing
    put_immutable key body metadata fence s =
        write_fenced key body metadata s (require_fence fence key)

    abbrev pub put_prepared :
        Bytes
        → LeaseWriteFence
        → S
        → Result (String × List (String × String))
        → Result StoredPage × S
    put_prepared body fence s (err e m) = (err e m, s)
    put_prepared body fence s (ok (key, metadata)) = put_immutable key body metadata fence s

    -- The key and the metadata of a page.
    unfoldable pub page_identity :
        (String → String)
        → String
        → String
        → ℕ
        → ℤ
        → String
        → Document
        → Result (String × List (String × String))
    unfolding page_key slug document_body
    page_identity casefold county instrument_type instrument_type_id page platform document = do
      raise_if (ltb instrument_type_id 1 || ltb_ℤ page (pos 0)) object_store_error
          "object identity is invalid"
      key ← page_key casefold county instrument_type page platform
      county_slug ← slug casefold county
      instrument_slug ← slug casefold instrument_type
      ok (
        key,
        ("county", county_slug)
            ∷ ("instrument-type", instrument_slug)
            ∷ ("page", show_ℤ page)
            ∷ ("record-count", show (length document.records))
            ∷ ("sha256", sha256 (document_body document))
            ∷ [],
      )

    unfoldable pub put_page :
        (String → String)
        → String
        → String
        → ℕ
        → ℤ
        → String
        → Document
        → LeaseWriteFence
        → S
        → Result StoredPage × S
    unfolding page_identity put_immutable
    put_page casefold county instrument_type instrument_type_id page platform document fence s =
        put_prepared (document_body document) fence s
          (page_identity casefold county instrument_type instrument_type_id page platform document)

    unfoldable pub put_canary : String → LeaseWriteFence → S → Result StoredPage × S
    unfolding put_immutable canary_key canary_body
    put_canary id fence s = put_prepared (encode (canary_body id)) fence s (
        canary_key id >>= λ key.
        ok (key, ("purpose", "acceptance-canary") ∷ ("schema-version", "1") ∷ []))
