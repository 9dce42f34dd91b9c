-- ===== src/Tests/Bucket.antt =====
-- Tests of object_store.py on a bucket in memory.
use shadowglass_v35_runtime.Common.{
  ℕ, ◌+◌, ◌*◌, ◌%◌, ◌≡◌, ◌≢◌, refl, String, Bool, true, Option, none, some, List, [], ◌∷◌, length,
  str_eq, eq_iff, arith, if◌then◌else◌,
}
use shadowglass_v35_runtime.Common.Int.{pos}
use shadowglass_v35_runtime.Common.Text.{show}
use shadowglass_v35_runtime.Database.Context.{JobContext}
use shadowglass_v35_runtime.Worker.Proc.{World}
use shadowglass_v35_runtime.Tests.Samples.{turn_of}
use shadowglass_v35_runtime.Tests.Runs.{no_scraper, canary_queue}
use shadowglass_v35_runtime.Common.Result.{Result, ok, err, lookup_error}
use shadowglass_v35_runtime.Queue.Lease.{LeaseWriteFence}
use shadowglass_v35_runtime.Worker.Proc.{ScrapedPage, StoredPage, Env}
use shadowglass_v35_runtime.Worker.Process.{process_once}
use shadowglass_v35_runtime.ObjectStore.Client.{
  Bytes, Stat, StatAnswer, found, missing, MinioLike, IsLawful,
}
use shadowglass_v35_runtime.ObjectStore.Writes.{
  page_document, document_body, put_immutable, put_page,
}
use shadowglass_v35_runtime.Json.Dumps.Plain.{IsPlain}
use shadowglass_v35_runtime.ObjectStore.Stored.{IsStored, put_immutable-IsStored}
use shadowglass_v35_runtime.ObjectStore.Pages.{
  page_store, put_at, put_page_again, process_once-object_kept,
}

abbrev pub Objects : Type 0
Objects = List (String × Bytes)

abbrev pub content : String → Objects → Option Bytes
content k [] = none
content k ((j, b) ∷ s) = if str_eq j k then some b else content k s

abbrev insert : String → Bytes → Objects → Objects
insert k b [] = (k, b) ∷ []
insert k b ((j, c) ∷ s) = if str_eq j k then (k, b) ∷ s else (j, c) ∷ insert k b s

abbrev remove : String → Objects → Objects
remove k [] = []
remove k ((j, c) ∷ s) = let rest = remove k s in if str_eq j k then rest else (j, c) ∷ rest

abbrev stat_of : Option Bytes → StatAnswer
stat_of none = missing
stat_of (some b) = found (record { size = pos (length b); etag = "etag-1" })

abbrev got : Option Bytes → Result Bytes
got none = err lookup_error "NoSuchKey"
got (some b) = ok b

abbrev pub memory : MinioLike Objects
memory = record {
  bucket_exists = λ s. ok true;
  make_bucket = λ s. (ok tt, s);
  put_object = λ k b m s. (ok "etag-1", insert k b s);
  stat_object = λ k s. stat_of (content k s);
  get_object = λ k s. got (content k s);
  remove_object = λ k s. (ok tt, remove k s);
}

stat_of-found :
    (o : Option Bytes) (st : Stat)
    → stat_of o ≡ found st
    → (b : Bytes) × (o ≡ some b) × (st.size ≡ pos (length b))
stat_of-found none st e = cc
stat_of-found (some b) st e = (b, refl, ground arith)

stat_of-missing : (o : Option Bytes) → stat_of o ≡ missing → o ≡ none
stat_of-missing none e = refl
stat_of-missing (some b) e = cc

got-some : (o : Option Bytes) (b : Bytes) → got o ≡ ok b → o ≡ some b
got-some none b e = cc
got-some (some c) b e = ground arith

content-insert :
    (k : String) (b : Bytes) (s : Objects) (j : String)
    → content j (insert k b s) ≡ (if str_eq k j then some b else content j s)
content-insert k b [] j = refl
content-insert k b ((i, c) ∷ s) j =
    ground (arith, eq_iff k j, eq_iff i k, eq_iff i j, content-insert k b s j)

content-remove : (k : String) (s : Objects) → content k (remove k s) ≡ none
content-remove k [] = refl
content-remove k ((i, c) ∷ s) = ground (arith, eq_iff i k, content-remove k s)

pub memory-IsLawful : IsLawful memory content
memory-IsLawful = record {
  stat_found = λ k s st e. stat_of-found (content k s) st e;
  stat_missing = λ k s e. stat_of-missing (content k s) e;
  get_content = λ k s b e. got-some (content k s) b e;
  put_other = λ k b m s j apart. ground (arith, content-insert k b s j, eq_iff k j);
  put_self = λ k b m s etag e. ground (arith, content-insert k b s k, eq_iff k k);
  remove_self = λ k s e. content-remove k s;
}

abbrev checksum : Bytes → ℕ
checksum [] = 7
checksum (b ∷ bs) = (b + 31 * checksum bs) % 65_521

abbrev pub sha256 : Bytes → String
sha256 b = show (checksum b)

abbrev fence : LeaseWriteFence
fence = record {
  job_id = 2;
  lease_token = 7;
  object_key = "SHADOWGLASS_V35/harris/deed/page_000003.json";
  active = true;
}

abbrev first_write : StoredPage
first_write = record {
  key = fence.object_key;
  sha256 = sha256 (1 ∷ 2 ∷ []);
  etag = "etag-1";
  size = 2;
}

stored : (put_immutable memory sha256 fence.object_key (1 ∷ 2 ∷ []) [] fence []).0 ≡ ok first_write
unfolding put_immutable show
stored = refl

put_immutable-IsStored_example :
    (fence.active ≡ true)
    × (fence.object_key ≡ fence.object_key)
    × IsStored content sha256 fence.object_key
        (1 ∷ 2 ∷ [])
        []
        first_write
        (put_immutable memory sha256 fence.object_key (1 ∷ 2 ∷ []) [] fence []).1
put_immutable-IsStored_example =
    put_immutable-IsStored memory content memory-IsLawful sha256 fence.object_key (1 ∷ 2 ∷ []) []
      fence [] first_write stored

abbrev context : JobContext
context = record {
  county_id = 5;
  county = "harris";
  base_url = "https://example.org";
  platform = "publicsearch";
  instrument_type_id = 8;
  instrument_type = "deed";
}

abbrev page : ScrapedPage
page = record { page = 3; records = []; total_found = 0; dom_total = 0 }

abbrev pub unfolded : String → String
unfolded s = s

abbrev body_at : String → Bytes
body_at now = document_body (page_document context page now)

abbrev standing : Objects
standing = (fence.object_key, body_at "2026-01-01") ∷ []

digests_differ : sha256 (body_at "2026-01-01") ≢ sha256 (body_at "2026-01-02")
unfolding document_body show
digests_differ e = cc ((eq_iff (sha256 (body_at "2026-01-01")) (sha256 (body_at "2026-01-02"))).1 e)

abbrev page_written : StoredPage
page_written = record {
  key = fence.object_key;
  sha256 = sha256 (body_at "2026-01-01");
  etag = "etag-1";
  size = length (body_at "2026-01-01");
}

abbrev put_dated : String → Objects → Result StoredPage × Objects
put_dated now = put_at memory sha256 unfolded context page now fence

written : (put_dated "2026-01-01" []).0 ≡ ok page_written
unfolding put_page document_body show shadowglass_v35_runtime.Common.Text.show_ℤ
written = refl

day-IsPlain : IsPlain "2026-01-01" × IsPlain "2026-01-02"
day-IsPlain = (
  (refl, (refl, (refl, (refl, (refl, (refl, (refl, (refl, (refl, (refl, tt)))))))))),
  (refl, (refl, (refl, (refl, (refl, (refl, (refl, (refl, (refl, (refl, tt)))))))))),
)

days_differ : ◌≢◌ {A = String} "2026-01-01" "2026-01-02"
days_differ e = cc ((eq_iff "2026-01-01" "2026-01-02").1 e)

put_page_again_example :
    ((put_dated "2026-01-02" (put_dated "2026-01-01" []).1).0 ≢ ok page_written)
    × (content fence.object_key (put_dated "2026-01-02" (put_dated "2026-01-01" []).1).1
        ≡ content fence.object_key (put_dated "2026-01-01" []).1)
put_page_again_example =
    put_page_again memory sha256 unfolded content memory-IsLawful context page "2026-01-01"
      "2026-01-02" fence fence [] (put_dated "2026-01-01" []).1 page_written day-IsPlain.0
      day-IsPlain.1 days_differ (λ e. absurd (digests_differ e)) written refl page_written

abbrev pub env : Env Objects
env = record {
  turns = turn_of;
  casefold = unfolded;
  scraper = no_scraper;
  store = page_store memory sha256 unfolded (λ s. "2026-01-02");
  worker = "w";
  seconds = 300;
}

abbrev pub world : World Objects
world = record {
  db = record {
    queue = canary_queue;
    counties = [];
    instruments = [];
    scrape_jobs = [];
    uploads = [];
    deeds = [];
    logs = [];
  };
  objects = standing;
  turn = 0;
}

process_once-object_kept_example :
    content fence.object_key (process_once env none world).1.objects ≡ some (body_at "2026-01-01")
process_once-object_kept_example =
    process_once-object_kept memory sha256 unfolded content memory-IsLawful (λ s. "2026-01-02")
      fence.object_key (body_at "2026-01-01") env none world refl refl
