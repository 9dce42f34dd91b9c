-- ===== src/ObjectStore/Client.antt =====
-- The object-store client that object_store.py calls (`MinioLike`), over the state of the bucket's
-- world, and what its documentation promises.
use shadowglass_v35_runtime.Common.{ℕ, String, ◌≡◌, ◌≢◌, Bool, Option, none, some, List, length}
use shadowglass_v35_runtime.Common.Int.{ℤ, pos}
use shadowglass_v35_runtime.Common.Result.{Result, ok}

abbrev pub Bytes : Type 0
Bytes = List ℕ

-- `stat_object`'s result: `size` is -1 where the attribute is missing.
pub record Stat : Type 0 where
  pub size : ℤ
  pub etag : String

-- A `stat_object` that returns, that raises for a missing key, or that raises otherwise.
pub data StatAnswer : Type 0 where
  found : Stat → StatAnswer
  missing failed : StatAnswer

-- The client at one bucket. A call may raise; `put_object` answers the etag.
pub record MinioLike (S : Type 0) : Type 0 where
  pub bucket_exists : S → Result Bool
  pub make_bucket : S → Result (Unit {0}) × S
  pub put_object : String → Bytes → List (String × String) → S → Result String × S
  pub stat_object : String → S → StatAnswer
  pub get_object : String → S → Result Bytes
  pub remove_object : String → S → Result (Unit {0}) × S

-- What stands in the bucket, and how the client's answers tell it. A call may fail; one that raises
-- may have written all the same.
pub record IsLawful {S : Type 0} (client : MinioLike S) (content : String → S → Option Bytes)
    : Type 0 where
  pub stat_found :
      (k : String) (s : S) (st : Stat)
      → client.stat_object k s ≡ found st
      → (b : Bytes) × (content k s ≡ some b) × (st.size ≡ pos (length b))
  pub stat_missing : (k : String) (s : S) → client.stat_object k s ≡ missing → content k s ≡ none
  pub get_content :
      (k : String) (s : S) (b : Bytes) → client.get_object k s ≡ ok b → content k s ≡ some b
  pub put_other :
      (k : String) (b : Bytes) (m : List (String × String)) (s : S) (j : String)
      → j ≢ k
      → content j (client.put_object k b m s).1 ≡ content j s
  pub put_self :
      (k : String) (b : Bytes) (m : List (String × String)) (s : S) (etag : String)
      → (client.put_object k b m s).0 ≡ ok etag
      → content k (client.put_object k b m s).1 ≡ some b
  pub remove_self :
      (k : String) (s : S)
      → (client.remove_object k s).0 ≡ ok tt
      → content k (client.remove_object k s).1 ≡ none
