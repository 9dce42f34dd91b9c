-- ===== src/ObjectStore/Canary.antt =====
-- object_store.py: `provision`, `probe`, and the canary's verification and removal.
use shadowglass_v35_runtime.Common.{
  String, Bool, true, false, not, ◌&&◌, Option, none, some, [], ◌∷◌, ◌==◌, length, if◌then◌else◌,
}
use shadowglass_v35_runtime.Common.Text
use shadowglass_v35_runtime.Common.Utf8.{encode}
use shadowglass_v35_runtime.Common.Result.{Result, ok, err, object_store_error, raise_if, ◌>>=◌}
use shadowglass_v35_runtime.Worker.Proc.{StoredPage}
use shadowglass_v35_runtime.ObjectStore.Identity.{canary_key, canary_body}
use shadowglass_v35_runtime.ObjectStore.Client.{Bytes, Stat, MinioLike}
use shadowglass_v35_runtime.ObjectStore.Writes.{read_existing}

-- `==` on bytes
abbrev pub same_bytes : Bytes → Bytes → Bool
same_bytes [] [] = true
same_bytes (b ∷ bs) (c ∷ cs) = b == c && same_bytes bs cs
same_bytes _ _ = false

module _ {S : Type 0} (client : MinioLike S) where
  abbrev pub provisioned : Result Bool → Result (Unit {0})
  provisioned (err e m) = err e m
  provisioned (ok true) = ok tt
  provisioned (ok false) =
      err object_store_error "object-store bucket provisioning did not converge"

  abbrev pub made : Result (Unit {0}) × S → Result (Unit {0}) × S
  made (err e m, s) = (err e m, s)
  made (ok _, s) = (provisioned (client.bucket_exists s), s)

  abbrev pub provision_from : S → Result Bool → Result (Unit {0}) × S
  provision_from s (err e m) = (err e m, s)
  provision_from s (ok true) = (provisioned (client.bucket_exists s), s)
  provision_from s (ok false) = made (client.make_bucket s)

  unfoldable pub provision : S → Result (Unit {0}) × S
  provision s = provision_from s (client.bucket_exists s)

  unfoldable pub probe : S → Result (Unit {0})
  probe s = do
    exists ← client.bucket_exists s
    raise_if (not exists) object_store_error "object-store bucket is missing"

  abbrev pub removed : Result String → S → Result (Unit {0}) × S
  removed (err e m) s = (err e m, s)
  removed (ok key) s = client.remove_object key s

  unfoldable pub remove_canary : String → S → Result (Unit {0}) × S
  unfolding canary_key
  remove_canary id s = removed (canary_key id) s

  module _ (sha256 : Bytes → String) where
    abbrev pub compared : String → Bytes → Option (Bytes × Stat) → Result StoredPage
    compared key expected none =
        err object_store_error "acceptance canary object verification failed"
    compared key expected (some (body, st)) =
        if same_bytes body expected
        then ok (record {
          key = key;
          sha256 = sha256 body;
          etag = Text.take 128 st.etag;
          size = length body;
        })
        else err object_store_error "acceptance canary object verification failed"

    unfoldable pub verify_canary : String → S → Result StoredPage
    unfolding read_existing canary_key canary_body
    verify_canary id s = do
      key ← canary_key id
      existing ← read_existing client key s
      compared key (encode (canary_body id)) existing
