-- ===== src/ObjectStore/Stored.antt =====
-- object_store.py: what a successful write leaves in the bucket.
use shadowglass_v35_runtime.Common.{
  ◌≡◌, refl, inl, inr, String, true, not, ◌||◌, Option, none, some, List, length, str_eq, eq_iff,
  Bool-cases, arith,
}
use shadowglass_v35_runtime.Common.Result.{Result, ok, err}
use shadowglass_v35_runtime.Queue.Lease.{LeaseWriteFence}
use shadowglass_v35_runtime.Worker.Proc.{StoredPage}
use shadowglass_v35_runtime.ObjectStore.Client.{Bytes, Stat, MinioLike, IsLawful}
use shadowglass_v35_runtime.ObjectStore.Writes.{
  read_existing, require_fence, kept, verified, written, write_checked, write_fenced, put_immutable,
}
use shadowglass_v35_runtime.ObjectStore.Immutable.{read_existing-content}

-- The object that stands under the key after the write, and what the answer says of it.
pub record IsStored {S : Type 0} (content : String → S → Option Bytes) (sha256 : Bytes → String)
    (key : String) (body : Bytes) (s : S) (p : StoredPage) (s' : S) : Type 0 where
  pub stored : Bytes
  pub here : content key s' ≡ some stored
  pub digest : sha256 stored ≡ sha256 body
  pub name : p.key ≡ key
  pub told : p.sha256 ≡ sha256 body
  pub measured : p.size ≡ length stored
  pub created : content key s ≡ none → stored ≡ body

module _ {S : Type 0} (client : MinioLike S) (content : String → S → Option Bytes)
    (law : IsLawful client content) (sha256 : Bytes → String) where
  kept-IsStored :
      (key : String) (body old : Bytes) (st : Stat) (s : S) (p : StoredPage)
      → content key s ≡ some old
      → kept client sha256 key body old st ≡ ok p
      → IsStored content sha256 key body s p s
  kept-IsStored key body old st s p here e = elim (Bool-cases (str_eq (sha256 old) (sha256 body))) [
    | inl same ↦
        let e' = rw same at e in
        record {
          stored = old;
          here = here;
          digest = (eq_iff (sha256 old) (sha256 body)).0 same;
          name = ground arith;
          told = ground arith;
          measured = ground arith;
          created = λ absent. cc;
        }
    | inr other ↦ (let e' = rw other at e in cc)
  ]

  verified-IsStored :
      (key : String) (body : Bytes) (etag : String) (s t : S) (p : StoredPage)
      (r : Result (Option (Bytes × Stat)))
      → content key t ≡ some body
      → read_existing client key t ≡ r
      → verified client sha256 key body etag r ≡ ok p
      → IsStored content sha256 key body s p t
  verified-IsStored key body etag s t p (err e m) here g e' = cc
  verified-IsStored key body etag s t p (ok none) here g e = cc
  verified-IsStored key body etag s t p (ok (some (persisted, st))) here g e =
      let read = read_existing-content client content law key t persisted st g in
      let same : persisted ≡ body = ground arith in
      record {
        stored = body;
        here = here;
        digest = refl;
        name = ground arith;
        told = ground arith;
        measured = ground arith;
        created = λ _. refl;
      }

  written-IsStored :
      (key : String) (body : Bytes) (s : S) (p : StoredPage) (answer : Result String × S)
      → ((etag : String) → answer.0 ≡ ok etag → content key answer.1 ≡ some body)
      → (written client sha256 key body answer).0 ≡ ok p
      → IsStored content sha256 key body s p (written client sha256 key body answer).1
  written-IsStored key body s p (err e m, t) put e' = cc
  written-IsStored key body s p (ok etag, t) put e =
      verified-IsStored key body etag s t p (read_existing client key t) (put etag refl) refl e

  write_checked-IsStored :
      (key : String) (body : Bytes) (metadata : List (String × String)) (s : S) (p : StoredPage)
      (r : Result (Option (Bytes × Stat)))
      → read_existing client key s ≡ r
      → (write_checked client sha256 key body metadata s r).0 ≡ ok p
      → IsStored content sha256 key body s p (write_checked client sha256 key body metadata s r).1
  write_checked-IsStored key body metadata s p (err e m) g e' = cc
  write_checked-IsStored key body metadata s p (ok (some (old, st))) g e =
      kept-IsStored key body old st s p (read_existing-content client content law key s old st g) e
  write_checked-IsStored key body metadata s p (ok none) g e =
      written-IsStored key body s p (client.put_object key body metadata s)
        (law.put_self key body metadata s) e

  write_fenced-IsStored :
      (key : String) (body : Bytes) (metadata : List (String × String)) (s : S) (p : StoredPage)
      (r : Result (Unit {0}))
      → (write_fenced client sha256 key body metadata s r).0 ≡ ok p
      → IsStored content sha256 key body s p (write_fenced client sha256 key body metadata s r).1
  write_fenced-IsStored key body metadata s p (err e m) e' = cc
  write_fenced-IsStored key body metadata s p (ok _) e =
      write_checked-IsStored key body metadata s p (read_existing client key s) refl e

  fence-open :
      (key : String) (body : Bytes) (metadata : List (String × String)) (fence : LeaseWriteFence)
      (s : S) (p : StoredPage)
      → (put_immutable client sha256 key body metadata fence s).0 ≡ ok p
      → (fence.active ≡ true) × (fence.object_key ≡ key)
  unfolding put_immutable
  fence-open key body metadata fence s p e =
      elim (Bool-cases (not fence.active || not (str_eq fence.object_key key))) [
        | inl shut ↦ (let e' = rw shut at e in cc)
        | inr passed ↦ (ground arith, (eq_iff fence.object_key key).0 (ground arith))
      ]

  -- A write that succeeds had an open fence on its own key. It leaves an object whose SHA-256 is
  -- that of the body, the body itself where no object stood, and answers with its key, SHA-256 and
  -- size.
  pub put_immutable-IsStored :
      (key : String) (body : Bytes) (metadata : List (String × String)) (fence : LeaseWriteFence)
      (s : S) (p : StoredPage)
      → (put_immutable client sha256 key body metadata fence s).0 ≡ ok p
      → (fence.active ≡ true)
        × (fence.object_key ≡ key)
        × IsStored content sha256 key body s p
            (put_immutable client sha256 key body metadata fence s).1
  put_immutable-IsStored key body metadata fence s p e =
      let (active, own) = fence-open key body metadata fence s p e in
      (
        active,
        own,
        unfold put_immutable in
            write_fenced-IsStored key body metadata s p (require_fence fence key) e,
      )
