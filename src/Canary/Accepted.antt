-- ===== src/Canary/Accepted.antt =====
-- What an answer of `run_acceptance_canary` says.
use shadowglass_v35_runtime.Common.{
  ℕ, ◌≡◌, refl, ap, String, true, Option, none, some, [], ◌∷◌, ==_iff, Bool-cases, inl, inr, arith,
}
use shadowglass_v35_runtime.Common.Utf8.{encode}
use shadowglass_v35_runtime.Common.Result.{Result, ok, answers}
use shadowglass_v35_runtime.Worker.Proc.{StoredPage, World, lift}
use shadowglass_v35_runtime.Canary.Finished.{sequenced}
use shadowglass_v35_runtime.Queue.Fail.{QueueJobState}
use shadowglass_v35_runtime.ObjectStore.Identity.{canary_key, canary_body}
use shadowglass_v35_runtime.ObjectStore.Client.{Bytes, Stat, MinioLike}
use shadowglass_v35_runtime.ObjectStore.Writes.{read_existing}
use shadowglass_v35_runtime.ObjectStore.Canary.{same_bytes, compared, verify_canary}
use shadowglass_v35_runtime.Canary.{
  Release, CanaryResult, is_completed, on_bucket, require_done, require_single, verify, result_of,
  judge,
}

same_bytes-≡ : (a b : Bytes) → same_bytes a b ≡ true → a ≡ b
same_bytes-≡ [] [] e = refl
same_bytes-≡ [] (y ∷ b) e = cc
same_bytes-≡ (x ∷ a) [] e = cc
same_bytes-≡ (x ∷ a) (y ∷ b) e =
    let rest = same_bytes-≡ a b (ground (arith, e)) in let first = ==_iff x y in ground arith

module _ {S : Type 0} (client : MinioLike S) (sha256 : Bytes → String) (identity : String) where
  compared-sha256 :
      (key : String) (expected : Bytes) (o : Option (Bytes × Stat)) {p : StoredPage}
      → compared client sha256 key expected o ≡ ok p
      → p.sha256 ≡ sha256 expected
  compared-sha256 key expected none e = cc
  compared-sha256 key expected (some (body, st)) {p} e =
      elim (Bool-cases (same_bytes body expected)) [
        | inl same ↦
            let whole = same_bytes-≡ body expected same in
            let told : sha256 body ≡ p.sha256 = ground (arith, same) in
            rw (← told) (ap sha256 whole)
        | inr other ↦ absurd (ground (arith, other))
      ]

  -- A canary that was verified has the SHA-256 of its body.
  pub verify_canary-sha256 :
      (s : S) {p : StoredPage}
      → verify_canary client sha256 identity s ≡ ok p
      → p.sha256 ≡ sha256 (encode (canary_body identity))
  unfolding verify_canary
  verify_canary-sha256 s {p} e =
      let (key, _, e') = answers (canary_key identity) _ {b = p} e in
      let (existing, _, e'') = answers (read_existing client key s) _ {b = p} e' in
      compared-sha256 key (encode (canary_body identity)) existing {p = p} e''

module _ {S : Type 0} (release : Release S) (i : ℕ) (identity : String) where
  open release use {client, sha256}

  -- What the tests on the state and the object let through.
  abbrev pub Passed : QueueJobState → CanaryResult → Type 0
  Passed t r =
      (is_completed t.state ≡ true)
      × (t.attempts ≡ 1)
      × (r.job_id ≡ i)
      × (r.canary_id ≡ identity)
      × (r.attempts ≡ t.attempts)
      × (r.object_sha256 ≡ sha256 (encode (canary_body identity)))
      × (r.cleaned_up ≡ true)

  require_done-completed :
      (t : QueueJobState) {u : Unit {0}}
      → require_done release t ≡ ok u
      → is_completed t.state ≡ true
  require_done-completed t e = ground arith

  require_single-one :
      (t : QueueJobState) {u : Unit {0}} → require_single release t ≡ ok u → t.attempts ≡ 1
  require_single-one t e = ground arith

  verified :
      (t : QueueJobState) (stored : StoredPage) (w : World S) {r : CanaryResult}
      → is_completed t.state ≡ true
      → t.attempts ≡ 1
      → (verify release identity w).0 ≡ ok stored
      → ok (result_of release i identity t stored) ≡ ok r
      → Passed t r
  unfolding on_bucket
  verified t stored w {r} done one e h =
      let same : result_of release i identity t stored ≡ r = ground (arith, h) in
      let sha = verify_canary-sha256 client sha256 identity _ {p = stored} e in
      rw (← same) (done, one, refl, refl, refl, sha, refl)

  pub judge-Passed :
      (t : QueueJobState) (w : World S) {r : CanaryResult}
      → (judge release i identity t w).0 ≡ ok r
      → Passed t r
  judge-Passed t w {r} =
      let P : Result CanaryResult × World S → Type 0 = λ x. x.0 ≡ ok r → Passed t r in
      sequenced P (lift (require_done release t)) _ w (λ e m _ h. cc)
        λ u done.
          sequenced P (lift (require_single release t)) _ w (λ e m _ h. cc)
            λ v single.
              sequenced P (verify release identity) _ w (λ e m _ h. cc)
                λ stored got h.
                  verified t stored w (require_done-completed t {u = u} done)
                    (require_single-one t {u = v} single) got h
