-- ===== src/Canary/Cleaned.antt =====
-- A canary run that answers: its job, its object, and what is left of them.
use shadowglass_v35_runtime.Common.{
  ℕ, ◌+◌, ◌≡◌, refl, sym, ◌∙◌, String, Bool, true, false, Option, none, some, find, arith,
}
use Prim.Native.String
use shadowglass_v35_runtime.Common.Utf8.{encode}
use shadowglass_v35_runtime.Common.Result.{Result, ok, err}
use shadowglass_v35_runtime.Queue.Row.{Row, Queue, State}
use shadowglass_v35_runtime.Queue.Enqueue.{has_key}
use shadowglass_v35_runtime.Queue.Fail.{QueueJobState}
use shadowglass_v35_runtime.Queue.Invariant.Valid.{IsValid}
use shadowglass_v35_runtime.Queue.Invariant.Extends.{Keeps, Keeps-trans}
use shadowglass_v35_runtime.Worker.Proc.{World, lift}
use shadowglass_v35_runtime.Worker.Keeps.{IsFair}
use shadowglass_v35_runtime.ObjectStore.Identity.{canary_key, canary_body}
use shadowglass_v35_runtime.ObjectStore.Client.{Bytes, IsLawful}
use shadowglass_v35_runtime.ObjectStore.Canary.{removed, remove_canary}
use shadowglass_v35_runtime.Canary.{
  Release, CanaryResult, is_completed, on_bucket, require_target, require_timeout, require_poll,
  enqueue_canary, judge, answered, removing, cancelling, cleanup, timed_out, concluded, watch,
  rounds, supervise, run_checked, identity_of, run_acceptance_canary,
}
use shadowglass_v35_runtime.Canary.Closed.{Observed, final_row-Keeps}
use shadowglass_v35_runtime.Canary.Keeps.{judge-Preserves, watch-Preserves, removing-Keeps}
use shadowglass_v35_runtime.Canary.Finished.{sequenced, enqueue_canary-Standing}
use shadowglass_v35_runtime.Canary.Watched.{Standing, Standing-Keeps, watch-Sees}
use shadowglass_v35_runtime.Canary.Accepted.{Passed, judge-Passed}

-- The row of the canary's job, completed at its first attempt.
abbrev pub IsDone : String → ℕ → Queue → Type 0
IsDone identity i q =
    (r : Row) × (find (has_key (String.◌++◌ "acceptance-canary:" identity)) q.rows ≡ some r)
    × (r.id ≡ i)
    × (r.state ≡ State.completed)
    × (r.attempts ≡ 1)

module _ {S : Type 0} (release : Release S) (content : String → S → Option Bytes)
    (identity : String) where
  open release use {turns, client, sha256, target_worker_id, timeout, monotonic}

  -- The canary's object is not in the bucket.
  abbrev pub IsRemoved : S → Type 0
  IsRemoved s = (key : String) × (canary_key identity ≡ ok key) × (content key s ≡ none)

  abbrev pub IsAccepted : CanaryResult → World S → Type 0
  IsAccepted r w =
      (r.canary_id ≡ identity)
      × (r.attempts ≡ 1)
      × (r.cleaned_up ≡ true)
      × (r.object_sha256 ≡ sha256 (encode (canary_body identity)))
      × IsDone identity r.job_id w.db.queue
      × IsRemoved w.objects

  answered-false :
      (r : Result CanaryResult) (x : Result (Unit {0}) × World S)
      → (answered release false r x).0 ≡ r
  answered-false r (ok _, w) = refl
  answered-false r (err e m, w) = refl

  answered-true :
      (o : Result CanaryResult) (x : Result (Unit {0}) × World S) {r : CanaryResult}
      → (answered release true o x).0 ≡ ok r
      → (o ≡ ok r) × (x.0 ≡ ok tt) × ((answered release true o x).1 ≡ x.1)
  answered-true o (ok _, w) e = (e, refl, refl)
  answered-true o (err f m, w) e = absurd (cc)

  module _ (law : IsLawful client content) where
    removed-IsRemoved :
        (s : S) (o : Result String)
        → canary_key identity ≡ o
        → (removed client o s).0 ≡ ok tt
        → IsRemoved (removed client o s).1
    removed-IsRemoved s (ok key) named e = (key, named, law.remove_self key s e)
    removed-IsRemoved s (err f m) named e = absurd (cc)

    on_bucket-IsRemoved :
        (w : World S)
        → (on_bucket release (remove_canary client identity) w).0 ≡ ok tt
        → IsRemoved (on_bucket release (remove_canary client identity) w).1.objects
    unfolding on_bucket remove_canary
    on_bucket-IsRemoved w e = removed-IsRemoved _ (canary_key identity) refl e

    module _ (fair : IsFair turns) (i : ℕ) where
      abbrev Stands : World S → Type 0
      Stands = Standing release fair target_worker_id identity i

      completed_state : (s : State) → is_completed s ≡ true → s ≡ State.completed
      completed_state State.completed e = refl
      completed_state State.dead e = cc
      completed_state State.pending e = cc
      completed_state State.processing e = cc
      completed_state State.paused e = cc

      Observed-IsDone :
          (t : QueueJobState) (q q' : Queue)
          → IsValid q
          → Keeps q q'
          → is_completed t.state ≡ true
          → t.attempts ≡ 1
          → Observed target_worker_id identity i t q
          → IsDone identity i q'
      Observed-IsDone t q q' v k done one (r, found, named, state, attempts) =
          let ended = state ∙ completed_state t.state done in
          (
            r,
            final_row-Keeps target_worker_id identity q q' r v k found (rw ended refl),
            named,
            ended,
            attempts ∙ one,
          )

      cleanup-IsAccepted :
          (b : Bool) (t : QueueJobState) (q : Queue) (x : Result CanaryResult × World S)
          {r : CanaryResult}
          → b ≡ is_completed t.state
          → IsValid q
          → Keeps q x.1.db.queue
          → Observed target_worker_id identity i t q
          → (x.0 ≡ ok r → Passed release i identity t r)
          → (cleanup release b i identity x).0 ≡ ok r
          → IsAccepted r (cleanup release b i identity x).1
      cleanup-IsAccepted true t q (o, w) {r} done v k seen passed e =
          let y = on_bucket release (remove_canary client identity) w in
          let (answer, gone, world) = answered-true o y {r = r} e in
          let (ended, one, job, id, attempts, sha, clean) = passed answer in
          let kept =
            Keeps-trans q w.db.queue (removing release true identity (o, w)).1.db.queue k
              (removing-Keeps release fair true identity (o, w)) in
          (
            id,
            attempts ∙ one,
            clean,
            sha,
            rw job (Observed-IsDone t q _ v kept ended one seen),
            rw world (on_bucket-IsRemoved w gone),
          )
      cleanup-IsAccepted false t q (o, w) {r} done v k seen passed e =
          let w' = cancelling release i identity w in
          let same = answered-false o (on_bucket release (remove_canary client identity) w') in
          let ended = (passed (sym same ∙ e)).0 in absurd (ground (arith, done, ended))

      concluded-IsAccepted :
          (x : Result (Option QueueJobState) × World S) {r : CanaryResult}
          → Stands x.1
          → ((t : QueueJobState)
              → x.0 ≡ ok (some t)
              → Observed target_worker_id identity i t x.1.db.queue)
          → (concluded release i identity x).0 ≡ ok r
          → IsAccepted r (concluded release i identity x).1
      concluded-IsAccepted (err f m, w) s seen e =
          let w' = cancelling release i identity w in
          let same =
            answered-false (err f m) (on_bucket release (remove_canary client identity) w') in
          absurd (ground (arith, e, same))
      concluded-IsAccepted (ok none, w) s seen e =
          let w' = cancelling release i identity w in
          let same =
            answered-false (timed_out release)
              (on_bucket release (remove_canary client identity) w') in
          absurd (ground (arith, e, same))
      concluded-IsAccepted (ok (some t), w) {r} s seen e =
          cleanup-IsAccepted (is_completed t.state) t w.db.queue (judge release i identity t w)
            {r = r} refl s.0 ((judge-Preserves release fair i identity t).at w) (seen t refl)
            (judge-Passed release i identity t w {r = r}) e

      supervise-IsAccepted :
          (w : World S) {r : CanaryResult}
          → Stands w
          → (supervise release identity i w).0 ≡ ok r
          → IsAccepted r (supervise release identity i w).1
      unfolding supervise
      supervise-IsAccepted w {r} s e =
          let deadline = monotonic 0 + timeout in
          let left = rounds release in
          let x = watch release i deadline left 1 w in
          let kept = (watch-Preserves release fair i deadline left 1).at w in
          concluded-IsAccepted x {r = r}
            (Standing-Keeps release fair target_worker_id identity i w x.1 kept s)
            (watch-Sees release fair target_worker_id identity i deadline left 1 w s) e

    run_checked-IsAccepted :
        (fair : IsFair turns) (w : World S) {r : CanaryResult}
        → IsValid w.db.queue
        → (run_checked release identity w).0 ≡ ok r
        → IsAccepted r (run_checked release identity w).1
    run_checked-IsAccepted fair w {r} v =
        let P : Result CanaryResult × World S → Type 0 = λ x. x.0 ≡ ok r → IsAccepted r x.1 in
        sequenced P (lift (require_target release)) _ w (λ e m _ h. absurd (cc))
          λ _ _.
            sequenced P (lift (require_timeout release)) _ w (λ e m _ h. absurd (cc))
              λ _ _.
                sequenced P (lift (require_poll release)) _ w (λ e m _ h. absurd (cc))
                  λ _ _.
                    sequenced P (lift (canary_key identity)) _ w (λ e m _ h. absurd (cc))
                      λ _ _.
                        sequenced P (enqueue_canary release identity) _ w (λ e m _ h. absurd (cc))
                          λ job h.
                            supervise-IsAccepted fair job.0 (enqueue_canary release identity w).1
                              {r = r}
                              (enqueue_canary-Standing release fair identity w {job = job} v h)

-- A run of the canary that answers has seen its job completed at its first attempt, and the row is
-- that still; the object that it read had the SHA-256 of the canary's body; and the object is no
-- longer in the bucket. This holds with a client that keeps its documented behaviour, whatever the
-- other processes do to the tables and the bucket before each step.
pub run_acceptance_canary-IsAccepted :
    {S : Type 0} (release : Release S) (content : String → S → Option Bytes)
    → IsLawful release.client content
    → IsFair release.turns
    → (canary_id : Option String) (fresh : String) (w : World S) (r : CanaryResult)
    → IsValid w.db.queue
    → (run_acceptance_canary release canary_id fresh w).0 ≡ ok r
    → IsAccepted release content
        (identity_of release canary_id fresh)
        r
        (run_acceptance_canary release canary_id fresh w).1
unfolding run_acceptance_canary
run_acceptance_canary-IsAccepted release content law fair canary_id fresh w r v e =
    run_checked-IsAccepted release content (identity_of release canary_id fresh) law fair w {r = r}
      v e
