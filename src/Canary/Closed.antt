-- ===== src/Canary/Closed.antt =====
-- `run_acceptance_canary` leaves no open job behind.
use Prim.Native.String
use shadowglass_v35_runtime.Common.{
  ℕ, ◌≡◌, inl, inr, refl, ap, ◌∙◌, String, true, false, some, List, [], ◌∷◌, find, str_eq, ◌==◌,
  Bool-cases, arith, ==_iff,
}
use shadowglass_v35_runtime.Common.Result.{ok}
use shadowglass_v35_runtime.Queue.Row.{Row, Queue, State, is_open}
use shadowglass_v35_runtime.Queue.Table.{change, update_where}
use shadowglass_v35_runtime.Queue.Claim.{has_id}
use shadowglass_v35_runtime.Queue.Enqueue.{has_key, same_work}
use shadowglass_v35_runtime.Queue.Fail.{
  QueueJobState, get_queue_job_state, is_live_canary, cancel, cancel_acceptance_canary,
}
use shadowglass_v35_runtime.Queue.Invariant.Evolve.{is_final}
use shadowglass_v35_runtime.Queue.Invariant.Valid.{IsValid}
use shadowglass_v35_runtime.Queue.Invariant.Extends.{Keeps}
use shadowglass_v35_runtime.Queue.Ownership.ById.{find-In, find-one}
use shadowglass_v35_runtime.Queue.Idempotency.{Answers, find-Extends}
use shadowglass_v35_runtime.Canary.{canary_job}

-- The row of the canary's key is completed or dead.
abbrev pub IsOver : String → Queue → Type 0
IsOver identity q =
    (r : Row) × (find (has_key (String.◌++◌ "acceptance-canary:" identity)) q.rows ≡ some r)
    × (is_final r.state ≡ true)

module _ (target identity : String) where
  abbrev key : String
  key = (canary_job target identity).idempotency_key

  -- A row that is completed or dead stays as it is.
  pub final_row-Keeps :
      (q q' : Queue) (r : Row)
      → IsValid q
      → Keeps q q'
      → find (has_key key) q.rows ≡ some r
      → is_final r.state ≡ true
      → find (has_key key) q'.rows ≡ some r
  final_row-Keeps q q' r v k found over =
      let (s, still, grown) =
        find-Extends (canary_job target identity) q.rows q'.rows r found (k v).1 in
      still ∙ ap (λ (x : Row). some x) (grown.final_stays over)

  pub IsOver-Keeps :
      (q q' : Queue) → IsValid q → Keeps q q' → IsOver identity q → IsOver identity q'
  IsOver-Keeps q q' v k (r, found, over) = (r, final_row-Keeps q q' r v k found over, over)

  cancel-key :
      (now i : ℕ) (r : Row)
      → has_key key (change (is_live_canary i identity) (cancel now) r) ≡ has_key key r
  unfolding has_key
  cancel-key now i r = ground arith

  find-cancel :
      (now i : ℕ) (rows : List Row) (r : Row)
      → find (has_key key) rows ≡ some r
      → find (has_key key) (update_where (is_live_canary i identity) (cancel now) rows)
        ≡ some (change (is_live_canary i identity) (cancel now) r)
  unfolding update_where
  find-cancel now i [] r e = cc
  find-cancel now i (x ∷ rows) r e = elim (Bool-cases (has_key key x)) [
    | inl hit ↦ let same : x ≡ r = ground (arith, hit) in rw (cancel-key now i x, hit, same) refl
    | inr miss ↦ rw (cancel-key now i x, miss) (find-cancel now i rows r (rw miss at e))
  ]

  open_or_final : (s : State) → is_final s ≡ false → is_open s ≡ true
  open_or_final State.pending e = refl
  open_or_final State.paused e = refl
  open_or_final State.processing e = refl
  open_or_final State.completed e = cc
  open_or_final State.dead e = cc

  cancel-final :
      (now : ℕ) (r : Row)
      → has_key key r ≡ true
      → same_work (canary_job target identity) r ≡ true
      → is_final (change (is_live_canary r.id identity) (cancel now) r).state ≡ true
  unfolding is_live_canary has_key same_work
  cancel-final now r h s = elim (Bool-cases (is_final r.state)) [
    | inl over ↦ ground (arith, over)
    | inr running ↦
        let live = open_or_final r.state running in
        let itself : (r.id == r.id) ≡ true = ground arith in
        let kind : str_eq r.job_kind "acceptance_canary" ≡ true = ground (arith, s) in
        rw (itself, kind, h, live) refl
  ]

  -- The cancellation ends the job that the canary enqueued.
  pub cancel-IsOver :
      (now i : ℕ) (q : Queue)
      → Answers (canary_job target identity) i q.rows
      → IsOver identity (cancel_acceptance_canary now i identity q).1
  unfolding cancel_acceptance_canary
  cancel-IsOver now i q a = (
    change (is_live_canary i identity) (cancel now) a.row,
    find-cancel now i q.rows a.row a.found,
    rw (← a.named)
        (cancel-final now a.row (find-In (has_key key) q.rows {r = a.row} a.found).1 a.same),
  )

  -- The row as it was when the loop saw it.
  abbrev pub Observed : ℕ → QueueJobState → Queue → Type 0
  Observed i t q =
      (r : Row) × (find (has_key key) q.rows ≡ some r)
      × (r.id ≡ i)
      × (r.state ≡ t.state)
      × (r.attempts ≡ t.attempts)

  pub get_queue_job_state-Observed :
      (i : ℕ) (q : Queue) {t : QueueJobState}
      → IsValid q
      → Answers (canary_job target identity) i q.rows
      → get_queue_job_state i q ≡ ok t
      → Observed i t q
  unfolding get_queue_job_state
  get_queue_job_state-Observed i q {t} v a e =
      let (listed, _) = find-In (has_key key) q.rows {r = a.row} a.found in
      let named : has_id i a.row ≡ true = (==_iff a.row.id i).1 a.named in
      let found =
        find-one (has_id i) i a.row (λ s h. (==_iff s.id i).0 h) a.named named q.rows v.ids
          listed in
      let e' = rw (found, get_queue_job_state) at e in
      (a.row, a.found, a.named, ground arith, ground arith)
