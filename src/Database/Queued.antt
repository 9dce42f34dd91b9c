-- ===== src/Database/Queued.antt =====
-- The pages that a discovery queues.
use text.Mathlib.TextLemmas.{append_cancel_left}
use shadowglass_v35_runtime.Common.{
  ℕ, zero, suc, ◌+◌, ◌≤◌, ◌<◌, ◌≡◌, ◌≢◌, refl, sym, ap, ◌∙◌, inl, inr, String, Bool, false, Option,
  none, some, List, [], ◌∷◌, ◌++◌, find, length, str_eq, eq_iff, ==_iff, ◌==◌, arith, Bool-cases,
}
use shadowglass_v35_runtime.Common.Text.{show}
use shadowglass_v35_runtime.Common.Text.Decimal.{show_injective}
use shadowglass_v35_runtime.Common.Result.{ok}
use shadowglass_v35_runtime.Json.Dict.{IsDict, distinct_keys, distinct_keys-IsDict}
use shadowglass_v35_runtime.Queue.Row.{Row, Queue, QueueJob}
use shadowglass_v35_runtime.Queue.Table.{update_where}
use shadowglass_v35_runtime.Queue.Lease.{owned_by, update_owned, acknowledge}
use shadowglass_v35_runtime.Queue.Enqueue.{has_key, new_row, insert_work}
use shadowglass_v35_runtime.Queue.Invariant.Valid.{IsValid}
use shadowglass_v35_runtime.Queue.Invariant.Insertions.{insert_work-Keeps}
use shadowglass_v35_runtime.Queue.Idempotency.{
  Answers, Answers-Extends, find-append, new_row-same, new_row-key,
}
use shadowglass_v35_runtime.Database.Tables.{Db}
use shadowglass_v35_runtime.Database.Context.{JobContext}
use shadowglass_v35_runtime.Database.Discovery.{
  page_key, page_work, queue_pages, complete_discovery,
}
use shadowglass_v35_runtime.Database.Keeps.{queue_pages-Keeps, acknowledged-Keeps}

-- The keys of two pages of a discovery differ.
page_key_injective : (i m n : ℕ) → page_key i m ≡ page_key i n → m ≡ n
unfolding page_key
page_key_injective i m n e =
    let id_on = append_cancel_left "discovery:" _ _ e in
    let page_on = append_cancel_left (show i) _ _ id_on in
    show_injective m n (append_cancel_left ":page:" _ _ page_on)

find-past :
    (key : String) (rows : List Row) (r : Row)
    → find (has_key key) rows ≡ none
    → has_key key r ≡ false
    → find (has_key key) (rows ++ r ∷ []) ≡ none
find-past key [] r e h = rw h refl
find-past key (x ∷ rows) r e h = elim (Bool-cases (has_key key x)) [
  | inl hit ↦ absurd (ground (arith, e, hit))
  | inr miss ↦ rw miss (find-past key rows r (rw miss at e) h)
]

length-past : (rows : List Row) (r : Row) → length (rows ++ r ∷ []) ≡ length rows + 1
length-past [] r = refl
length-past (x ∷ rows) r = let ih = length-past rows r in omega arith

length-update :
    (test : Row → Bool) (f : Row → Row) (rows : List Row)
    → length (update_where test f rows) ≡ length rows
unfolding update_where
length-update test f [] = refl
length-update test f (x ∷ rows) = ap suc (length-update test f rows)

module _ (job_id : ℕ) (c : JobContext) where
  -- No page from here on has a row.
  abbrev pub AreAbsent : ℕ → ℕ → Queue → Type 0
  AreAbsent page left q =
      (p : ℕ) → page ≤ p → p < page + left → find (has_key (page_key job_id p)) q.rows ≡ none

  inserted :
      (now page : ℕ) (q : Queue)
      → find (has_key (page_key job_id page)) q.rows ≡ none
      → insert_work now (page_work job_id c page) q ≡ (
        some q.next_id,
        record q {
          rows = q.rows ++ new_row now q.next_id (page_work job_id c page) ∷ [];
          next_id = suc q.next_id;
        },
      )
  unfolding insert_work
  inserted now page q absent = rw (absent, insert_work) refl

  other_key :
      (now id p page : ℕ)
      → p ≢ page
      → has_key (page_key job_id p) (new_row now id (page_work job_id c page)) ≡ false
  unfolding has_key
  other_key now id p page apart =
      elim (Bool-cases (str_eq (page_key job_id page) (page_key job_id p))) [
        | inl same ↦ absurd (
            apart (
              page_key_injective job_id p page
                (sym ((eq_iff (page_key job_id page) (page_key job_id p)).0 same))))
        | inr other ↦ other
      ]

  page_work-IsDict : (page : ℕ) → IsDict (page_work job_id c page).payload
  unfolding distinct_keys
  page_work-IsDict page = distinct_keys-IsDict (page_work job_id c page).payload refl

  new_row-Answers :
      (now page : ℕ) (q : Queue)
      → find (has_key (page_key job_id page)) q.rows ≡ none
      → Answers
          (page_work job_id c page)
          q.next_id
          (q.rows ++ new_row now q.next_id (page_work job_id c page) ∷ [])
  new_row-Answers now page q absent =
      let w = page_work job_id c page in
      record {
        row = new_row now q.next_id w;
        found =
            find-append (page_key job_id page) q.rows (new_row now q.next_id w) absent
              (new_row-key now q.next_id w);
        same = new_row-same now q.next_id w (page_work-IsDict page);
        named = refl;
      }

  -- Each page is queued as its own work.
  abbrev pub AreQueued : ℕ → ℕ → List Row → Type 0
  AreQueued page left rows =
      (p : ℕ) → page ≤ p → p < page + left → (i : ℕ) × Answers (page_work job_id c p) i rows

  queue_pages-AreQueued :
      (now page left : ℕ) (q : Queue)
      → IsValid q
      → AreAbsent page left q
      → ((queue_pages now job_id c page left q).0 ≡ left)
        × (length (queue_pages now job_id c page left q).1.rows ≡ length q.rows + left)
        × AreQueued page left (queue_pages now job_id c page left q).1.rows
  unfolding queue_pages
  queue_pages-AreQueued now page zero q v absent =
      (refl, omega arith, λ p lo hi. absurd (omega arith))
  queue_pages-AreQueued now page (suc left) q v absent =
      let w = page_work job_id c page in
      let r = new_row now q.next_id w in
      let q' : Queue = record q { rows = q.rows ++ r ∷ []; next_id = suc q.next_id } in
      let here = absent page (omega arith) (omega arith) in
      let made = inserted now page q here in
      let v' : IsValid q' =
        rw (ap (λ (x : Option ℕ × Queue). x.1) made) at
          (insert_work-Keeps now w q (omega arith, omega arith) v).0 in
      let later : AreAbsent (page + 1) left q' = λ p lo hi.
        find-past (page_key job_id p) q.rows r (absent p (omega arith) (omega arith))
          (other_key now q.next_id p page (λ e. omega arith)) in
      let (count, size, queued) = queue_pages-AreQueued now (page + 1) left q' v' later in
      let one = length-past q.rows r in
      let grown = (queue_pages-Keeps now job_id c (page + 1) left q' v').1 in
      let after = (queue_pages now job_id c (page + 1) left q').1.rows in
      let first : Answers w q.next_id after =
        Answers-Extends w q.next_id q'.rows after (new_row-Answers now page q here) grown in
      rw (made, queue_pages)
        (
          omega arith,
          omega arith,
          λ p lo hi. elim (Bool-cases (p == page)) [
            | inl same ↦ (q.next_id, rw ((==_iff p page).0 same) first)
            | inr other ↦ queued p (ground (arith, other)) (omega arith)
          ],
        )

-- A discovery that completes on a valid queue without rows for its pages queues each of its pages
-- once: it answers with their number, the table grows by as many rows, and the page's key finds a
-- row with the work of that page.
pub complete_discovery-AreQueued :
    (now acked : ℕ) (job : QueueJob) (c : JobContext) (total page_count : ℕ) (db db' : Db) (n : ℕ)
    → IsValid db.queue
    → AreAbsent job.id c 0 page_count db.queue
    → complete_discovery now acked job c total page_count db ≡ ok (n, db')
    → (n ≡ page_count)
      × (length db'.queue.rows ≡ length db.queue.rows + page_count)
      × AreQueued job.id c 0 page_count db'.queue.rows
unfolding complete_discovery update_owned
complete_discovery-AreQueued now acked job c total page_count db db' n v absent e =
    let pages = queue_pages now job.id c 0 page_count db.queue in
    let (count, size, queued) = queue_pages-AreQueued job.id c now 0 page_count db.queue v absent in
    let v' = (queue_pages-Keeps now job.id c 0 page_count db.queue v).0 in
    let ended = (update_owned acked job.id job.lease_token (acknowledge acked) pages.1).1 in
    let grown = (acknowledged-Keeps acked job.id job.lease_token pages.1 v').1 in
    let same : ended ≡ db'.queue = ground arith in
    let told : pages.0 ≡ n = ground arith in
    let kept =
      length-update (owned_by acked job.id job.lease_token) (acknowledge acked) pages.1.rows in
    rw (← same) (
      sym told ∙ count,
      kept ∙ size,
      λ p lo hi.
          let (i, a) = queued p lo hi in
          (i, Answers-Extends (page_work job.id c p) i pages.1.rows ended.rows a grown),
    )
