-- ===== src/App/Limiter/Window.antt =====
-- app.py: the limiter against the rule that it implements, at most `limit` accepted calls within
-- any `seconds`.
use shadowglass_v35_runtime.Common.{
  ℕ, ◌≤◌, String, ◌≡◌, refl, sym, ◌∙◌, inl, inr, Bool, true, false, none, some, List, [], ◌∷◌, ◌++◌,
  length, length-append, count, leb, ltb, coalesce, str_eq, if◌then◌else◌, All, All-append,
  All-implies, eq_iff, ltb→lt, arith, Bool-cases, Option-cases,
}
use shadowglass_v35_runtime.App.Limiter.{
  Limiter, is_allowed, lookup, evict, remove, drop_old, refused, admit, others, allow,
}
use shadowglass_v35_runtime.App.Limiter.Deque.{
  is_recent, Ascending, count-append, count-drop_old, length-drop_old, drop_old-recent,
  Ascending-drop_old, Ascending-append, All-drop_old,
}

-- The rule: a call is accepted where fewer than `limit` of the accepted calls before are recent.
unfoldable pub ideal : ℕ → ℕ → List ℕ → List ℕ → List Bool
unfolding is_recent
ideal limit seconds history [] = []
ideal limit seconds history (now ∷ calls) =
    let accepted = ltb (count (is_recent now seconds) history) limit in
    accepted ∷ ideal limit seconds (if accepted then history ++ now ∷ [] else history) calls

-- One key's calls at these times.
unfoldable pub answers : String → ℕ → ℕ → Limiter → List ℕ → List Bool
unfolding allow
answers key limit seconds l [] = []
answers key limit seconds l (now ∷ calls) =
    let (verdict, after) = allow now key limit seconds l in
    is_allowed verdict ∷ answers key limit seconds after calls

-- A deque stands for the accepted calls up to the time `t`.
record Tracks (limit seconds t : ℕ) (d h : List ℕ) : Type 0 where
  bounded : length d ≤ limit
  ordered : Ascending 0 d
  past : All (λ e. e ≤ t) d
  agrees : (now : ℕ) → t ≤ now → count (is_recent now seconds) d ≡ count (is_recent now seconds) h

refused-denied : (now seconds : ℕ) (d : List ℕ) → is_allowed (refused now seconds d) ≡ false
refused-denied now seconds [] = refl
refused-denied now seconds (e ∷ d) = refl

module _ (key : String) where
  lookup-append :
      (items : List (String × List ℕ)) (d : List ℕ)
      → lookup key items ≡ none
      → lookup key (items ++ (key, d) ∷ []) ≡ some d
  unfolding lookup
  lookup-append [] d e = let same = (eq_iff key key).1 refl in rw same refl
  lookup-append ((k, x) ∷ items) d e = elim (Bool-cases (str_eq k key)) [
    | inl hit ↦ absurd (ground (arith, rw hit at e))
    | inr miss ↦ rw miss (lookup-append items d (rw miss at e))
  ]

  lookup-remove : (items : List (String × List ℕ)) → lookup key (remove key items) ≡ none
  unfolding lookup
  lookup-remove [] = refl
  lookup-remove ((k, x) ∷ items) =
      let ih = lookup-remove items in
      elim (Bool-cases (str_eq k key)) [ inl hit ↦ rw hit ih | inr miss ↦ rw miss (rw miss ih) ]

  lookup-evict :
      (n : ℕ) (items : List (String × List ℕ))
      → lookup key items ≡ none
      → lookup key (evict n items) ≡ none
  unfolding lookup evict
  lookup-evict n [] e = refl
  lookup-evict n ((k, x) ∷ items) e = elim (Bool-cases (str_eq k key)) [
    | inl hit ↦ absurd (ground (arith, rw hit at e))
    | inr miss ↦ elim (Bool-cases (leb n (length ((k, x) ∷ items)))) [
      | inl full ↦ rw full (lookup-evict n items (rw miss at e))
      | inr room ↦ rw room (rw miss (rw miss at e))
    ]
  ]

  -- After a call, the key has its new deque.
  lookup-others : (l : Limiter) (d : List ℕ) → lookup key (others key l ++ (key, d) ∷ []) ≡ some d
  lookup-others l d = lookup-append (others key l) d (elim (Option-cases (lookup key l.events)) [
    | inl absent ↦ rw (others, absent) (lookup-evict l.max_keys l.events absent)
    | inr (x, present) ↦ rw (others, present) (lookup-remove l.events)
  ])

  module _ (limit seconds : ℕ) where
    step-Tracks :
        (t now : ℕ) (d h : List ℕ)
        → t ≤ now
        → Tracks limit seconds t d h
        → (is_allowed (admit now limit seconds d).0 ≡ ltb (count (is_recent now seconds) h) limit)
          × Tracks limit seconds now
              (admit now limit seconds d).1
              (if ltb (count (is_recent now seconds) h) limit then h ++ now ∷ [] else h)
    unfolding admit
    step-Tracks t now d h le k =
        let live = drop_old now seconds d in
        let same : count (is_recent now seconds) h ≡ length live =
          sym (k.agrees now le)
          ∙ sym (count-drop_old seconds now now d (omega arith))
          ∙ drop_old-recent seconds now d 0 k.ordered in
        let short : length live ≤ limit = omega (arith, length-drop_old seconds now d, k.bounded) in
        let live_ordered = Ascending-drop_old seconds now d 0 k.ordered in
        let live_past : All (λ e. e ≤ now) live =
          All-implies (λ e. e ≤ t) (λ e. e ≤ now) live (λ e h. omega (arith, h, le))
            (All-drop_old (λ e. e ≤ t) now seconds d k.past) in
        let live_agrees : (later : ℕ)
            → now ≤ later
            → count (is_recent later seconds) live ≡ count (is_recent later seconds) h =
          λ later h. count-drop_old seconds now later d h ∙ k.agrees later (omega (arith, le, h)) in
        elim (Bool-cases (leb limit (length live))) [
          | inl full ↦
              let no : ltb (count (is_recent now seconds) h) limit ≡ false =
                ground (arith, full, same) in
              rw (full, no)
                (
                  refused-denied now seconds live,
                  record {
                    bounded = short;
                    ordered = live_ordered;
                    past = live_past;
                    agrees = live_agrees;
                  },
                )
          | inr room ↦
              let ok_ : ltb (count (is_recent now seconds) h) limit ≡ true =
                ground (arith, room, same) in
              rw (room, ok_)
                (
                  refl,
                  record {
                    bounded = omega (
                      arith,
                      length-append live (now ∷ []),
                      ltb→lt (length live) limit (ground (arith, room)),
                    );
                    ordered = Ascending-append live 0 now (omega arith) live_ordered live_past;
                    past = All-append (λ e. e ≤ now) live (now ∷ []) live_past (omega arith, tt);
                    agrees = λ later l. omega (
                      arith,
                      count-append (is_recent later seconds) live (now ∷ []),
                      count-append (is_recent later seconds) h (now ∷ []),
                      live_agrees later l,
                    );
                  },
                )
        ]

    answers-from :
        (calls : List ℕ) (t : ℕ) (l : Limiter) (h : List ℕ)
        → Tracks limit seconds t (coalesce (lookup key l.events) []) h
        → Ascending t calls
        → answers key limit seconds l calls ≡ ideal limit seconds h calls
    unfolding answers ideal
    answers-from [] t l h k a = refl
    answers-from (now ∷ calls) t l h k (le, a) =
        let d = coalesce (lookup key l.events) [] in
        let (same, next) = step-Tracks t now d h le k in
        let l' = (allow now key limit seconds l).1 in
        let h' = if ltb (count (is_recent now seconds) h) limit then h ++ now ∷ [] else h in
        let stored : coalesce (lookup key l'.events) [] ≡ (admit now limit seconds d).1 =
          rw (lookup-others l (admit now limit seconds d).1) refl in
        let rest = answers-from calls now l' h' (rw stored next) a in rw (same, rest) refl

    -- On one key's calls in the order of time, with no call of another key between them and whatever
    -- other keys the limiter holds, from the key's first call on the limiter accepts exactly the
    -- calls before which fewer than `limit` accepted calls lie less than `seconds` back.
    pub answers-ideal :
        (calls : List ℕ) (l : Limiter)
        → lookup key l.events ≡ none
        → Ascending 0 calls
        → answers key limit seconds l calls ≡ ideal limit seconds [] calls
    answers-ideal calls l new a =
        answers-from calls 0 l []
          (rw new
            (record { bounded = omega arith; ordered = tt; past = tt; agrees = λ now le. refl }))
          a
