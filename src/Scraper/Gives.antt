-- ===== src/Scraper/Gives.antt =====
-- What remote work answers with, on every run that does not raise.
use shadowglass_v35_runtime.Common.{Bool, true, false, if◌then◌else◌}
use shadowglass_v35_runtime.Common.Result.{ok, err}
use shadowglass_v35_runtime.Scraper.Remote.{Trace, ended, beating, Remote, followed, ◌>>=◌, pure}

-- What a run answers with, where it answers.
abbrev pub Answers : {W A : Type 0} → (A → Type 0) → Trace W A → Type 0
Answers P (ended (ok a) w) = P a
Answers P (ended (err e m) w) = Unit
Answers P (beating t) = Answers P t

module _ {W A B : Type 0} (P : A → Type 0) (Q : B → Type 0) where
  pub Answers-followed :
      (t : Trace W A) (k : A → Remote W B)
      → Answers P t
      → ((a : A) (w : W) → P a → Answers Q (k a w))
      → Answers Q (followed t k)
  Answers-followed (ended (ok a) w) k h f = f a w h
  Answers-followed (ended (err e m) w) k h f = tt
  Answers-followed (beating t) k h f = Answers-followed t k h f

module _ {W A : Type 0} where
  -- Nothing is asked of it.
  pub Answers-any : (t : Trace W A) → Answers (λ _. Unit {0}) t
  Answers-any (ended (ok a) w) = tt
  Answers-any (ended (err e m) w) = tt
  Answers-any (beating t) = Answers-any t

-- Whatever the world, what a run answers with.
pub record Gives {W A : Type 0} (P : A → Type 0) (m : Remote W A) : Type 0 where
  pub at : (w : W) → Answers P (m w)

module _ {W B : Type 0} (Q : B → Type 0) where
  -- After a step of which something is known.
  pub Gives-bind :
      {A : Type 0} (P : A → Type 0) (m : Remote W A) (k : A → Remote W B)
      → Gives P m
      → ((a : A) → P a → Gives Q (k a))
      → Gives Q (m >>= k)
  Gives-bind P m k h f = record {
    at = λ w. Answers-followed P Q (m w) k (h.at w) (λ a v p. (f a p).at v);
  }

  -- After a step of which nothing is asked.
  pub Gives-after :
      {A : Type 0} (m : Remote W A) (k : A → Remote W B)
      → ((a : A) → Gives Q (k a))
      → Gives Q (m >>= k)
  Gives-after m k f =
      Gives-bind (λ _. Unit {0}) m k (record { at = λ w. Answers-any (m w) }) (λ a _. f a)

  pub Gives-if :
      (b : Bool) (m n : Remote W B) → Gives Q m → Gives Q n → Gives Q (if b then m else n)
  Gives-if true m n hm hn = hm
  Gives-if false m n hm hn = hn

  pub Gives-pure : (b : B) → Q b → Gives {W = W} Q (pure b)
  Gives-pure b q = record { at = λ w. q }

module _ {W A : Type 0} (P Q : A → Type 0) (implies : (a : A) → P a → Q a) where
  Answers-implies : (t : Trace W A) → Answers P t → Answers Q t
  Answers-implies (ended (ok a) w) h = implies a h
  Answers-implies (ended (err e m) w) h = tt
  Answers-implies (beating t) h = Answers-implies t h

  pub Gives-implies : (m : Remote W A) → Gives P m → Gives Q m
  Gives-implies m h = record { at = λ w. Answers-implies (m w) (h.at w) }
