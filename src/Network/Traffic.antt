-- ===== src/Network/Traffic.antt =====
-- What calls over the network keep: a property of the world outside that DNS queries keep, and that
-- the allowed exchanges keep.
use shadowglass_v35_runtime.Common.{ℕ, ◌≡◌, refl, String, Bool, true, false, if◌then◌else◌}
use shadowglass_v35_runtime.Common.Result.{Result, ok, err}
use shadowglass_v35_runtime.Network.{Exchange, Network, Net, continue, ◌>>=◌, pure, lift}

pub record KeepsTraffic {N : Type 0} (net : Network N) (Allowed : Exchange → Type 0)
    (I : N → Type 0) : Type 0 where
  pub dns_kept : (host : String) (port : ℕ) (n : N) → I n → I (net.getaddrinfo host port n).1
  pub exchange_kept : (e : Exchange) (n : N) → Allowed e → I n → I (net.exchange e n).1

module _ {N : Type 0} (I : N → Type 0) where
  pub record Kept {A : Type 0} (m : Net N A) : Type 0 where
    pub at : (n : N) → I n → I (m n).1

  pub Kept-pure : {A : Type 0} (a : A) → Kept (pure a)
  Kept-pure a = record { at = λ n h. h }

  pub Kept-lift : {A : Type 0} (r : Result A) → Kept (lift r)
  Kept-lift r = record { at = λ n h. h }

  pub Kept-if :
      {A : Type 0} (b : Bool) (m k : Net N A) → Kept m → Kept k → Kept (if b then m else k)
  Kept-if true m k hm hk = hm
  Kept-if false m k hm hk = hk

  pub Kept-continue :
      {A B : Type 0} (r : Result A) (k : A → Net N B) → ((a : A) → Kept (k a)) → Kept (continue r k)
  Kept-continue (ok a) k hk = hk a
  Kept-continue (err e m) k hk = record { at = λ n h. h }

  pub Kept-bind :
      {A B : Type 0} (m : Net N A) (k : A → Net N B)
      → Kept m
      → ((a : A) → Kept (k a))
      → Kept (m >>= k)
  Kept-bind m k hm hk = record { at = λ n h. (Kept-continue (m n).0 k hk).at (m n).1 (hm.at n h) }

  -- A step that answers, with its answer known.
  pub Kept-lifted :
      {A B : Type 0} (r : Result A) (k : A → Net N B)
      → ((a : A) → r ≡ ok a → Kept (k a))
      → Kept (lift r >>= k)
  Kept-lifted (ok a) k hk = hk a refl
  Kept-lifted (err e m) k hk = record { at = λ n h. h }
