-- ===== src/Queue/Invariant/Extends.antt =====
-- The table after some statements: every row of before stands at its place, evolved, and new rows
-- follow.
use shadowglass_v35_runtime.Common.{List, [], ◌∷◌, ◌++◌, map}
use shadowglass_v35_runtime.Queue.Row.{Row, Queue}
use shadowglass_v35_runtime.Queue.Invariant.Evolve.{Evolves, Evolves-refl, Evolves-trans}
use shadowglass_v35_runtime.Queue.Invariant.Valid.{IsValid, IsStep}

abbrev pub Extends : List Row → List Row → Type 0
Extends [] after = Unit
Extends (r ∷ rows) [] = ⊥
Extends (r ∷ rows) (s ∷ after) = Evolves r s × Extends rows after

pub Extends-refl : (rows : List Row) → Extends rows rows
Extends-refl [] = tt
Extends-refl (r ∷ rows) = (Evolves-refl r, Extends-refl rows)

pub Extends-trans : (a b c : List Row) → Extends a b → Extends b c → Extends a c
Extends-trans [] b c h k = tt
Extends-trans (r ∷ a) [] c h k = elim h [ ]
Extends-trans (r ∷ a) (s ∷ b) [] h k = elim k [ ]
Extends-trans (r ∷ a) (s ∷ b) (t ∷ c) (h, hs) (k, ks) =
    (Evolves-trans h k, Extends-trans a b c hs ks)

pub Extends-map : (g : Row → Row) → IsStep g → (rows : List Row) → Extends rows (map g rows)
Extends-map g s [] = tt
Extends-map g s (r ∷ rows) = (s.evolves r, Extends-map g s rows)

pub Extends-append : (rows more : List Row) → Extends rows (rows ++ more)
Extends-append [] more = tt
Extends-append (r ∷ rows) more = (Evolves-refl r, Extends-append rows more)

-- An operation keeps the invariant, and evolves and extends the table.
abbrev pub Keeps : Queue → Queue → Type 0
Keeps q q' = IsValid q → IsValid q' × Extends q.rows q'.rows

pub Keeps-refl : (q : Queue) → Keeps q q
Keeps-refl q v = (v, Extends-refl q.rows)

pub Keeps-trans : (a b c : Queue) → Keeps a b → Keeps b c → Keeps a c
Keeps-trans a b c h k v =
    let (w, first) = h v in
    let (u, second) = k w in (u, Extends-trans a.rows b.rows c.rows first second)
