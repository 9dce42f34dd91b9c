-- ===== src/Scraper/Chunks.antt =====
-- scraper.py: `_tyler_chunks`. A date is its ordinal, `date.toordinal()`.
use shadowglass_v35_runtime.Common.{
  ℕ, zero, suc, ◌+◌, ◌-◌, ◌/◌, ◌≤◌, ◌<◌, ◌≡◌, inl, inr, Bool, ◌&&◌, List, [], ◌∷◌, All, count,
  length, leb, ltb, Bool-cases, arith, if◌then◌else◌,
}

-- date(2000, 1, 1)
abbrev pub floor : ℕ
floor = 730_120

-- `max(floor, end - timedelta(days=89))`
abbrev pub start_of : ℕ → ℕ
start_of end = if ltb floor (end - 89) then end - 89 else floor

-- The loop, from its last day; a round takes at least one day off, so the last day plus one is fuel
-- enough.
unfoldable pub chunks_from : ℕ → ℕ → List (ℕ × ℕ)
chunks_from zero end = []
chunks_from (suc fuel) end =
    let rest = chunks_from fuel (start_of end - 1) in
    if leb floor end then (start_of end, end) ∷ rest else []

unfoldable pub tyler_chunks : ℕ → List (ℕ × ℕ)
unfolding chunks_from
tyler_chunks today = chunks_from (suc today) today

-- The day lies in the chunk.
abbrev pub holds : ℕ → ℕ × ℕ → Bool
holds day (start, end) = leb start day && leb day end

chunks_from-count :
    (fuel end day : ℕ)
    → end < fuel
    → count (holds day) (chunks_from fuel end) ≡ (if leb floor day && leb day end then 1 else 0)
unfolding chunks_from
chunks_from-count zero end day h = absurd (omega arith)
chunks_from-count (suc fuel) end day h = elim (Bool-cases (leb floor end)) [
  | inl going ↦ ground (arith, chunks_from-count fuel (start_of end - 1) day)
  | inr over ↦ ground arith
]

chunks_from-length :
    (fuel end : ℕ) → end < fuel → length (chunks_from fuel end) ≡ (end + 1 - floor + 89) / 90
unfolding chunks_from
chunks_from-length zero end h = absurd (omega arith)
chunks_from-length (suc fuel) end h = elim (Bool-cases (leb floor end)) [
  | inl going ↦ ground (arith, chunks_from-length fuel (start_of end - 1))
  | inr over ↦ ground arith
]

-- A chunk is a range of at most ninety days from the floor on.
abbrev pub IsChunk : ℕ × ℕ → Type 0
IsChunk (start, end) = (floor ≤ start) × (start ≤ end) × (end < start + 90)

chunks_from-IsChunk : (fuel end : ℕ) → All IsChunk (chunks_from fuel end)
unfolding chunks_from
chunks_from-IsChunk zero end = tt
chunks_from-IsChunk (suc fuel) end = elim (Bool-cases (leb floor end)) [
  | inl going ↦
      (let ih = chunks_from-IsChunk fuel (start_of end - 1) in rw going (ground arith, ih))
  | inr over ↦ rw over tt
]

-- The date ranges of a Tyler search: each is at most ninety days long; each day from the first of
-- January 2000 to today lies in exactly one of them, and no other day in any; and there is one for
-- every ninety days begun.
pub tyler_chunks-IsPartition :
    (today day : ℕ)
    → All IsChunk (tyler_chunks today)
      × (count (holds day) (tyler_chunks today) ≡ (if leb floor day && leb day today then 1 else 0))
      × (length (tyler_chunks today) ≡ (today + 1 - floor + 89) / 90)
unfolding tyler_chunks
tyler_chunks-IsPartition today day = (
  chunks_from-IsChunk (suc today) today,
  chunks_from-count (suc today) today day (omega arith),
  chunks_from-length (suc today) today (omega arith),
)
