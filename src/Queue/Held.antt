-- ===== src/Queue/Held.antt =====
-- crates/core/src/queue/shuffle.rs, `shuffle_held_by`: which positions are in Up Next through the
-- shuffle, by either strategy.
use music_streaming.Base.{
  ℕ, zero, suc, ◌+◌, ◌-◌, min, String, Bool, false, Option, none, some, List, [], ◌∷◌, ◌++◌, map,
  if◌then◌else◌, ltb, leb, drop, partition_point,
}
use music_streaming.Base.Sorting.{sort}
use music_streaming.Queue.Spans.{SpanList, list_len}
use music_streaming.Base.Positions.{range_from}
use music_streaming.Queue.Permutation.{permute, unpermute}
use music_streaming.Queue.State.{QueueState}
use music_streaming.Queue.ShuffleReads.{ShuffleRow, row_of_position, gone_rows, shuffle_rows}
use music_streaming.Queue.Unshuffle.{Overlap, base_overlaps}

-- Positions of a view: its key, the first and the end.
abbrev pub Range : Type 0
Range = String × ℕ × ℕ

-- The part of a base that a range covers.
abbrev pub Covered : Type 0
Covered = String × ℕ × ℕ × ℕ

unfoldable pub covered_by : SpanList → List Range → List Covered
covered_by base [] = []
covered_by base ((key, start, end) ∷ ranges) =
    map (λ (o : Overlap). (key, o.0, o.1, o.2)) (base_overlaps base key start end)
    ++ covered_by base ranges

unfoldable pub sum_counts : List Covered → ℕ
sum_counts [] = 0
sum_counts ((key, q, n, b) ∷ overlaps) = n + sum_counts overlaps

unfoldable pub sum_lengths : List ShuffleRow → ℕ
sum_lengths [] = 0
sum_lengths ((start, n, row) ∷ rows) = n + sum_lengths rows

unfoldable pub sum_passed : ℕ → List ShuffleRow → ℕ
sum_passed from [] = 0
sum_passed from ((start, n, row) ∷ rows) = min (from - row) n + sum_passed from rows

-- Whether base row `b` is read by a row at `from` or after.
abbrev pub is_held : List ShuffleRow → ℕ → ℕ → ℕ → ℕ → Bool
is_held rows seed m from b = elim (row_of_position rows (unpermute seed m b)) [
  | none ↦ false
  | some row ↦ leb from row
]

-- The loop over the positions of an overlap, `left` of them from the `i`th on: `open` is the first of
-- the stretch held so far.
unfoldable pub held_positions :
    List ShuffleRow → ℕ → ℕ → ℕ → Covered → Option ℕ → ℕ → ℕ → List Range
held_positions rows seed m from (key, q, n, b) none i zero = []
held_positions rows seed m from (key, q, n, b) (some first) i zero = (key, q + first, q + i) ∷ []
held_positions rows seed m from (key, q, n, b) none i (suc left) =
    held_positions rows seed m from (key, q, n, b)
      (if is_held rows seed m from (b + i) then some i else none) (suc i) left
held_positions rows seed m from (key, q, n, b) (some first) i (suc left) =
    let longer = held_positions rows seed m from (key, q, n, b) (some first) (suc i) left in
    let closed = held_positions rows seed m from (key, q, n, b) none (suc i) left in
    if is_held rows seed m from (b + i) then longer else (key, q + first, q + i) ∷ closed

unfoldable pub looked_up : List ShuffleRow → ℕ → ℕ → ℕ → List Covered → List Range
looked_up rows seed m from [] = []
looked_up rows seed m from ((key, q, n, b) ∷ overlaps) =
    held_positions rows seed m from (key, q, n, b) none 0 n ++ looked_up rows seed m from overlaps

-- The base rows of the passed shuffle rows.
unfoldable pub passed_base : ℕ → ℕ → ℕ → List ShuffleRow → List ℕ
passed_base seed m from [] = []
passed_base seed m from ((start, n, row) ∷ rows) =
    map (permute seed m) (range_from start (min (from - row) n)) ++ passed_base seed m from rows

-- The loop over the base rows that are not held, for the base rows from `at` on of an overlap.
unfoldable pub held_between : Covered → ℕ → List ℕ → List Range
held_between (key, q, n, b) at [] = if ltb at (b + n) then (key, q + at - b, q + n) ∷ [] else []
held_between (key, q, n, b) at (gap ∷ unheld) =
    let rest = held_between (key, q, n, b) (gap + 1) unheld in
    let last : List Range = if ltb at (b + n) then (key, q + at - b, q + n) ∷ [] else [] in
    if leb (b + n) gap
    then last
    else if ltb at gap
    then (key, q + at - b, q + gap - b) ∷ rest
    else rest

unfoldable pub subtracted : List ℕ → List Covered → List Range
subtracted unheld [] = []
subtracted unheld ((key, q, n, b) ∷ overlaps) =
    held_between (key, q, n, b) b (drop (partition_point (λ u. ltb u b) unheld) unheld)
    ++ subtracted unheld overlaps

-- The two strategies, with the choice between them.
unfoldable pub held_ranges : List ShuffleRow → ℕ → ℕ → ℕ → List Covered → Option Bool → List Range
held_ranges rows seed m from overlaps lookup =
    let cheaper = leb (sum_counts overlaps) (m - sum_lengths rows + sum_passed from rows) in
    let chosen : Bool = elim lookup [ none ↦ cheaper | some c ↦ c ] in
    if chosen
    then looked_up rows seed m from overlaps
    else subtracted (sort (gone_rows rows seed m ++ passed_base seed m from rows)) overlaps

module _ {F : Type 0} where
  unfoldable pub shuffle_held_by : QueueState F → ℕ → List Range → Option Bool → List Range
  shuffle_held_by s from ranges lookup = elim s.shuffle [
    | none ↦ []
    | some shuffle ↦
        held_ranges (shuffle_rows s) shuffle.seed (list_len shuffle.base) from
          (covered_by shuffle.base ranges) lookup
  ]

  unfoldable pub shuffle_held : QueueState F → ℕ → List Range → List Range
  shuffle_held s from ranges = shuffle_held_by s from ranges none
