-- ===== src/Queue/Unshuffle.antt =====
-- crates/core/src/queue/shuffle.rs: turning the shuffle on and off.
pub mod TurnedOn
use text.Mathlib.Text.{◌==◌ as str_eq}
use music_streaming.Base.{
  ℕ, zero, suc, ◌+◌, ◌-◌, min, max, String, Bool, true, false, not, Option, none, some, List, [],
  ◌∷◌, ◌++◌, map, if◌then◌else◌, ltb, leb, drop, partition_point, is_some, Option-bind,
}
use music_streaming.Base.Sorting.{sort}
use music_streaming.Queue.Spans.{
  View, Span, SpanList, new_span, from_spans, list_len, find, splice, slice, remove,
}
use music_streaming.Queue.Permutation.{permute, unpermute}
use music_streaming.Queue.State.{Shuffle, QueueState}
use music_streaming.Queue.Cleanup.{clean_up}
use music_streaming.Queue.ShuffleReads.{
  ShuffleRow, is_shuffle, row_of_position, gone_rows, shuffle_rows, sum_len,
}

-- A part of a view that a base holds: first position, count, and base row of the first.
abbrev pub Overlap : Type 0
Overlap = ℕ × ℕ × ℕ

abbrev pub has_view_key : View → String → Bool
has_view_key (View.key k) key = str_eq k key
has_view_key View.shuffle key = false

-- The loop of `base_overlaps` from base row `row` on.
unfoldable pub overlaps_from : ℕ → List Span → String → ℕ → ℕ → List Overlap
overlaps_from row [] key start end = []
overlaps_from row (span ∷ spans) key start end =
    let rest = overlaps_from (row + span.len) spans key start end in
    let from = max span.start start in
    let to = min (span.start + span.len) end in
    if has_view_key span.view key
    then if ltb from to then (from, to - from, row + from - span.start) ∷ rest else rest
    else rest

unfoldable pub base_overlaps : SpanList → String → ℕ → ℕ → List Overlap
base_overlaps base key start end = overlaps_from 0 base.spans key start end

-- The loop of `base_without` from row `at` on.
unfoldable pub without_from : SpanList → ℕ → ℕ → List ℕ → List Span
without_from base to at [] = slice base at to
without_from base to at (row ∷ removed) =
    let rest = without_from base to (row + 1) removed in
    if leb to row then slice base at to else slice base at row ++ rest

unfoldable pub base_without : SpanList → List ℕ → ℕ → ℕ → List Span
base_without base removed from to =
    without_from base to from (drop (partition_point (λ r. ltb r from) removed) removed)

-- A key row still ahead, and whether it stands before the first shuffle row; or the first base row
-- of a shuffle span ahead.
pub data Ahead : Type 0 where
  row_ahead : Span → Bool → Ahead
  base_ahead : ℕ → Ahead

pub record Context : Type 0 where
  pub head : List (ℕ × Span)
  pub passed : List (ℕ × Span)
  pub ahead : List Ahead

abbrev pub clamp : ℕ → ℕ → ℕ → ℕ
clamp x lo hi = if ltb x lo then lo else if ltb hi x then hi else x

-- The loop of `unshuffle` over the context, from row `at` on.
unfoldable pub sort_context : ℕ → ℕ → ℕ → ℕ → Bool → List Span → Context
sort_context seed m cursor at seen [] = record { head = []; passed = []; ahead = [] }
sort_context seed m cursor at seen (span ∷ spans) =
    let end = at + span.len in
    let rest = sort_context seed m cursor end (if is_shuffle span.view then true else seen) spans in
    let cut = clamp cursor at end in
    let part = λ (from to : ℕ). new_span span.view (span.start + from - at) (to - from) in
    let behind : List (ℕ × Span) = if ltb at cut then (at, part at cut) ∷ [] else [] in
    if is_shuffle span.view
    then record rest {
      ahead =
          if ltb cursor end
          then base_ahead (permute seed m (span.start + max cursor at - at)) ∷ rest.ahead
          else rest.ahead;
    }
    else record {
      head = if seen then rest.head else behind ++ rest.head;
      passed = if seen then behind ++ rest.passed else rest.passed;
      ahead = if ltb cut end then row_ahead (part cut end) (not seen) ∷ rest.ahead else rest.ahead;
    }

-- The passed shuffle row that stands last in `order`.
unfoldable pub latest_row : ℕ → Option ShuffleRow → List ShuffleRow → Option ShuffleRow
latest_row cursor best [] = best
latest_row cursor best ((start, n, row) ∷ rows) =
    latest_row cursor (if ltb row cursor then later best else best) rows
  where
    later : Option ShuffleRow → Option ShuffleRow
    later none = some (start, n, row)
    later (some (s, k, r)) = if leb r row then some (start, n, row) else some (s, k, r)

unfoldable pub latest_passed : ℕ → ℕ → ℕ → List ShuffleRow → Option ℕ
latest_passed seed m cursor rows =
    Option-bind (latest_row cursor none rows)
      λ (start, n, row). some (permute seed m (start + min (cursor - row) n - 1))

abbrev pub or_else : Option ℕ → Option ℕ → Option ℕ
or_else (some a) b = some a
or_else none b = b

-- Whether a base row stands after the pivot.
abbrev pub after_pivot : Option ℕ → ℕ → Bool
after_pivot none b = true
after_pivot (some j) b = ltb j b

-- The loop over the positions of an overlap: the passed places, with their rows in `order`, and the
-- base rows left out.
unfoldable pub left_positions :
    ℕ → ℕ → List ShuffleRow → Option ℕ → View → ℕ → ℕ → ℕ → List (ℕ × Span) × List ℕ
left_positions seed m rows pivot view q b zero = ([], [])
left_positions seed m rows pivot view q b (suc n) =
    let (passed, left) = left_positions seed m rows pivot view (suc q) (suc b) n in
    elim (row_of_position rows (unpermute seed m b)) [
      | none ↦ (passed, left)
      | some row ↦
          if after_pivot pivot b
          then ((row, new_span view q 1) ∷ passed, b ∷ left)
          else (passed, left)
    ]

unfoldable pub left_overlaps :
    ℕ → ℕ → List ShuffleRow → Option ℕ → View → List Overlap → List (ℕ × Span) × List ℕ
left_overlaps seed m rows pivot view [] = ([], [])
left_overlaps seed m rows pivot view ((q, n, b) ∷ overlaps) =
    let (passed, left) = left_positions seed m rows pivot view q b n in
    let (more, out) = left_overlaps seed m rows pivot view overlaps in (passed ++ more, left ++ out)

abbrev pub view_overlaps : SpanList → Span → List Overlap
view_overlaps base span = elim span.view [
  | View.shuffle ↦ []
  | View.key k ↦ base_overlaps base k span.start (span.start + span.len)
]

-- The loop over the Manual Queue.
unfoldable pub left_manual :
    SpanList → ℕ → ℕ → List ShuffleRow → Option ℕ → List Span → List (ℕ × Span) × List ℕ
left_manual base seed m rows pivot [] = ([], [])
left_manual base seed m rows pivot (span ∷ spans) =
    let (passed, left) = left_overlaps seed m rows pivot span.view (view_overlaps base span) in
    let (more, out) = left_manual base seed m rows pivot spans in (passed ++ more, left ++ out)

-- `sort_by_key` on the number: stable.
unfoldable pub insert_by_key : ℕ × Span → List (ℕ × Span) → List (ℕ × Span)
insert_by_key (k, x) [] = (k, x) ∷ []
insert_by_key (k, x) ((j, y) ∷ rest) =
    if leb k j then (k, x) ∷ ((j, y) ∷ rest) else (j, y) ∷ insert_by_key (k, x) rest

unfoldable pub sort_by_key : List (ℕ × Span) → List (ℕ × Span)
unfolding insert_by_key
sort_by_key [] = []
sort_by_key (x ∷ rest) = insert_by_key x (sort_by_key rest)

abbrev pub spans_of : List (ℕ × Span) → List Span
spans_of = map (λ (e : ℕ × Span). e.1)

-- The rows ahead from the last to the first: the base row that follows, the additions with their
-- anchors, and those that go last.
unfoldable pub place_ahead : ℕ → List Ahead → Option ℕ × List (ℕ × Span) × List Span
place_ahead split [] = (none, [], [])
place_ahead split (base_ahead b ∷ ahead) =
    let (following, anchored, last) = place_ahead split ahead in (some b, anchored, last)
place_ahead split (row_ahead span true ∷ ahead) =
    let (following, anchored, last) = place_ahead split ahead in
    (following, (split, span) ∷ anchored, last)
place_ahead split (row_ahead span false ∷ ahead) =
    let (following, anchored, last) = place_ahead split ahead in
    elim following [
      | some b ↦ (some b, (max b split, span) ∷ anchored, last)
      | none ↦ (none, anchored, span ∷ last)
    ]

-- The loop that puts the additions among the base rows from `from` on.
unfoldable pub weave : SpanList → List ℕ → ℕ → ℕ → List (ℕ × Span) → List Span
weave base left_out m from [] = base_without base left_out from m
weave base left_out m from ((anchor, span) ∷ anchored) =
    base_without base left_out from anchor ++ (span ∷ weave base left_out m anchor anchored)

module _ {F : Type 0} where
  abbrev pub pivot_of_current : QueueState F → SpanList → Option ℕ
  pivot_of_current s base = Option-bind s.current λ c. find base (View.key c.key) c.pos

  unfoldable pub unshuffled : QueueState F → Shuffle → QueueState F
  unshuffled s shuffle =
      let base = shuffle.base in
      let seed = shuffle.seed in
      let m = list_len base in
      let rows = shuffle_rows s in
      let context = sort_context seed m s.cursor 0 false s.order.spans in
      let pivot = or_else (pivot_of_current s base) (latest_passed seed m s.cursor rows) in
      let (places, left) = left_manual base seed m rows pivot s.manual.spans in
      let left_out = sort (gone_rows rows seed m ++ left) in
      let passed = sort_by_key (context.passed ++ places) in
      let split : ℕ = elim pivot [ none ↦ 0 | some j ↦ j + 1 ] in
      let behind =
        spans_of context.head ++ (base_without base left_out 0 split ++ spans_of passed) in
      let (following, anchored, last) = place_ahead split context.ahead in
      let up_next = from_spans (weave base left_out m split (sort_by_key anchored) ++ last) in
      record s {
        order = from_spans (behind ++ up_next.spans);
        cursor = sum_len behind;
        shuffle = none;
      }

  unfoldable pub unshuffle : QueueState F → QueueState F
  unshuffle s = elim s.shuffle [ none ↦ s | some shuffle ↦ clean_up (unshuffled s shuffle) ]

  -- Turning the shuffle on freezes the unplayed context as its base.
  unfoldable pub shuffle_on : QueueState F → ℕ → QueueState F
  shuffle_on s seed =
      let (order, unplayed) = remove s.order s.cursor (list_len s.order) in
      let base = from_spans unplayed in
      record s {
        order = splice order (list_len order) (new_span View.shuffle 0 (list_len base) ∷ []);
        shuffle = some (record { seed = seed; base = base });
      }

  unfoldable pub set_shuffle : QueueState F → Bool → ℕ → QueueState F
  set_shuffle s true seed = if is_some s.shuffle then s else shuffle_on s seed
  set_shuffle s false seed = if is_some s.shuffle then unshuffle s else s
