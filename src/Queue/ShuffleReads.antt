-- ===== src/Queue/ShuffleReads.antt =====
-- crates/core/src/queue/shuffle.rs: what the rows of the shuffle play, and where its positions stand.
use music_streaming.Base.{
  ℕ, zero, suc, ◌+◌, ◌-◌, String, Bool, true, false, ◌&&◌, Option, none, some, List, [], ◌∷◌, ◌++◌,
  map, reverse, if◌then◌else◌, ltb, leb, ◌==◌, length, get_elem?, partition_point, any, is_some,
  Option-bind,
}
use music_streaming.Base.Sorting.{sort}
use music_streaming.Queue.Spans.{View, Span, new_span, view_eq, from_spans, list_len}
use music_streaming.Queue.Spans.Sorted.{find_sorted}
use music_streaming.Base.Positions.{range_from}
use music_streaming.Queue.Permutation.{permute, unpermute}
use music_streaming.Queue.State.{ItemId, QueueState}
use music_streaming.Queue.Read.{item_of, checked_sub}

abbrev pub history_runs : ℕ
history_runs = 1_000

-- `play_span` of history.rs.
abbrev pub play_span : ItemId → Span
play_span item = new_span (View.key item.key) item.pos 1

abbrev pub is_shuffle : View → Bool
is_shuffle (View.key k) = false
is_shuffle View.shuffle = true

-- Where a span of the shuffle sits in `order`: first shuffle position, length and row.
abbrev pub ShuffleRow : Type 0
ShuffleRow = ℕ × ℕ × ℕ

-- The order of the triples.
abbrev pub shuffle_row_le : ShuffleRow → ShuffleRow → Bool
shuffle_row_le (s, n, r) (s', n', r') =
    if ltb s s'
    then true
    else if ltb s' s
    then false
    else if ltb n n'
    then true
    else if ltb n' n
    then false
    else leb r r'

unfoldable pub insert_row : ShuffleRow → List ShuffleRow → List ShuffleRow
insert_row x [] = x ∷ []
insert_row x (y ∷ rows) = if shuffle_row_le x y then x ∷ (y ∷ rows) else y ∷ insert_row x rows

unfoldable pub sort_rows : List ShuffleRow → List ShuffleRow
unfolding insert_row
sort_rows [] = []
sort_rows (x ∷ rows) = insert_row x (sort_rows rows)

unfoldable pub row_of_position : List ShuffleRow → ℕ → Option ℕ
row_of_position rows p =
    Option-bind (checked_sub (partition_point (λ (r : ShuffleRow). leb r.0 p) rows) 1) λ i.
      Option-bind (get_elem? rows i)
        λ (start, n, row). if ltb p (start + n) then some (row + (p - start)) else none

-- The loop of `shuffle_rows` from row `row` on.
unfoldable pub shuffle_rows_from : ℕ → List Span → List ShuffleRow
shuffle_rows_from row [] = []
shuffle_rows_from row (span ∷ spans) =
    let rest = shuffle_rows_from (row + span.len) spans in
    if is_shuffle span.view then (span.start, span.len, row) ∷ rest else rest

-- The loop of `gone_rows` from shuffle position `at` on.
unfoldable pub gone_from : ℕ → ℕ → ℕ → List ShuffleRow → List ℕ
gone_from seed m at [] = map (permute seed m) (range_from at (m - at))
gone_from seed m at ((start, n, row) ∷ rows) =
    map (permute seed m) (range_from at (start - at)) ++ gone_from seed m (start + n) rows

unfoldable pub gone_rows : List ShuffleRow → ℕ → ℕ → List ℕ
gone_rows rows seed m = sort (gone_from seed m 0 rows)

-- `push` of `played`: an older play merges into the newer run that it continues. The head of the
-- list is the last element of the vector.
unfoldable pub push_play : Span → List Span → List Span
push_play piece [] = piece ∷ []
push_play piece (next ∷ newest) =
    if view_eq next.view piece.view && (piece.start + piece.len == next.start)
    then record next { start = piece.start; len = next.len + piece.len } ∷ newest
    else piece ∷ (next ∷ newest)

abbrev pub is_full : List Span → Bool
is_full newest = ltb history_runs (length newest)

unfoldable pub sum_len : List Span → ℕ
sum_len [] = 0
sum_len (s ∷ spans) = s.len + sum_len spans

-- For each item its row, or its base row's through the shuffle.
abbrev pub row_or_shuffled : List ShuffleRow → ℕ → ℕ → Option ℕ → Option ℕ → Option ℕ
row_or_shuffled rows seed m (some row) base = some row
row_or_shuffled rows seed m none base =
    Option-bind base λ b. row_of_position rows (unpermute seed m b)

unfoldable pub rows_or_shuffled :
    List ShuffleRow → ℕ → ℕ → List (Option ℕ) → List (Option ℕ) → List (Option ℕ)
rows_or_shuffled rows seed m [] bases = []
rows_or_shuffled rows seed m (row ∷ found) [] = row ∷ found
rows_or_shuffled rows seed m (row ∷ found) (base ∷ bases) =
    row_or_shuffled rows seed m row base ∷ rows_or_shuffled rows seed m found bases

module _ {F : Type 0} where
  unfoldable pub shuffle_rows : QueueState F → List ShuffleRow
  shuffle_rows s = sort_rows (shuffle_rows_from 0 s.order.spans)

  -- The plays of `len` rows of the shuffle from `start`, in order.
  unfoldable pub shuffled_plays : QueueState F → ℕ → ℕ → List Span
  shuffled_plays s start zero = []
  shuffled_plays s start (suc n) =
      let rest = shuffled_plays s (suc start) n in
      elim (item_of s View.shuffle start) [ none ↦ rest | some item ↦ play_span item ∷ rest ]

  abbrev pub listed : QueueState F → Span → List Span
  listed s span = if is_shuffle span.view then shuffled_plays s span.start span.len else span ∷ []

  unfoldable pub list_each : QueueState F → List Span → List Span
  list_each s [] = []
  list_each s (span ∷ spans) = listed s span ++ list_each s spans

  unfoldable pub list_spans : QueueState F → List Span → List Span
  list_spans s spans = (from_spans (list_each s spans)).spans

  -- The rows of a shuffle span, last to first, until History is full.
  unfoldable pub push_shuffled : QueueState F → ℕ → ℕ → List Span → List Span × Bool
  push_shuffled s start zero newest = (newest, false)
  push_shuffled s start (suc n) newest =
      let pushed : List Span = elim (item_of s View.shuffle (start + n)) [
        | none ↦ newest
        | some item ↦ push_play (play_span item) newest
      ] in
      let played = is_some (item_of s View.shuffle (start + n)) in
      let rest = push_shuffled s start n pushed in
      if played && is_full pushed then (pushed, true) else rest

  abbrev pub push_span : QueueState F → Span → List Span → List Span × Bool
  push_span s span newest =
      if is_shuffle span.view
      then push_shuffled s span.start span.len newest
      else (push_play span newest, is_full (push_play span newest))

  -- The spans last to first, until History is full.
  unfoldable pub push_spans : QueueState F → List Span → List Span → List Span
  push_spans s [] newest = newest
  push_spans s (span ∷ spans) newest =
      let (pushed, full) = push_span s span newest in
      let rest = push_spans s spans pushed in if full then pushed else rest

  -- How many plays come before those kept, and the kept ones.
  unfoldable pub played : QueueState F → List Span → ℕ × List Span
  played s spans =
      if any (λ (x : Span). is_shuffle x.view) spans
      then (
        sum_len spans - sum_len (push_spans s (reverse spans) []),
        push_spans s (reverse spans) [],
      )
      else (0, spans)

  -- `order_rows_of`, with the rows found in `order` and those found in the base.
  unfoldable pub order_rows_of : QueueState F → List (String × ℕ) → List (Option ℕ)
  order_rows_of s items = elim s.shuffle [
    | none ↦ find_sorted s.order items
    | some shuffle ↦
        rows_or_shuffled (shuffle_rows s) shuffle.seed (list_len shuffle.base)
          (find_sorted s.order items) (find_sorted shuffle.base items)
  ]
