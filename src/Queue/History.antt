-- ===== src/Queue/History.antt =====
-- crates/core/src/queue/history.rs: plays recorded as runs, read newest first, removed and re-queued.
pub mod Record
use text.Mathlib.Text.{◌==◌ as str_eq}
use music_streaming.Base.{
  ℕ, suc, ◌+◌, ◌-◌, String, Bool, true, false, ◌&&◌, Option, none, some, List, [], ◌∷◌, ◌++◌,
  reverse, if◌then◌else◌, ltb, leb, ◌==◌, length, get_elem?, take, drop, splice as list_splice,
  retain, partition_point, Option-bind,
}
use music_streaming.Queue.Spans.{View, Span, new_span, view_eq, from_spans, splice, slice}
use music_streaming.Queue.State.{
  ItemId, Run, QueueState, duplicate_key, ok, err, Outcome, copy_of, has_key,
}
use music_streaming.Queue.Read.{Row, row_of}
use music_streaming.Queue.Cleanup.{clean_up}
use music_streaming.Queue.ShuffleReads.{history_runs, played}

pub record PlayRow : Type 0 where
  pub play : ℕ
  pub row : Row

-- `PlayRef` of edit.rs.
pub record PlayRef : Type 0 where
  pub play : ℕ
  pub item : ItemId

-- Whether play `first` of `span` extends a run.
abbrev pub extends_run : Run → ℕ → Span → Bool
extends_run run first span =
    (run.first + run.span.len == first)
    && (view_eq run.span.view span.view && (run.span.start + run.span.len == span.start))

abbrev pub grown : Run → ℕ → Run
grown run n = record { first = run.first; span = record (run.span) { len = run.span.len + n } }

-- One step of the loop of `record_plays`: the last run grows, or a run is pushed.
unfoldable pub push_run : List Run → ℕ → Span → List Run
push_run [] first span = record { first = first; span = span } ∷ []
push_run (run ∷ []) first span =
    if extends_run run first span
    then grown run span.len ∷ []
    else run ∷ (record { first = first; span = span } ∷ [])
push_run (run ∷ (next ∷ history)) first span = run ∷ push_run (next ∷ history) first span

-- The loop of `record_plays`: the runs and the number of the next play.
unfoldable pub push_runs : List Run → ℕ → List Span → List Run × ℕ
push_runs history next [] = (history, next)
push_runs history next (span ∷ spans) =
    push_runs (push_run history next span) (next + span.len) spans

-- `trim_history`: the newest runs, and whether any went.
unfoldable pub trim : List Run → List Run × Bool
trim history = let excess = length history - history_runs in (drop excess history, ltb 0 excess)

unfoldable pub count_plays : List Run → ℕ
count_plays [] = 0
count_plays (run ∷ history) = run.span.len + count_plays history

-- `Vec::remove` of run `i`, the head and tail of it put back unless empty.
unfoldable pub cut_run : List Run → ℕ → ℕ → List Run
cut_run history i offset = elim (get_elem? history i) [
  | none ↦ history
  | some run ↦
      let after = offset + 1 in
      let tail : Run = record {
        first = run.first + after;
        span = new_span run.span.view (run.span.start + after) (run.span.len - after);
      } in
      let head : Run = record { first = run.first; span = record (run.span) { len = offset } } in
      let kept = retain (λ (r : Run). ltb 0 r.span.len) (head ∷ (tail ∷ [])) in
      list_splice (take i history ++ drop (suc i) history) i kept
]

-- Whether position `position` of a view is `item`.
abbrev pub is_play_of : ItemId → View → ℕ → Bool
is_play_of item View.shuffle position = false
is_play_of item (View.key k) position = str_eq item.key k && (item.pos == position)

module _ {F : Type 0} where
  unfoldable pub source_range : QueueState F → String → ℕ → ℕ → List Span
  source_range s key start len = elim (copy_of s key) [
    | some copy ↦ slice copy.of start (start + len)
    | none ↦ new_span (View.key key) start len ∷ []
  ]

  unfoldable pub source_spans : QueueState F → ItemId → List Span
  source_spans s item = source_range s item.key item.pos 1

  unfoldable pub trim_history : QueueState F → QueueState F × Bool
  trim_history s = let (history, went) = trim s.history in (record s { history = history }, went)

  unfoldable pub record_plays : QueueState F → List Span → QueueState F × Bool
  record_plays s spans =
      let (skipped, kept) = played s spans in
      let (history, next) = push_runs s.history (s.next_play + skipped) kept in
      trim_history (record s { history = history; next_play = next })

  unfoldable pub history_len : QueueState F → ℕ
  history_len s = count_plays s.history

  -- The row of a play of a run, `offset` plays from its first.
  abbrev pub play_row : QueueState F → Run → View → ℕ → Option PlayRow
  play_row s run View.shuffle offset = none
  play_row s run (View.key k) offset =
      Option-bind (row_of s k (run.span.start + offset))
        λ row. some (record { play = run.first + offset; row = row })

  -- The loop of `history_row`, newest run first.
  unfoldable pub history_row_from : QueueState F → List Run → ℕ → Option PlayRow
  history_row_from s [] skip = none
  history_row_from s (run ∷ runs) skip =
      let older = history_row_from s runs (skip - run.span.len) in
      if ltb skip run.span.len
      then play_row s run run.span.view (run.span.len - 1 - skip)
      else older

  unfoldable pub history_row : QueueState F → ℕ → Option PlayRow
  history_row s index = history_row_from s (reverse s.history) index

  unfoldable pub find_play : QueueState F → ℕ → Option (ℕ × ℕ)
  find_play s play =
      let i = partition_point (λ (run : Run). leb (run.first + run.span.len) play) s.history in
      Option-bind (get_elem? s.history i)
        λ run. if leb run.first play then some (i, play - run.first) else none

  unfoldable pub match_play : QueueState F → PlayRef → Option (ℕ × ℕ)
  match_play s play = Option-bind (find_play s play.play) λ (i, offset).
      Option-bind (get_elem? s.history i) λ run.
        if is_play_of play.item run.span.view (run.span.start + offset)
        then some (i, offset)
        else none

  unfoldable pub take_play : QueueState F → ℕ → ℕ → QueueState F
  take_play s i offset = (trim_history (record s { history = cut_run s.history i offset })).0

  -- The loop of `remove_plays`, with whether any play went.
  unfoldable pub take_plays : QueueState F → List PlayRef → Bool → QueueState F × Bool
  take_plays s [] any_went = (s, any_went)
  take_plays s (play ∷ plays) any_went =
      let (s', went) : QueueState F × Bool = elim (match_play s play) [
        | none ↦ (s, any_went)
        | some (i, offset) ↦ (take_play s i offset, true)
      ] in
      take_plays s' plays went

  unfoldable pub remove_plays : QueueState F → List PlayRef → QueueState F
  remove_plays s plays =
      let (s', any_went) = take_plays s plays false in
      if any_went then clean_up (record s' { adjusted = true }) else s'

  -- `requeue` where the play is found and the key is new.
  unfoldable pub requeue_play : QueueState F → PlayRef → String → ℕ → ℕ → QueueState F
  requeue_play s play key i offset =
      let of = source_spans s play.item in
      let s' = take_play s i offset in
      clean_up (record s' {
        copies = s'.copies ++ (record { key = key; of = from_spans of } ∷ []);
        manual = splice s'.manual 0 (new_span (View.key key) 0 1 ∷ []);
        adjusted = true;
      })

  unfoldable pub requeue : QueueState F → PlayRef → String → Outcome F
  requeue s play key = elim (match_play s play) [
    | none ↦ (s, ok tt)
    | some (i, offset) ↦
        if has_key s key then (s, err duplicate_key) else (requeue_play s play key i offset, ok tt)
  ]
