-- ===== src/Queue/UpNext.antt =====
-- crates/core/src/queue/edit.rs: the edits of Up Next that name items.
pub mod Rows
pub mod Started
use music_streaming.Base.{
  ℕ, ◌+◌, Bool, true, false, ◌&&◌, Option, none, some, List, [], ◌∷◌, ◌++◌, if◌then◌else◌, leb, ltb,
  ◌==◌,
}
use music_streaming.Queue.Spans.{
  View, Span, new_span, list_len, is_empty, from_spans, slice, remove,
}
use music_streaming.Queue.State.{
  ItemId, Source, Shuffle, Repeat, QueueState, duplicate_key, ok, err, Outcome, has_key,
}
use music_streaming.Queue.Read.{checked_sub, item_at, find_item}
use music_streaming.Queue.Cleanup.{clean_up}
use music_streaming.Queue.ShuffleReads.{play_span, list_spans}
use music_streaming.Queue.History.{record_plays}
use music_streaming.Queue.Anchors.{
  Anchor, Spot, manual_spot, order_spot, resolve, take_out, put, spot,
}

abbrev pub is_nil {ℓ} : {A : Type ℓ} → List A → Bool
is_nil [] = true
is_nil (_ ∷ _) = false

abbrev pub to_manual : Spot → Bool
to_manual (manual_spot index) = true
to_manual (order_spot index) = false

abbrev pub empty_base : Option Shuffle → Option Shuffle
empty_base none = none
empty_base (some shuffle) = if is_empty shuffle.base then some shuffle else none

abbrev pub is_all : Repeat → Bool
is_all Repeat.all = true
is_all _ = false

module _ {F : Type 0} where
  -- `add` where the anchor is found.
  unfoldable pub add_at_spot : QueueState F → Source F → Spot → Outcome F
  add_at_spot s source spot =
      if has_key s source.key
      then (s, err duplicate_key)
      else if source.length == 0
      then (s, ok tt)
      else (
        record (put (record s { sources = s.sources ++ (source ∷ []) }) spot
            (new_span (View.key source.key) 0 source.length ∷ [])) { adjusted = true },
        ok tt,
      )

  unfoldable pub add : QueueState F → Source F → Anchor → Outcome F
  add s source anchor = elim (spot s anchor []) [
    | err e ↦ (s, err e)
    | ok at ↦ add_at_spot s source at
  ]

  unfoldable pub remove_items : QueueState F → List ItemId → QueueState F
  remove_items s items =
      let at = resolve s items in
      if is_nil at then s else clean_up (record ((take_out s at false).0) { adjusted = true })

  -- `move_items` where the anchor is found and something moves.
  unfoldable pub move_rows : QueueState F → List ℕ → Anchor → Spot → Outcome F
  move_rows s at anchor target =
      let (s', taken) = take_out s at (to_manual target) in
      let moved = if to_manual target then list_spans s' taken else taken in
      elim (spot s' anchor []) [
        | err e ↦ (s', err e)
        | ok again ↦ (record (put s' again moved) { adjusted = true }, ok tt)
      ]

  unfoldable pub move_items : QueueState F → List ItemId → Anchor → Outcome F
  move_items s items anchor =
      let at = resolve s items in
      elim (spot s anchor at) [
        | err e ↦ (s, err e)
        | ok target ↦ if is_nil at then (s, ok tt) else move_rows s at anchor target
      ]

  abbrev pub current_plays : QueueState F → List Span
  current_plays s = elim s.current [ none ↦ [] | some item ↦ play_span item ∷ [] ]

  -- Records plays, and cleans up if History dropped runs.
  unfoldable pub record_and_clean : QueueState F → List Span → QueueState F
  record_and_clean s plays =
      let (s', went) = record_plays s plays in if went then clean_up s' else s'

  -- `jump` to the item at an Up Next index.
  unfoldable pub jump_to : QueueState F → ItemId → ℕ → QueueState F
  jump_to s item index = elim (checked_sub index (list_len s.manual)) [
    | none ↦
        let (rest, passed) = remove s.manual 0 index in
        record_and_clean (record s { manual = (remove rest 0 1).0; current = some item })
          (current_plays s ++ passed)
    | some rest ↦
        let (manual, passed) = remove s.manual 0 (list_len s.manual) in
        record_and_clean
          (record s { manual = manual; cursor = s.cursor + (rest + 1); current = some item })
          (current_plays s ++ (passed ++ slice s.order s.cursor (s.cursor + rest)))
  ]

  unfoldable pub jump : QueueState F → ItemId → QueueState F
  jump s item = elim (find_item s item) [ none ↦ s | some index ↦ jump_to s item index ]

  -- `shuffle_next_lap` of shuffle.rs.
  unfoldable pub shuffle_next_lap : QueueState F → QueueState F
  shuffle_next_lap s = elim (empty_base s.shuffle) [
    | none ↦ s
    | some shuffle ↦ record s {
      order = from_spans (new_span View.shuffle 0 (list_len s.order) ∷ []);
      shuffle = some (record shuffle { base = s.order });
    }
  ]

  -- At the end of the context under Repeat All it starts over.
  unfoldable pub restart : QueueState F → QueueState F
  restart s =
      if is_empty s.manual && (leb (list_len s.order) s.cursor && is_all s.repeat)
      then shuffle_next_lap (record s { cursor = 0 })
      else s

  -- The front of the Manual Queue, or else the next context row, becomes current.
  unfoldable pub advance : QueueState F → QueueState F
  advance s =
      if is_empty s.manual
      then if ltb s.cursor (list_len s.order)
        then record s { cursor = s.cursor + 1; current = item_at s s.order s.cursor }
        else record s { current = none }
      else record s { manual = (remove s.manual 0 1).0; current = item_at s s.manual 0 }

  unfoldable pub next : QueueState F → QueueState F
  next s = record_and_clean (advance (restart s)) (current_plays s)
