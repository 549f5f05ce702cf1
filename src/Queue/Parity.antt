-- ===== src/Queue/Parity.antt =====
-- crates/core/src/queue/parity.json: the start and the sequence of edits that the native and the web
-- build are held to, run on the model.
use music_streaming.Base.{
  ℕ, ◌≡◌, refl, String, Bool, true, false, Option, none, some, List, [], ◌∷◌, arith,
}
use music_streaming.Queue.Spans.{View, Span, SpanList, new_span, empty, from_spans}
use music_streaming.Queue.State.{
  ItemId, Source, QueueCopy, Repeat, QueueState, Result, ok, err, Outcome, start,
}
use music_streaming.Queue.History.{PlayRef}
use music_streaming.Queue.Anchors.{manual_start, manual_end, context_end}
use music_streaming.Queue.Edit.{
  Edit, apply, add_edit, remove_edit, move_edit, jump_edit, next_edit, remove_plays_edit,
  requeue_edit, previous_edit, rewind_edit, shuffle_edit, repeat_edit,
}

-- No filters are needed.
abbrev pub NoFilters : Type 0
NoFilters = Unit {0}

abbrev pub queued_source : String → ℕ → Source NoFilters
queued_source key length = record {
  key = key;
  library_id = "lib";
  hash = none;
  length = length;
  recipe = none;
  tracks = none;
}

abbrev pub item : String → ℕ → ItemId
item key pos = record { key = key; pos = pos }

abbrev pub span : String → ℕ → ℕ → Span
span key start len = new_span (View.key key) start len

abbrev pub listed : List Span → List ℕ → SpanList
listed spans ends = record { spans = spans; ends = ends }

abbrev pub nothing : QueueState NoFilters
nothing = record {
  sources = [];
  copies = [];
  manual = empty;
  order = empty;
  cursor = 0;
  current = none;
  history = [];
  next_play = 0;
  shuffle = none;
  repeat = Repeat.off;
  adjusted = false;
}

abbrev pub initial : QueueState NoFilters
initial = record nothing {
  sources = queued_source "a" 8 ∷ [];
  order = listed (span "a" 0 8 ∷ []) (8 ∷ []);
  cursor = 2;
  current = some (item "a" 1);
}

abbrev pub edits : List (Edit NoFilters)
edits =
    add_edit (record (queued_source "b" 4) { hash = some "hb" }) manual_end
    ∷ shuffle_edit true 42
    ∷ next_edit
    ∷ next_edit
    ∷ add_edit (queued_source "c" 3) manual_start
    ∷ next_edit
    ∷ previous_edit "p1"
    ∷ move_edit (item "a" 2 ∷ []) context_end
    ∷ repeat_edit Repeat.all
    ∷ next_edit
    ∷ next_edit
    ∷ requeue_edit (record { play = 0; item = item "a" 1 }) "r1"
    ∷ remove_edit (item "a" 7 ∷ [])
    ∷ jump_edit (item "c" 2)
    ∷ shuffle_edit false 0
    ∷ rewind_edit (record { play = 3; item = item "b" 1 }) "w1"
    ∷ remove_plays_edit (record { play = 1; item = item "b" 0 } ∷ [])
    ∷ []

abbrev pub final : QueueState NoFilters
final = record {
  sources =
      queued_source "a" 8
      ∷ record (queued_source "b" 4) { hash = some "hb" }
      ∷ queued_source "c" 3
      ∷ [];
  copies = record { key = "r1"; of = listed (span "a" 1 1 ∷ []) (1 ∷ []) } ∷ [];
  manual =
      listed (span "c" 0 2 ∷ span "r1" 0 1 ∷ span "c" 2 1 ∷ span "b" 2 2 ∷ []) (2 ∷ 3 ∷ 4 ∷ 6 ∷ []);
  order = listed (span "a" 0 7 ∷ []) (7 ∷ []);
  cursor = 2;
  current = some (item "b" 1);
  history = [];
  next_play = 7;
  shuffle = none;
  repeat = Repeat.all;
  adjusted = true;
}

-- Every edit in turn, each accepted.
unfoldable pub apply_all :
    QueueState NoFilters → List (Edit NoFilters) → Option (QueueState NoFilters)
apply_all s [] = some s
apply_all s (edit ∷ rest) =
    let (s', result) = apply s edit in
    let applied = apply_all s' rest in elim result [ ok _ ↦ applied | err _ ↦ none ]

-- The edits end where parity.json says.
parity : apply_all initial edits ≡ some final
unfolding apply_all music_streaming.Base.Sorting.sort music_streaming.Queue.Anchors.dedup
    music_streaming.Queue.Anchors.indices_of music_streaming.Queue.Anchors.insert_item
    music_streaming.Queue.Anchors.items_in music_streaming.Queue.Anchors.passed_of
    music_streaming.Queue.Anchors.passed_rows music_streaming.Queue.Anchors.put
    music_streaming.Queue.Anchors.resolve music_streaming.Queue.Anchors.sort_items
    music_streaming.Queue.Anchors.spot music_streaming.Queue.Anchors.take_out
    music_streaming.Queue.Cleanup.clean_up music_streaming.Queue.Cleanup.copy_keys
    music_streaming.Queue.Cleanup.keys_of music_streaming.Queue.Cleanup.run_keys
    music_streaming.Queue.Cleanup.used_keys music_streaming.Queue.Edit.apply
    music_streaming.Queue.Held.covered_by music_streaming.Queue.Held.held_between
    music_streaming.Queue.Held.held_positions music_streaming.Queue.Held.held_ranges
    music_streaming.Queue.Held.looked_up music_streaming.Queue.Held.passed_base
    music_streaming.Queue.Held.shuffle_held music_streaming.Queue.Held.shuffle_held_by
    music_streaming.Queue.Held.subtracted music_streaming.Queue.Held.sum_counts
    music_streaming.Queue.Held.sum_lengths music_streaming.Queue.Held.sum_passed
    music_streaming.Queue.History.count_plays music_streaming.Queue.History.cut_run
    music_streaming.Queue.History.find_play music_streaming.Queue.History.history_len
    music_streaming.Queue.History.history_row music_streaming.Queue.History.history_row_from
    music_streaming.Queue.History.match_play music_streaming.Queue.History.push_run
    music_streaming.Queue.History.push_runs music_streaming.Queue.History.record_plays
    music_streaming.Queue.History.remove_plays music_streaming.Queue.History.requeue
    music_streaming.Queue.History.requeue_play music_streaming.Queue.History.source_range
    music_streaming.Queue.History.source_spans music_streaming.Queue.History.take_play
    music_streaming.Queue.History.take_plays music_streaming.Queue.History.trim
    music_streaming.Queue.History.trim_history music_streaming.Queue.Permutation.apply_rounds
    music_streaming.Queue.Permutation.bit_length music_streaming.Queue.Permutation.coin
    music_streaming.Queue.Permutation.leading_zeros music_streaming.Queue.Permutation.mix
    music_streaming.Queue.Permutation.partner_of music_streaming.Queue.Permutation.permute
    music_streaming.Queue.Permutation.permute_with music_streaming.Queue.Permutation.pivot_of
    music_streaming.Queue.Permutation.round music_streaming.Queue.Permutation.rounds
    music_streaming.Queue.Permutation.splitmix music_streaming.Queue.Permutation.unpermute
    music_streaming.Queue.Permutation.unpermute_with music_streaming.Queue.Pieces.heard_from
    music_streaming.Queue.Pieces.hold music_streaming.Queue.Pieces.hold_pieces
    music_streaming.Queue.Pieces.hold_ranges music_streaming.Queue.Pieces.hold_spans
    music_streaming.Queue.Pieces.insert_range music_streaming.Queue.Pieces.merge_ranges
    music_streaming.Queue.Pieces.positions_of music_streaming.Queue.Pieces.sort_ranges
    music_streaming.Queue.Pieces.split_all music_streaming.Queue.Pieces.split_from
    music_streaming.Queue.Pieces.split_held music_streaming.Queue.Previous.just_passed
    music_streaming.Queue.Previous.play_again music_streaming.Queue.Previous.pop_play
    music_streaming.Queue.Previous.previous music_streaming.Queue.Previous.put_back
    music_streaming.Queue.Previous.step_back music_streaming.Queue.Read.context_row
    music_streaming.Queue.Read.current_row music_streaming.Queue.Read.find_item
    music_streaming.Queue.Read.holds_item music_streaming.Queue.Read.item_at
    music_streaming.Queue.Read.item_of music_streaming.Queue.Read.order_row_of
    music_streaming.Queue.Read.playing_manual music_streaming.Queue.Read.row_in
    music_streaming.Queue.Read.row_of music_streaming.Queue.Read.shuffled_row_of
    music_streaming.Queue.Read.source_row music_streaming.Queue.Read.up_next_len
    music_streaming.Queue.Read.up_next_row music_streaming.Queue.Rewind.back_step
    music_streaming.Queue.Rewind.build music_streaming.Queue.Rewind.cut_history
    music_streaming.Queue.Rewind.held_after music_streaming.Queue.Rewind.match_back
    music_streaming.Queue.Rewind.rewind music_streaming.Queue.Rewind.rewind_to
    music_streaming.Queue.Rewind.rewound music_streaming.Queue.Rewind.walk
    music_streaming.Queue.Rewind.walk_back music_streaming.Queue.Rewind.walk_current
    music_streaming.Queue.Rewind.walk_heard music_streaming.Queue.ShuffleReads.gone_from
    music_streaming.Queue.ShuffleReads.gone_rows music_streaming.Queue.ShuffleReads.insert_row
    music_streaming.Queue.ShuffleReads.list_each music_streaming.Queue.ShuffleReads.list_spans
    music_streaming.Queue.ShuffleReads.order_rows_of music_streaming.Queue.ShuffleReads.played
    music_streaming.Queue.ShuffleReads.push_play music_streaming.Queue.ShuffleReads.push_shuffled
    music_streaming.Queue.ShuffleReads.push_spans music_streaming.Queue.ShuffleReads.row_of_position
    music_streaming.Queue.ShuffleReads.rows_or_shuffled
    music_streaming.Queue.ShuffleReads.shuffle_rows
    music_streaming.Queue.ShuffleReads.shuffle_rows_from
    music_streaming.Queue.ShuffleReads.shuffled_plays music_streaming.Queue.ShuffleReads.sort_rows
    music_streaming.Queue.ShuffleReads.sum_len music_streaming.Queue.Spans.RemoveRows.cut_span
    music_streaming.Queue.Spans.RemoveRows.cut_spans
    music_streaming.Queue.Spans.RemoveRows.remove_rows music_streaming.Queue.Spans.Sorted.fill_rows
    music_streaming.Queue.Spans.Sorted.find_sorted
    music_streaming.Queue.Spans.Sorted.find_sorted_from music_streaming.Queue.Spans.find
    music_streaming.Queue.Spans.from_spans music_streaming.Queue.Spans.get
    music_streaming.Queue.Spans.is_empty music_streaming.Queue.Spans.list_len
    music_streaming.Queue.Spans.locate music_streaming.Queue.Spans.merge_all
    music_streaming.Queue.Spans.merge_last music_streaming.Queue.Spans.normalize
    music_streaming.Queue.Spans.remove music_streaming.Queue.Spans.remove_between
    music_streaming.Queue.Spans.slice music_streaming.Queue.Spans.slice_from
    music_streaming.Queue.Spans.slice_upto music_streaming.Queue.Spans.splice
    music_streaming.Queue.Spans.split_at music_streaming.Queue.Spans.split_span
    music_streaming.Queue.Spans.start_of music_streaming.Queue.State.attach_each
    music_streaming.Queue.State.attach_hash music_streaming.Queue.State.attach_list
    music_streaming.Queue.State.copy_of music_streaming.Queue.State.has_key
    music_streaming.Queue.State.hashes_from music_streaming.Queue.State.list_hashes
    music_streaming.Queue.State.new_source music_streaming.Queue.State.source
    music_streaming.Queue.State.start music_streaming.Queue.State.started
    music_streaming.Queue.State.update_source music_streaming.Queue.Unshuffle.base_overlaps
    music_streaming.Queue.Unshuffle.base_without music_streaming.Queue.Unshuffle.insert_by_key
    music_streaming.Queue.Unshuffle.latest_passed music_streaming.Queue.Unshuffle.latest_row
    music_streaming.Queue.Unshuffle.left_manual music_streaming.Queue.Unshuffle.left_overlaps
    music_streaming.Queue.Unshuffle.left_positions music_streaming.Queue.Unshuffle.overlaps_from
    music_streaming.Queue.Unshuffle.place_ahead music_streaming.Queue.Unshuffle.set_shuffle
    music_streaming.Queue.Unshuffle.shuffle_on music_streaming.Queue.Unshuffle.sort_by_key
    music_streaming.Queue.Unshuffle.sort_context music_streaming.Queue.Unshuffle.unshuffle
    music_streaming.Queue.Unshuffle.unshuffled music_streaming.Queue.Unshuffle.weave
    music_streaming.Queue.Unshuffle.without_from music_streaming.Queue.UpNext.add
    music_streaming.Queue.UpNext.add_at_spot music_streaming.Queue.UpNext.advance
    music_streaming.Queue.UpNext.jump music_streaming.Queue.UpNext.jump_to
    music_streaming.Queue.UpNext.move_items music_streaming.Queue.UpNext.move_rows
    music_streaming.Queue.UpNext.next music_streaming.Queue.UpNext.record_and_clean
    music_streaming.Queue.UpNext.remove_items music_streaming.Queue.UpNext.restart
    music_streaming.Queue.UpNext.shuffle_next_lap
parity = refl
