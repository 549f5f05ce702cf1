-- ===== src/Queue/Rewind.antt =====
-- crates/core/src/queue/rewind.rs: Previous repeated until a chosen play is current.
use music_streaming.Base.{
  ℕ, zero, suc, ◌+◌, ◌-◌, min, String, Bool, true, false, ◌&&◌, Option, none, some, List, [], ◌∷◌,
  ◌++◌, reverse, if◌then◌else◌, ltb, ◌==◌, get_elem?, take, drop, retain, any,
}
use music_streaming.Queue.Spans.{
  View, Span, new_span, from_spans, list_len, is_empty, locate, splice, slice,
}
use music_streaming.Queue.State.{
  ItemId, Run, QueueState, duplicate_key, play_gone, ok, err, Outcome, has_key,
}
use music_streaming.Queue.Read.{item_at}
use music_streaming.Queue.ShuffleReads.{play_span, is_shuffle}
use music_streaming.Queue.History.{PlayRef, match_play, source_range}
use music_streaming.Queue.Unshuffle.{has_view_key}
use music_streaming.Queue.Previous.{is_item}
use music_streaming.Queue.Held.{Range, shuffle_held}
use music_streaming.Queue.Pieces.{
  Piece, new_piece, hold, hold_spans, hold_ranges, split_all, heard_from, positions_of, has_length,
}

-- What phase 1 leaves: the cursor moved back, the item playing if it is still to be queued, and the
-- stretches still to be queued.
pub record Walk : Type 0 where
  pub row : ℕ
  pub old_left : Option ItemId
  pub heard : List Piece

-- The copy's spans, the Manual Queue's, and what plays.
pub record Built : Type 0 where
  pub of : List Span
  pub queued : List Span
  pub playing : Option ItemId

-- The runs before play `offset` of run `i`.
unfoldable pub cut_history : List Run → ℕ → ℕ → List Run
cut_history history i offset = elim (get_elem? history i) [
  | none ↦ history
  | some run ↦
      let shorter : Run = record { first = run.first; span = record (run.span) { len = offset } } in
      take i history ++ (if ltb 0 offset then shorter ∷ [] else [])
]

abbrev pub old_spans : Option ItemId → List Span
old_spans none = []
old_spans (some old) = play_span old ∷ []

module _ {F : Type 0} where
  -- How many of the last `left` positions of `key` from `start` one turn of `match_back` matches
  -- against the rows before `row`: none where it returns.
  unfoldable pub back_step : QueueState F → String → ℕ → ℕ → ℕ → ℕ
  back_step s key start left row = elim (locate s.order (row - 1)) [
    | none ↦ 0
    | some (i, offset) ↦ elim (get_elem? s.order.spans i) [
      | none ↦ 0
      | some span ↦
          let wanted : ItemId = record { key = key; pos = start + left - 1 } in
          if is_shuffle span.view
          then if is_item wanted (item_at s s.order (row - 1)) then 1 else 0
          else if has_view_key span.view key && (span.start + offset == start + left - 1)
          then min (offset + 1) left
          else 0
    ]
  ]

  -- The loop of `match_back`: what is left, and the row. Each turn lowers the row, so the row is fuel
  -- enough.
  unfoldable pub match_back : QueueState F → String → ℕ → ℕ → ℕ → ℕ → ℕ × ℕ
  match_back s key start zero left row = (left, row)
  match_back s key start (suc fuel) left row =
      let n : ℕ = if ltb 0 left && ltb 0 row then back_step s key start left row else 0 in
      let rest = match_back s key start fuel (left - n) (row - n) in
      if n == 0 then (left, row) else rest

  -- The loop of phase 1 over the stretches, newest first: what is left of them, and the row.
  unfoldable pub walk_back : QueueState F → List Piece → ℕ → List Piece × ℕ
  walk_back s [] row = ([], row)
  walk_back s (piece ∷ older) row =
      let (left, row') = match_back s piece.key piece.start row piece.len row in
      let (rest, row'') = walk_back s older row' in
      if ltb 0 left
      then (record piece { len = left } ∷ older, row')
      else (record piece { len = left } ∷ rest, row'')

  -- Phase 1 past the item playing.
  unfoldable pub walk_heard : QueueState F → List Piece → Option ItemId → Bool → ℕ → Walk
  walk_heard s heard old_left false row = record {
    row = row;
    old_left = old_left;
    heard = retain has_length heard;
  }
  walk_heard s heard old_left true row =
      let (left, row') = walk_back s (reverse heard) row in
      record { row = row'; old_left = old_left; heard = retain has_length (reverse left) }

  -- Phase 1 where the Manual Queue is empty and `old` plays.
  unfoldable pub walk_current : QueueState F → List Piece → ItemId → Walk
  walk_current s heard old =
      let (left, row) = match_back s old.key old.pos s.cursor 1 s.cursor in
      if left == 0
      then walk_heard s heard none true row
      else walk_heard s heard (some old) false row

  unfoldable pub walk : QueueState F → List Piece → Walk
  walk s heard =
      let by_current : Walk = elim s.current [
        | none ↦ walk_heard s heard none true s.cursor
        | some old ↦ walk_current s heard old
      ] in
      if is_empty s.manual then by_current else walk_heard s heard s.current false s.cursor

  -- What Up Next holds once phase 1 is done.
  unfoldable pub held_after : QueueState F → Piece → Walk → List Range
  held_after s target w =
      let rows =
        hold_spans (slice s.order w.row (list_len s.order)) (hold_spans s.manual.spans []) in
      let all = hold_ranges (shuffle_held s w.row (positions_of target w.heard)) rows in
      elim w.old_left [ none ↦ all | some old ↦ hold old.key old.pos (old.pos + 1) all ]

  -- The loop over the parts heard, `copied` positions of the copy made so far; `first` on the target.
  unfoldable pub build : QueueState F → String → Bool → ℕ → List Piece → Built
  build s key first copied [] = record { of = []; queued = []; playing = none }
  build s key first copied (part ∷ parts) =
      let view_key = if part.copy then key else part.key in
      let start = if part.copy then copied else part.start in
      let skip : ℕ = if first then 1 else 0 in
      let rest = build s key false (if part.copy then copied + part.len else copied) parts in
      record {
        of = (if part.copy then source_range s part.key part.start part.len else []) ++ rest.of;
        queued =
            (if ltb skip part.len
              then new_span (View.key view_key) (start + skip) (part.len - skip) ∷ []
              else [])
            ++ rest.queued;
        playing = if first then some (record { key = view_key; pos = start }) else rest.playing;
      }

  -- The queue once rewound.
  unfoldable pub rewound : QueueState F → ℕ → ℕ → String → Walk → Bool → Built → QueueState F
  rewound s i offset key w copies built = record s {
    history = cut_history s.history i offset;
    cursor = w.row;
    manual = splice s.manual 0 (built.queued ++ old_spans w.old_left);
    current = built.playing;
    copies =
        if copies
        then s.copies ++ (record { key = key; of = from_spans built.of } ∷ [])
        else s.copies;
  }

  -- `rewind` to the first play of the stretches heard.
  unfoldable pub rewind_to : QueueState F → ℕ → ℕ → String → Piece → List Piece → Outcome F
  rewind_to s i offset key first later =
      let target = new_piece first.key first.start 1 in
      let rest = record first { start = first.start + 1; len = first.len - 1 } in
      let w = walk s (rest ∷ later) in
      let parts = split_all (held_after s target w) (reverse (target ∷ w.heard)) in
      let copies = any (λ (p : Piece). p.copy) parts in
      if copies && has_key s key
      then (s, err duplicate_key)
      else (rewound s i offset key w copies (build s key true 0 parts), ok tt)

  -- `rewind` over the stretches heard: none where a run reads the shuffle.
  abbrev pub rewind_heard : QueueState F → ℕ → ℕ → String → Option (List Piece) → Outcome F
  rewind_heard s i offset key none = (s, ok tt)
  rewind_heard s i offset key (some []) = (s, ok tt)
  rewind_heard s i offset key (some (first ∷ later)) = rewind_to s i offset key first later

  unfoldable pub rewind : QueueState F → PlayRef → String → Outcome F
  rewind s play key = elim (match_play s play) [
    | none ↦ (s, err play_gone)
    | some (i, offset) ↦ rewind_heard s i offset key (heard_from offset (drop i s.history))
  ]
