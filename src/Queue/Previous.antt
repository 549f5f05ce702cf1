-- ===== src/Queue/Previous.antt =====
-- crates/core/src/queue/previous.rs: step back one play.
use music_streaming.Base.{
  ◌+◌, ◌-◌, String, Bool, false, ◌&&◌, ◌||◌, Option, none, some, List, [], ◌∷◌, ◌++◌, if◌then◌else◌,
  ◌==◌, get_last?, is_some, Option-bind,
}
use music_streaming.Queue.Spans.{View, from_spans, splice, is_empty}
use music_streaming.Queue.State.{
  ItemId, item_eq, Run, QueueState, duplicate_key, ok, err, Outcome, has_key,
}
use music_streaming.Queue.Read.{checked_sub, item_at, find_item, is_current}
use music_streaming.Queue.ShuffleReads.{play_span}
use music_streaming.Queue.History.{source_spans}

-- `pop_play`: the last run without its newest play.
unfoldable pub pop_play : List Run → List Run
pop_play [] = []
pop_play (run ∷ []) =
    if run.span.len - 1 == 0
    then []
    else record run { span = record (run.span) { len = run.span.len - 1 } } ∷ []
pop_play (run ∷ (next ∷ history)) = run ∷ pop_play (next ∷ history)

-- The item that the last play of a run played.
abbrev pub last_play : Run → View → Option ItemId
last_play run View.shuffle = none
last_play run (View.key k) = some (record { key = k; pos = run.span.start + run.span.len - 1 })

abbrev pub is_item : ItemId → Option ItemId → Bool
is_item old none = false
is_item old (some item) = item_eq item old

module _ {F : Type 0} where
  -- Whether `old` is the row of the context just passed.
  unfoldable pub just_passed : QueueState F → ItemId → Bool
  just_passed s old = elim (checked_sub s.cursor 1) [
    | none ↦ false
    | some row ↦ is_item old (item_at s s.order row)
  ]

  -- The item that was playing goes to the front of Up Next.
  unfoldable pub put_back : QueueState F → ItemId → QueueState F
  put_back s old =
      if is_empty s.manual && just_passed s old
      then record s { cursor = s.cursor - 1 }
      else record s { manual = splice s.manual 0 (play_span old ∷ []) }

  abbrev pub put_back_old : QueueState F → Option ItemId → QueueState F
  put_back_old s none = s
  put_back_old s (some old) = put_back s old

  unfoldable pub play_again : QueueState F → ItemId → Bool → String → QueueState F
  play_again s x copy_needed key =
      if copy_needed
      then record s {
        copies = s.copies ++ (record { key = key; of = from_spans (source_spans s x) } ∷ []);
        current = some (record { key = key; pos = 0 });
      }
      else record s { current = some x }

  -- `previous` to the play of `x`.
  unfoldable pub step_back : QueueState F → ItemId → String → Outcome F
  step_back s x key =
      let copy_needed = is_current s x || is_some (find_item s x) in
      if copy_needed && has_key s key then (s, err duplicate_key) else (
        play_again (put_back_old (record s { history = pop_play s.history }) s.current) x
            copy_needed key,
        ok tt,
      )

  unfoldable pub previous : QueueState F → String → Outcome F
  previous s key = elim (Option-bind (get_last? s.history) λ last. last_play last last.span.view) [
    | none ↦ (s, ok tt)
    | some x ↦ step_back s x key
  ]
