-- ===== src/Queue/Edit.antt =====
-- crates/core/src/queue/edit.rs, `Edit` and `QueueState::apply`.
use music_streaming.Base.{ℕ, String, Bool, List}
use music_streaming.Queue.State.{ItemId, Source, Repeat, QueueState, ok, Outcome}
use music_streaming.Queue.History.{PlayRef, remove_plays, requeue}
use music_streaming.Queue.Previous.{previous}
use music_streaming.Queue.Anchors.{Anchor}
use music_streaming.Queue.UpNext.{add, remove_items, move_items, jump, next}
use music_streaming.Queue.Unshuffle.{set_shuffle}
use music_streaming.Queue.Rewind.{rewind}

pub data Edit (F : Type 0) : Type 0 where
  add_edit : Source F → Anchor → Edit F
  remove_edit : List ItemId → Edit F
  move_edit : List ItemId → Anchor → Edit F
  jump_edit : ItemId → Edit F
  next_edit : Edit F
  remove_plays_edit : List PlayRef → Edit F
  requeue_edit : PlayRef → String → Edit F
  previous_edit : String → Edit F
  rewind_edit : PlayRef → String → Edit F
  shuffle_edit : Bool → ℕ → Edit F
  repeat_edit : Repeat → Edit F

module _ {F : Type 0} where
  unfoldable pub apply : QueueState F → Edit F → Outcome F
  apply s (add_edit source anchor) = add s source anchor
  apply s (remove_edit items) = (remove_items s items, ok tt)
  apply s (move_edit items anchor) = move_items s items anchor
  apply s (jump_edit item) = (jump s item, ok tt)
  apply s next_edit = (next s, ok tt)
  apply s (remove_plays_edit plays) = (remove_plays s plays, ok tt)
  apply s (requeue_edit play key) = requeue s play key
  apply s (previous_edit key) = previous s key
  apply s (rewind_edit play key) = rewind s play key
  apply s (shuffle_edit on seed) = (set_shuffle s on seed, ok tt)
  apply s (repeat_edit mode) = (record s { repeat = mode }, ok tt)
