-- ===== src/Queue/UpNext/Started.antt =====
-- state.rs, `start`: when a queue starts, and what it then plays.
use mathlib.Core.List.{append-nil}
use music_streaming.Base.{
  ℕ, suc, ◌+◌, ◌-◌, ◌<◌, ◌≡◌, refl, ap, ap₂, ◌∙◌, false, some, [], ◌∷◌, arith, drop, leb,
}
use music_streaming.Queue.Spans.{View, new_span, from_spans}
use music_streaming.Queue.Spans.Rows.{rows, span_rows}
use music_streaming.Queue.Spans.Normalize.{rows-normalize}
use music_streaming.Queue.Spans.Slice.{drop-span_rows}
use music_streaming.Queue.State.{Source, QueueState, ok, has_key, start, started}
use music_streaming.Queue.UpNext.Rows.{up_next_rows}

module _ {F : Type 0} where
  started-rows :
      (s : QueueState F) (x : Source F) (at : ℕ)
      → up_next_rows (started s x at) ≡ span_rows (View.key x.key) (suc at) (x.length - suc at)
  unfolding started from_spans rows
  started-rows s x at =
      let key = View.key x.key in
      let next : 0 + (at + 1) ≡ suc at = omega arith in
      let left : x.length - (at + 1) ≡ x.length - suc at = omega arith in
      ap (drop (at + 1)) (rows-normalize (new_span key 0 x.length ∷ []) ∙ append-nil _)
      ∙ drop-span_rows key 0 x.length (at + 1)
      ∙ ap₂ (span_rows key) next left

  -- Where the key is new and the position is in the source, a start succeeds, the position plays,
  -- and Up Next is the rest of the source in its order.
  pub start-up_next :
      (s : QueueState F) (x : Source F) (at : ℕ)
      → has_key s x.key ≡ false
      → at < x.length
      → ((start s x at).1 ≡ ok tt)
        × ((start s x at).0.current ≡ some (record { key = x.key; pos = at }))
        × (up_next_rows (start s x at).0 ≡ span_rows (View.key x.key) (suc at) (x.length - suc at))
  unfolding start started
  start-up_next s x at new inside =
      let fits : leb x.length at ≡ false = ground arith in
      rw new (rw fits (refl, refl, started-rows s x at))
