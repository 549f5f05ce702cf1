-- ===== src/Queue/Tests.antt =====
-- The theorems on queues at the state that parity.json starts from: eight rows of "a", the second of
-- them current.
use music_streaming.Base.{
  none, ◌≡◌, ◌⊎◌, refl, ◌≤◌, true, some, [], ◌∷◌, arith, take, drop, ◌-◌, ◌+◌, false, get_elem?,
  map, Perm, Option-bind,
}
use music_streaming.Base.Positions.{items_at, items_not_at, range_from}
use music_streaming.Queue.Permutation.{permute}
use music_streaming.Queue.Permutation.Shuffled.{permute-perm}
use music_streaming.Queue.Spans.{View, new_span, list_len, find}
use music_streaming.Queue.Spans.Rows.{rows, span_rows}
use music_streaming.Queue.Spans.RemoveRows.{remove_rows}
use music_streaming.Queue.Spans.Removed.{rows-remove_rows}
use music_streaming.Queue.State.{
  default_state, start, ok, err, duplicate_key, has_key, source, copy_of,
}
use music_streaming.Queue.Read.{item_of, find_item, order_row_of}
use music_streaming.Queue.UpNext.{next, jump, add, add_at_spot}
use music_streaming.Queue.UpNext.Rows.{up_next_rows, next-up_next, jump-up_next}
use music_streaming.Queue.Cleanup.{clean_up}
use music_streaming.Queue.Cleanup.Kept.{IsNamed, IsUsed, clean_up-source}
use music_streaming.Queue.ShuffleReads.{sum_len}
use music_streaming.Queue.History.{record_plays}
use music_streaming.Queue.History.Record.{record_plays-next_play}
use music_streaming.Queue.UpNext.Started.{start-up_next}
use music_streaming.Queue.Unshuffle.{set_shuffle}
use music_streaming.Queue.Unshuffle.TurnedOn.{plays_of, set_shuffle-perm}
use music_streaming.Queue.Edit.{apply, add_edit, next_edit}
use music_streaming.Queue.Anchors.{manual_end, spot}
use music_streaming.Queue.Refused.{apply-err}
use music_streaming.Queue.WellFormed.{IsWellFormed}
use music_streaming.Queue.WellFormed.Apply.{apply-IsWellFormed}
use music_streaming.Queue.Reachable.{Reachable, Reachable-IsWellFormed}
use music_streaming.Queue.Parity.{NoFilters, initial, item, queued_source}

initial-IsWellFormed : IsWellFormed initial
initial-IsWellFormed = record {
  manual = record { ends_run = refl; normal = tt };
  order = record { ends_run = refl; normal = omega arith };
  base = tt;
  copies = tt;
  history = omega arith;
}

permute-perm_example : Perm (map (permute 42 10) (range_from 0 10)) (range_from 0 10)
permute-perm_example = permute-perm 42 10

rows-remove_rows_example :
    (rows (remove_rows initial.order (1 ∷ 4 ∷ [])).0.spans
      ≡ items_not_at (1 ∷ 4 ∷ []) (rows initial.order.spans))
    × (rows (remove_rows initial.order (1 ∷ 4 ∷ [])).1
        ≡ items_at (1 ∷ 4 ∷ []) (rows initial.order.spans))
rows-remove_rows_example =
    rows-remove_rows initial.order (1 ∷ 4 ∷ []) (omega arith, (omega arith, tt))

apply-IsWellFormed_example :
    IsWellFormed (apply initial (add_edit (queued_source "b" 4) manual_end)).0
apply-IsWellFormed_example =
    apply-IsWellFormed initial (add_edit (queued_source "b" 4) manual_end) initial-IsWellFormed

Reachable-IsWellFormed_example :
    IsWellFormed
      (apply (start (default_state {F = NoFilters}) (queued_source "a" 8) 1).0 next_edit).0
Reachable-IsWellFormed_example =
    Reachable-IsWellFormed
      (Reachable.edited (Reachable.started Reachable.fresh (queued_source "a" 8) 1) next_edit)

next-up_next_example :
    (up_next_rows (next initial) ≡ drop 1 (up_next_rows initial))
    × ((next initial).current
        ≡ Option-bind (get_elem? (up_next_rows initial) 0) (λ row. item_of initial row.0 row.1))
next-up_next_example = next-up_next initial initial-IsWellFormed (λ _. refl)

find_sixth : find_item initial (item "a" 5) ≡ some 3
unfolding find_item find order_row_of list_len
find_sixth = refl

jump-up_next_example :
    (up_next_rows (jump initial (item "a" 5)) ≡ drop 4 (up_next_rows initial))
    × ((jump initial (item "a" 5)).current ≡ some (item "a" 5))
jump-up_next_example = jump-up_next initial (item "a" 5) 3 initial-IsWellFormed find_sixth

two_played : 2 ≤ list_len initial.order
unfolding list_len
two_played = omega arith

set_shuffle-perm_example :
    (take 2 (rows (set_shuffle initial true 42).order.spans) ≡ take 2 (rows initial.order.spans))
    × Perm
        (plays_of
          (set_shuffle initial true 42)
          (drop 2 (rows (set_shuffle initial true 42).order.spans)))
        (plays_of initial (drop 2 (rows initial.order.spans)))
set_shuffle-perm_example = set_shuffle-perm initial 42 initial-IsWellFormed two_played refl

clean_up-source_example :
    ((IsNamed initial "a" × (copy_of (clean_up initial) "a" ≡ copy_of initial "a"))
      ⊎ ((¬ IsNamed initial "a") × (copy_of (clean_up initial) "a" ≡ none)))
    × ((IsUsed initial "a" × (source (clean_up initial) "a" ≡ source initial "a"))
        ⊎ ((¬ IsUsed initial "a") × (source (clean_up initial) "a" ≡ none)))
clean_up-source_example = clean_up-source initial "a"

record_plays-next_play_example :
    (record_plays initial (new_span (View.key "a") 1 3 ∷ [])).0.next_play
    ≡ initial.next_play + sum_len (new_span (View.key "a") 1 3 ∷ [])
record_plays-next_play_example = record_plays-next_play initial (new_span (View.key "a") 1 3 ∷ [])

key_is_new : has_key initial "b" ≡ false
unfolding has_key source
key_is_new = refl

start-up_next_example :
    ((start initial (queued_source "b" 4) 1).1 ≡ ok tt)
    × ((start initial (queued_source "b" 4) 1).0.current ≡ some (item "b" 1))
    × (up_next_rows (start initial (queued_source "b" 4) 1).0 ≡ span_rows (View.key "b") 2 (4 - 2))
start-up_next_example = start-up_next initial (queued_source "b" 4) 1 key_is_new (omega arith)

key_is_taken : (apply initial (add_edit (queued_source "a" 4) manual_end)).1 ≡ err duplicate_key
unfolding apply add spot add_at_spot has_key source
key_is_taken = refl

apply-err_example : (apply initial (add_edit (queued_source "a" 4) manual_end)).0 ≡ initial
apply-err_example = apply-err initial (add_edit (queued_source "a" 4) manual_end) refl key_is_taken
