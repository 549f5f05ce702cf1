-- ===== src/Queue/WellFormed/Edits.antt =====
-- crates/core/src/queue/edit.rs: the edits of Up Next keep the state well-formed.
use music_streaming.Base.{
  ℕ, ◌≡◌, true, false, ◌&&◌, List, [], ◌∷◌, ◌++◌, leb, ltb, ◌==◌, Bool-cases, Option-cases, inl,
  inr, ◌⊎◌, refl,
}
use music_streaming.Queue.Spans.{Span, list_len, is_empty, from_spans}
use music_streaming.Queue.Spans.Normalize.{IsValid, normalize-IsValid}
use music_streaming.Queue.Spans.Edits.{remove-IsValid}
use music_streaming.Queue.State.{ItemId, Source, Result, ok, err, QueueState, has_key}
use music_streaming.Queue.Read.{find_item}
use music_streaming.Queue.Anchors.{Anchor, Spot, resolve, take_out, spot}
use music_streaming.Queue.UpNext.{
  is_nil, to_manual, is_all, empty_base, add, add_at_spot, remove_items, move_items, move_rows,
  jump, jump_to, next, advance, restart, shuffle_next_lap,
}
use music_streaming.Queue.WellFormed.{
  IsWellFormed, clean_up-IsWellFormed, record_and_clean-IsWellFormed, take_out-IsWellFormed,
  put-IsWellFormed,
}

pub from_spans-IsValid : (spans : List Span) → IsValid (from_spans spans)
unfolding from_spans
from_spans-IsValid spans = normalize-IsValid spans

Result-cases : {A : Type 0} (r : Result A) → ((a : A) × (r ≡ ok a)) ⊎ ((e : _) × (r ≡ err e))
Result-cases (ok a) = inl (a, refl)
Result-cases (err e) = inr (e, refl)

-- `adjusted` is no part of being well-formed.
pub adjusted-IsWellFormed :
    {F : Type 0} (s : QueueState F) → IsWellFormed s → IsWellFormed (record s { adjusted = true })
adjusted-IsWellFormed s w = record {
  manual = w.manual;
  order = w.order;
  base = w.base;
  copies = w.copies;
  history = w.history;
}

module _ {F : Type 0} where
  add_at_spot-IsWellFormed :
      (s : QueueState F) (source : Source F) (at : Spot)
      → IsWellFormed s
      → IsWellFormed (add_at_spot s source at).0
  unfolding add_at_spot
  add_at_spot-IsWellFormed s source at w = elim (Bool-cases (has_key s source.key)) [
    | inl e ↦ rw e w
    | inr e ↦ rw e (elim (Bool-cases (source.length == 0)) [
      | inl z ↦ rw z w
      | inr z ↦ rw z (
          adjusted-IsWellFormed _ (
            put-IsWellFormed (record s { sources = s.sources ++ (source ∷ []) }) at _
              (record {
                manual = w.manual;
                order = w.order;
                base = w.base;
                copies = w.copies;
                history = w.history;
              })))
    ])
  ]

  pub add-IsWellFormed :
      (s : QueueState F) (source : Source F) (anchor : Anchor)
      → IsWellFormed s
      → IsWellFormed (add s source anchor).0
  unfolding add
  add-IsWellFormed s source anchor w = elim (Result-cases (spot s anchor [])) [
    | inl (at, e) ↦ rw (e, add) (add_at_spot-IsWellFormed s source at w)
    | inr (x, e) ↦ rw (e, add) w
  ]

  pub remove_items-IsWellFormed :
      (s : QueueState F) (items : List ItemId)
      → IsWellFormed s
      → IsWellFormed (remove_items s items)
  unfolding remove_items
  remove_items-IsWellFormed s items w = elim (Bool-cases (is_nil (resolve s items))) [
    | inl e ↦ rw e w
    | inr e ↦ rw e (
        clean_up-IsWellFormed _
          (adjusted-IsWellFormed _ (take_out-IsWellFormed s (resolve s items) false w)))
  ]

  move_rows-IsWellFormed :
      (s : QueueState F) (at : List ℕ) (anchor : Anchor) (target : Spot)
      → IsWellFormed s
      → IsWellFormed (move_rows s at anchor target).0
  unfolding move_rows
  move_rows-IsWellFormed s at anchor target w =
      let out = take_out-IsWellFormed s at (to_manual target) w in
      elim (Result-cases (spot (take_out s at (to_manual target)).0 anchor [])) [
        | inl (again, e) ↦
            rw (e, move_rows) (adjusted-IsWellFormed _ (put-IsWellFormed _ again _ out))
        | inr (x, e) ↦ rw (e, move_rows) out
      ]

  pub move_items-IsWellFormed :
      (s : QueueState F) (items : List ItemId) (anchor : Anchor)
      → IsWellFormed s
      → IsWellFormed (move_items s items anchor).0
  unfolding move_items
  move_items-IsWellFormed s items anchor w = elim (Result-cases (spot s anchor (resolve s items))) [
    | inl (target, e) ↦
        rw (e, move_items)
          (elim (Bool-cases (is_nil (resolve s items))) [
            | inl n ↦ rw n w
            | inr n ↦ rw n (move_rows-IsWellFormed s (resolve s items) anchor target w)
          ])
    | inr (x, e) ↦ rw (e, move_items) w
  ]

  jump_to-IsWellFormed :
      (s : QueueState F) (item : ItemId) (index : ℕ)
      → IsWellFormed s
      → IsWellFormed (jump_to s item index)
  unfolding jump_to
  jump_to-IsWellFormed s item index w = elim (Bool-cases (leb (list_len s.manual) index)) [
    | inr e ↦
        rw (e, jump_to)
          (record_and_clean-IsWellFormed _ _ (record {
            manual = remove-IsValid _ 0 1 (remove-IsValid s.manual 0 index w.manual);
            order = w.order;
            base = w.base;
            copies = w.copies;
            history = w.history;
          }))
    | inl e ↦
        rw (e, jump_to)
          (record_and_clean-IsWellFormed _ _ (record {
            manual = remove-IsValid s.manual 0 (list_len s.manual) w.manual;
            order = w.order;
            base = w.base;
            copies = w.copies;
            history = w.history;
          }))
  ]

  pub jump-IsWellFormed :
      (s : QueueState F) (item : ItemId) → IsWellFormed s → IsWellFormed (jump s item)
  unfolding jump
  jump-IsWellFormed s item w = elim (Option-cases (find_item s item)) [
    | inl e ↦ rw (e, jump) w
    | inr (index, e) ↦ rw (e, jump) (jump_to-IsWellFormed s item index w)
  ]

  shuffle_next_lap-IsWellFormed :
      (s : QueueState F) → IsWellFormed s → IsWellFormed (shuffle_next_lap s)
  unfolding shuffle_next_lap
  shuffle_next_lap-IsWellFormed s w = elim (Option-cases (empty_base s.shuffle)) [
    | inl e ↦ rw (e, shuffle_next_lap) w
    | inr (shuffle, e) ↦
        rw (e, shuffle_next_lap)
          (record {
            manual = w.manual;
            order = from_spans-IsValid _;
            base = w.order;
            copies = w.copies;
            history = w.history;
          })
  ]

  restart-IsWellFormed : (s : QueueState F) → IsWellFormed s → IsWellFormed (restart s)
  unfolding restart
  restart-IsWellFormed s w =
      elim (Bool-cases
        (is_empty s.manual && (leb (list_len s.order) s.cursor && is_all s.repeat))) [
          | inl e ↦ rw e (
              shuffle_next_lap-IsWellFormed (record s { cursor = 0 })
                (record {
                  manual = w.manual;
                  order = w.order;
                  base = w.base;
                  copies = w.copies;
                  history = w.history;
                }))
          | inr e ↦ rw e w
        ]

  advance-IsWellFormed : (s : QueueState F) → IsWellFormed s → IsWellFormed (advance s)
  unfolding advance
  advance-IsWellFormed s w = elim (Bool-cases (is_empty s.manual)) [
    | inl e ↦ rw e (elim (Bool-cases (ltb s.cursor (list_len s.order))) [
      | inl l ↦ rw l (record {
        manual = w.manual;
        order = w.order;
        base = w.base;
        copies = w.copies;
        history = w.history;
      })
      | inr l ↦ rw l (record {
        manual = w.manual;
        order = w.order;
        base = w.base;
        copies = w.copies;
        history = w.history;
      })
    ])
    | inr e ↦ rw e (record {
      manual = remove-IsValid s.manual 0 1 w.manual;
      order = w.order;
      base = w.base;
      copies = w.copies;
      history = w.history;
    })
  ]

  pub next-IsWellFormed : (s : QueueState F) → IsWellFormed s → IsWellFormed (next s)
  unfolding next
  next-IsWellFormed s w =
      record_and_clean-IsWellFormed _ _
        (advance-IsWellFormed (restart s) (restart-IsWellFormed s w))
