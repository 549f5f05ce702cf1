-- ===== src/Queue/WellFormed/Apply.antt =====
-- crates/core/src/queue: rewind, the shuffle, `start` and `apply` keep the state well-formed.
use music_streaming.Base.{
  refl, ℕ, zero, suc, String, ◌≤◌, Bool, true, false, ◌&&◌, Option, none, some, List, [], ◌∷◌,
  arith, leb, length, is_some, drop, Bool-cases, Option-cases, inl, inr, if◌then◌else◌,
}
use music_streaming.Queue.Spans.Edits.{splice-IsValid}
use music_streaming.Queue.State.{Source, Run, QueueState, ok, err, has_key, start, started}
use music_streaming.Queue.History.{PlayRef, match_play}
use music_streaming.Queue.Unshuffle.{unshuffled, unshuffle, shuffle_on, set_shuffle}
use music_streaming.Queue.Pieces.{Piece, heard_from}
use music_streaming.Queue.Rewind.{
  Walk, Built, cut_history, rewound, rewind_to, rewind_heard, rewind,
}
use music_streaming.Queue.Edit.{
  Edit, apply, add_edit, remove_edit, move_edit, jump_edit, next_edit, remove_plays_edit,
  requeue_edit, previous_edit, rewind_edit, shuffle_edit, repeat_edit,
}
use music_streaming.Queue.WellFormed.{IsWellFormed, clean_up-IsWellFormed, append-CopiesAreValid}
use music_streaming.Queue.WellFormed.Edits.{
  from_spans-IsValid, add-IsWellFormed, remove_items-IsWellFormed, move_items-IsWellFormed,
  jump-IsWellFormed, next-IsWellFormed,
}
use music_streaming.Queue.Spans.{empty}
use music_streaming.Queue.Spans.Normalize.{IsValid}
use music_streaming.Queue.State.{duplicate_key, Outcome}
use music_streaming.Queue.WellFormed.Steps.{
  remove_plays-IsWellFormed, requeue-IsWellFormed, previous-IsWellFormed,
}

pub empty-IsValid : IsValid empty
empty-IsValid = record { ends_run = refl; normal = tt }

length-cut_history :
    (history : List Run) (i offset : ℕ) → length (cut_history history i offset) ≤ length history
unfolding cut_history
length-cut_history [] zero offset = omega arith
length-cut_history [] (suc i) offset = omega arith
length-cut_history (run ∷ history) zero offset = ground arith
length-cut_history (run ∷ history) (suc i) offset =
    ground (arith, length-cut_history history i offset)

module _ {F : Type 0} where
  rewound-IsWellFormed :
      (s : QueueState F) (i offset : ℕ) (key : String) (w : Walk) (copies : Bool) (built : Built)
      → IsWellFormed s
      → IsWellFormed (rewound s i offset key w copies built)
  unfolding rewound
  rewound-IsWellFormed s i offset key w true built v = record {
    manual = splice-IsValid s.manual 0 _;
    order = v.order;
    base = v.base;
    copies = append-CopiesAreValid s.copies _ v.copies (from_spans-IsValid built.of);
    history = omega (arith, length-cut_history s.history i offset, v.history);
  }
  rewound-IsWellFormed s i offset key w false built v = record {
    manual = splice-IsValid s.manual 0 _;
    order = v.order;
    base = v.base;
    copies = v.copies;
    history = omega (arith, length-cut_history s.history i offset, v.history);
  }

  rewind_to-IsWellFormed :
      (s : QueueState F) (i offset : ℕ) (key : String) (first : Piece) (later : List Piece)
      → IsWellFormed s
      → IsWellFormed (rewind_to s i offset key first later).0
  unfolding rewind_to
  rewind_to-IsWellFormed s i offset key first later v =
      guarded (_ && has_key s key) (rewound-IsWellFormed s i offset key _ _ _ v)
    where
      guarded :
          (refused : Bool) {s' : QueueState F}
          → IsWellFormed s'
          → (let o : Outcome F = if refused then (s, err duplicate_key) else (s', ok tt) in
              IsWellFormed o.0)
      guarded true w = v
      guarded false w = w

  rewind-IsWellFormed :
      (s : QueueState F) (play : PlayRef) (key : String)
      → IsWellFormed s
      → IsWellFormed (rewind s play key).0
  unfolding rewind
  rewind-IsWellFormed s play key v = elim (Option-cases (match_play s play)) [
    | inl e ↦ rw (e, rewind) v
    | inr ((i, offset), e) ↦ rw (e, rewind) (heard i offset (heard_from offset (drop i s.history)))
  ]
    where
      heard :
          (i offset : ℕ) (pieces : Option (List Piece))
          → IsWellFormed (rewind_heard s i offset key pieces).0
      heard i offset none = v
      heard i offset (some []) = v
      heard i offset (some (first ∷ later)) = rewind_to-IsWellFormed s i offset key first later v

  unshuffle-IsWellFormed : (s : QueueState F) → IsWellFormed s → IsWellFormed (unshuffle s)
  unfolding unshuffle unshuffled
  unshuffle-IsWellFormed s v = elim (Option-cases s.shuffle) [
    | inl e ↦ rw (e, unshuffle) v
    | inr (shuffle, e) ↦
        rw (e, unshuffle)
          (clean_up-IsWellFormed _ (record {
            manual = v.manual;
            order = from_spans-IsValid _;
            base = tt;
            copies = v.copies;
            history = v.history;
          }))
  ]

  set_shuffle-IsWellFormed :
      (s : QueueState F) (on : Bool) (seed : ℕ)
      → IsWellFormed s
      → IsWellFormed (set_shuffle s on seed)
  unfolding set_shuffle shuffle_on
  set_shuffle-IsWellFormed s true seed v = elim (Bool-cases (is_some s.shuffle)) [
    | inl e ↦ rw e v
    | inr e ↦ rw e (record {
      manual = v.manual;
      order = splice-IsValid _ _ _;
      base = from_spans-IsValid _;
      copies = v.copies;
      history = v.history;
    })
  ]
  set_shuffle-IsWellFormed s false seed v = elim (Bool-cases (is_some s.shuffle)) [
    | inl e ↦ rw e (unshuffle-IsWellFormed s v)
    | inr e ↦ rw e v
  ]

  -- Every edit, refused or not, leaves a well-formed state well-formed.
  pub apply-IsWellFormed :
      (s : QueueState F) (edit : Edit F) → IsWellFormed s → IsWellFormed (apply s edit).0
  unfolding apply
  apply-IsWellFormed s (add_edit source anchor) v = add-IsWellFormed s source anchor v
  apply-IsWellFormed s (remove_edit items) v = remove_items-IsWellFormed s items v
  apply-IsWellFormed s (move_edit items anchor) v = move_items-IsWellFormed s items anchor v
  apply-IsWellFormed s (jump_edit item) v = jump-IsWellFormed s item v
  apply-IsWellFormed s next_edit v = next-IsWellFormed s v
  apply-IsWellFormed s (remove_plays_edit plays) v = remove_plays-IsWellFormed s plays v
  apply-IsWellFormed s (requeue_edit play key) v = requeue-IsWellFormed s play key v
  apply-IsWellFormed s (previous_edit key) v = previous-IsWellFormed s key v
  apply-IsWellFormed s (rewind_edit play key) v = rewind-IsWellFormed s play key v
  apply-IsWellFormed s (shuffle_edit on seed) v = set_shuffle-IsWellFormed s on seed v
  apply-IsWellFormed s (repeat_edit mode) v = record {
    manual = v.manual;
    order = v.order;
    base = v.base;
    copies = v.copies;
    history = v.history;
  }

  -- x
  pub start-IsWellFormed :
      (s : QueueState F) (source : Source F) (at : ℕ)
      → IsWellFormed s
      → IsWellFormed (start s source at).0
  unfolding start started
  start-IsWellFormed s source at v = elim (Bool-cases (has_key s source.key)) [
    | inl e ↦ rw e v
    | inr e ↦ rw e (elim (Bool-cases (leb source.length at)) [
      | inl l ↦ rw l v
      | inr l ↦ rw l (record {
        manual = empty-IsValid;
        order = from_spans-IsValid _;
        base = tt;
        copies = tt;
        history = omega arith;
      })
    ])
  ]
