-- ===== src/Queue/Refused.antt =====
-- crates/core/src/queue/edit.rs: the edits that fail, and what they leave.
use music_streaming.Base.{
  ℕ, ◌≡◌, refl, String, Bool, true, false, ◌&&◌, ◌||◌, ◌==◌, Option, none, some, List, [], ◌∷◌,
  Option-cases, inl, inr, is_some, Option-bind, get_last?, drop, any, reverse, ◌+◌, ◌-◌,
  if◌then◌else◌,
}
use music_streaming.Queue.State.{
  ItemId, Source, QueueState, QueueError, duplicate_key, Result, ok, err, Outcome, has_key,
}
use music_streaming.Queue.Read.{is_current, find_item}
use music_streaming.Queue.Anchors.{
  Anchor, manual_start, manual_end, context_end, before, Spot, resolve, spot,
}
use music_streaming.Queue.UpNext.{is_nil, add, add_at_spot, move_items, move_rows}
use music_streaming.Queue.History.{PlayRef, match_play, requeue}
use music_streaming.Queue.Previous.{previous, step_back, last_play}
use music_streaming.Queue.Pieces.{Piece, new_piece, split_all, heard_from}
use music_streaming.Queue.Rewind.{walk, held_after, build, rewound, rewind, rewind_to, rewind_heard}
use music_streaming.Queue.Edit.{
  Edit, apply, add_edit, remove_edit, move_edit, jump_edit, next_edit, remove_plays_edit,
  requeue_edit, previous_edit, rewind_edit, shuffle_edit, repeat_edit,
}

abbrev pub is_before : Anchor → Bool
is_before (before item) = true
is_before _ = false

-- A move before an item, which looks for the item again once the rows are taken out.
abbrev pub moves_before_item : {F : Type 0} → Edit F → Bool
moves_before_item (move_edit items anchor) = is_before anchor
moves_before_item _ = false

-- What a call leaves of `s` where it fails.
abbrev Unchanged : {F : Type 0} → QueueState F → Outcome F → Type 0
Unchanged s (s', ok _) = Unit
Unchanged s (s', err e) = s' ≡ s

Unchanged-if :
    {F : Type 0} (s : QueueState F) (test : Bool) (e : QueueError) (otherwise : Outcome F)
    → Unchanged s otherwise
    → Unchanged s (if test then (s, err e) else otherwise)
Unchanged-if s true e otherwise h = refl
Unchanged-if s false e otherwise h = h

module _ {F : Type 0} where
  add-Unchanged : (s : QueueState F) (x : Source F) (anchor : Anchor) → Unchanged s (add s x anchor)
  unfolding add add_at_spot
  add-Unchanged s x anchor = found (spot s anchor [])
    where
      found :
          (r : Result Spot)
          → Unchanged s (elim r [ err e ↦ (s, err e) | ok at ↦ add_at_spot s x at ])
      found (err e) = refl
      found (ok at) = Unchanged-if s (has_key s x.key) duplicate_key _ (empty_or (x.length == 0) _)
        where
          empty_or :
              (b : Bool) (s' : QueueState F) → Unchanged s (if b then (s, ok tt) else (s', ok tt))
          empty_or true s' = tt
          empty_or false s' = tt

  move_rows-Unchanged :
      (s : QueueState F) (at : List ℕ) (anchor : Anchor) (target : Spot)
      → is_before anchor ≡ false
      → Unchanged s (move_rows s at anchor target)
  unfolding move_rows spot
  move_rows-Unchanged s at manual_start target h = tt
  move_rows-Unchanged s at manual_end target h = tt
  move_rows-Unchanged s at context_end target h = tt
  move_rows-Unchanged s at (before item) target h = let no_way : ⊥ = cc in absurd no_way

  move_items-Unchanged :
      (s : QueueState F) (items : List ItemId) (anchor : Anchor)
      → is_before anchor ≡ false
      → Unchanged s (move_items s items anchor)
  unfolding move_items
  move_items-Unchanged s items anchor h = found (spot s anchor (resolve s items))
    where
      moved :
          (nothing : Bool) (target : Spot)
          → Unchanged s
              (if nothing then (s, ok tt) else move_rows s (resolve s items) anchor target)
      moved true target = tt
      moved false target = move_rows-Unchanged s (resolve s items) anchor target h

      found :
          (r : Result Spot)
          → Unchanged s (elim r [
            | err e ↦ (s, err e)
            | ok target ↦
                if is_nil (resolve s items)
                then (s, ok tt)
                else move_rows s (resolve s items) anchor target
          ])
      found (err e) = refl
      found (ok target) = moved (is_nil (resolve s items)) target

  requeue-Unchanged :
      (s : QueueState F) (play : PlayRef) (key : String) → Unchanged s (requeue s play key)
  unfolding requeue
  requeue-Unchanged s play key = elim (Option-cases (match_play s play)) [
    | inl e ↦ rw (e, requeue) tt
    | inr ((i, offset), e) ↦ rw (e, requeue) (Unchanged-if s (has_key s key) duplicate_key _ tt)
  ]

  previous-Unchanged : (s : QueueState F) (key : String) → Unchanged s (previous s key)
  unfolding previous step_back
  previous-Unchanged s key =
      elim (Option-cases
        (Option-bind (get_last? s.history) λ last. last_play last last.span.view)) [
          | inl e ↦ rw (e, previous) tt
          | inr (x, e) ↦
              rw (e, previous)
                (Unchanged-if s ((is_current s x || is_some (find_item s x)) && has_key s key)
                  duplicate_key _ tt)
        ]

  rewind_to-Unchanged :
      (s : QueueState F) (i offset : ℕ) (key : String) (first : Piece) (later : List Piece)
      → Unchanged s (rewind_to s i offset key first later)
  unfolding rewind_to
  rewind_to-Unchanged s i offset key first later =
      let target = new_piece first.key first.start 1 in
      let rest : Piece = record first { start = first.start + 1; len = first.len - 1 } in
      let w = walk s (rest ∷ later) in
      let parts = split_all (held_after s target w) (reverse (target ∷ w.heard)) in
      let copies = any (λ (p : Piece). p.copy) parts in
      Unchanged-if s (copies && has_key s key) duplicate_key
        (rewound s i offset key w copies (build s key true 0 parts), ok tt) tt

  rewind-Unchanged :
      (s : QueueState F) (play : PlayRef) (key : String) → Unchanged s (rewind s play key)
  unfolding rewind
  rewind-Unchanged s play key = elim (Option-cases (match_play s play)) [
    | inl e ↦ rw (e, rewind) refl
    | inr ((i, offset), e) ↦ rw (e, rewind) (heard i offset (heard_from offset (drop i s.history)))
  ]
    where
      heard :
          (i offset : ℕ) (pieces : Option (List Piece))
          → Unchanged s (rewind_heard s i offset key pieces)
      heard i offset none = tt
      heard i offset (some []) = tt
      heard i offset (some (first ∷ later)) = rewind_to-Unchanged s i offset key first later

  apply-Unchanged :
      (s : QueueState F) (edit : Edit F)
      → moves_before_item edit ≡ false
      → Unchanged s (apply s edit)
  unfolding apply
  apply-Unchanged s (add_edit x anchor) h = add-Unchanged s x anchor
  apply-Unchanged s (remove_edit items) h = tt
  apply-Unchanged s (move_edit items manual_start) h =
      move_items-Unchanged s items manual_start refl
  apply-Unchanged s (move_edit items manual_end) h = move_items-Unchanged s items manual_end refl
  apply-Unchanged s (move_edit items context_end) h = move_items-Unchanged s items context_end refl
  apply-Unchanged s (move_edit items (before item)) h = let no_way : ⊥ = cc in absurd no_way
  apply-Unchanged s (jump_edit item) h = tt
  apply-Unchanged s next_edit h = tt
  apply-Unchanged s (remove_plays_edit plays) h = tt
  apply-Unchanged s (requeue_edit play key) h = requeue-Unchanged s play key
  apply-Unchanged s (previous_edit key) h = previous-Unchanged s key
  apply-Unchanged s (rewind_edit play key) h = rewind-Unchanged s play key
  apply-Unchanged s (shuffle_edit on seed) h = tt
  apply-Unchanged s (repeat_edit mode) h = tt

  -- An edit that fails leaves the state as it was, where it is not a move before an item.
  pub apply-err :
      (s : QueueState F) (edit : Edit F) {e : QueueError}
      → moves_before_item edit ≡ false
      → (apply s edit).1 ≡ err e
      → (apply s edit).0 ≡ s
  apply-err s edit h = failed (apply s edit) (apply-Unchanged s edit h)
    where
      failed : (o : Outcome F) {e : QueueError} → Unchanged s o → o.1 ≡ err e → o.0 ≡ s
      failed (s', ok done) u h = let no_way : ⊥ = cc in absurd no_way
      failed (s', err e) u h = u
