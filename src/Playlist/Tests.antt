-- ===== src/Playlist/Tests.antt =====
-- playlist.rs: the cases of its own tests, and the theorems at inputs.
use music_streaming.Base.{
  ℕ, ◌≡◌, refl, ◌≤◌, some, none, List, [], ◌∷◌, arith, length, splice, ◌↔◌, ◌⊎◌,
}
use music_streaming.Base.Sorting.{sort}
use music_streaming.Base.Positions.{range_from, items_at, items_not_at}
use music_streaming.Playlist.{
  Op, OpError, add, remove, move, ok, err, out_of_range, duplicate, selection, apply_op, apply_ops,
}
use music_streaming.Playlist.Selection.{IsSelection, selection_iff}
use music_streaming.Playlist.Edits.{apply_op-remove_iff, apply_op-move_iff}
use music_streaming.Playlist.Runs.{Applied, FirstBad, apply_ops-FirstBad}
use music_streaming.Playlist.RoundTrip.{apply_ops-add-remove}

abbrev letters : List ℕ
letters = 10 ∷ 11 ∷ 12 ∷ 13 ∷ 14 ∷ []

move_together : apply_op letters (move (4 ∷ 1 ∷ []) 2) ≡ ok (10 ∷ 12 ∷ 11 ∷ 14 ∷ 13 ∷ [])
unfolding apply_op sort
move_together = refl

move_past_the_end : apply_op letters (move (0 ∷ 1 ∷ []) 4) ≡ err (out_of_range 4)
unfolding apply_op sort
move_past_the_end = refl

remove_twice : apply_op letters (remove (1 ∷ 3 ∷ 1 ∷ [])) ≡ err (duplicate 1)
unfolding apply_op sort
remove_twice = refl

selection_iff_example :
    (selection (3 ∷ 1 ∷ []) 5 ≡ ok (sort (3 ∷ 1 ∷ []))) ↔ IsSelection (3 ∷ 1 ∷ []) 5
selection_iff_example = selection_iff (3 ∷ 1 ∷ []) 5

apply_op-remove_iff_example :
    (apply_op letters (remove (3 ∷ 1 ∷ [])) ≡ ok (items_not_at (3 ∷ 1 ∷ []) letters))
    ↔ IsSelection (3 ∷ 1 ∷ []) (length letters)
apply_op-remove_iff_example = apply_op-remove_iff letters (3 ∷ 1 ∷ [])

apply_op-move_iff_example :
    (apply_op letters (move (4 ∷ 1 ∷ []) 2)
      ≡ ok (splice (items_not_at (4 ∷ 1 ∷ []) letters) 2 (items_at (4 ∷ 1 ∷ []) letters)))
    ↔ (IsSelection (4 ∷ 1 ∷ []) (length letters) × (2 ≤ length (items_not_at (4 ∷ 1 ∷ []) letters)))
apply_op-move_iff_example = apply_op-move_iff letters (4 ∷ 1 ∷ []) 2

-- The second op is bad, and the third would not be.
abbrev second_bad : List (Op ℕ)
second_bad = remove (0 ∷ []) ∷ (remove (4 ∷ []) ∷ (add none (7 ∷ []) ∷ []))

apply_ops-second_bad : apply_ops letters second_bad ≡ err (out_of_range 4)
unfolding apply_ops apply_op sort
apply_ops-second_bad = refl

apply_ops-FirstBad_example :
    ((list : List ℕ) × (apply_ops letters second_bad ≡ ok list) × Applied letters second_bad list)
    ⊎ ((error : OpError) × (apply_ops letters second_bad ≡ err error)
        × FirstBad letters second_bad error)
apply_ops-FirstBad_example = apply_ops-FirstBad letters second_bad

apply_ops-add-remove_example :
    apply_ops letters (add (some 2) (8 ∷ (9 ∷ [])) ∷ (remove (range_from 2 2) ∷ [])) ≡ ok letters
apply_ops-add-remove_example = apply_ops-add-remove letters 2 8 (9 ∷ []) (omega arith)
