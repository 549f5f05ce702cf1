-- ===== src/PlaylistKeys/Tests.antt =====
-- The theorem on keys.rs at the orders of its own tests.
use music_streaming.Base.{ℕ, ◌+◌, ◌-◌, List, [], ◌∷◌, Option, none, some, ◌≡◌, refl, arith}
use music_streaming.PlaylistKeys.{
  key_gap, origin, assign, assign_from, spread, spread_from, spread_key, step_between, gaps, above,
  below, longest_increasing, present_from, link, follow,
}
use music_streaming.PlaylistKeys.Tops.{Run, ended, passed, picked}
use music_streaming.PlaylistKeys.Kept.{IsStored}
use music_streaming.PlaylistKeys.Assign.{IsAnswer, assign-IsAnswer}

-- A block moved to the front.
abbrev moved : List (Option ℕ)
moved =
    some (origin + 40)
    ∷ some (origin + 50)
    ∷ some (origin + 10)
    ∷ some (origin + 20)
    ∷ some (origin + 30)
    ∷ some (origin + 60)
    ∷ []

assign-moved :
    assign moved
    ≡ some (
        (origin + 10 - 2097152)
        ∷ (origin + 10 - key_gap)
        ∷ (origin + 10)
        ∷ (origin + 20)
        ∷ (origin + 30)
        ∷ (origin + 60)
        ∷ [])
unfolding assign assign_from spread spread_from spread_key step_between gaps above below
    longest_increasing present_from link follow
assign-moved = refl

assign-spread :
    assign (some origin ∷ none ∷ none ∷ some (origin + 9) ∷ none ∷ [])
    ≡ some (origin ∷ (origin + 3) ∷ (origin + 6) ∷ (origin + 9) ∷ (origin + 9 + key_gap) ∷ [])
unfolding assign assign_from spread spread_from spread_key step_between gaps above below
    longest_increasing present_from link follow
assign-spread = refl

assign_used_up : assign (some 1 ∷ none ∷ none ∷ some 3 ∷ []) ≡ none
unfolding assign assign_from spread spread_from spread_key step_between gaps above below
    longest_increasing present_from link follow
assign_used_up = refl

moved-IsStored : IsStored moved
moved-IsStored = omega arith

-- The keys 10, 20, 30 and 60.
moved-run : Run 0 moved 4
moved-run = passed 0 4 (some (origin + 40)) _ (
    passed 0 4 (some (origin + 50)) _ (
      picked 0 (origin + 10) 3 _ (omega arith) (
        picked (origin + 11) (origin + 20) 2 _ (omega arith) (
          picked (origin + 21) (origin + 30) 1 _ (omega arith)
            (picked (origin + 31) (origin + 60) 0 [] (omega arith) (ended (origin + 61)))))))

assign-IsAnswer_example : IsAnswer moved 4 (assign moved)
assign-IsAnswer_example = assign-IsAnswer moved 4 moved-IsStored moved-run
