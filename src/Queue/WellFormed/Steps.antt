-- ===== src/Queue/WellFormed/Steps.antt =====
-- crates/core/src/queue/history.rs and previous.rs: their edits keep the state well-formed.
use music_streaming.Base.{
  ℕ, String, ◌≤◌, Bool, true, false, ◌&&◌, ◌||◌, Option, none, some, List, [], ◌∷◌, arith, length,
  get_last?, Option-bind, is_some, Bool-cases, Option-cases, inl, inr,
}
use music_streaming.Queue.Spans.{is_empty}
use music_streaming.Queue.Spans.Edits.{splice-IsValid}
use music_streaming.Queue.State.{ItemId, Run, QueueState, has_key}
use music_streaming.Queue.Read.{is_current, find_item}
use music_streaming.Queue.History.{
  PlayRef, match_play, take_play, take_plays, remove_plays, requeue, requeue_play,
}
use music_streaming.Queue.Previous.{
  previous, step_back, pop_play, put_back, put_back_old, play_again, just_passed, last_play,
}
use music_streaming.Queue.WellFormed.{
  IsWellFormed, clean_up-IsWellFormed, take_play-IsWellFormed, append-CopiesAreValid,
}
use music_streaming.Queue.WellFormed.Edits.{from_spans-IsValid, adjusted-IsWellFormed}

length-pop_play : (history : List Run) → length (pop_play history) ≤ length history
unfolding pop_play
length-pop_play [] = omega arith
length-pop_play (run ∷ []) = ground arith
length-pop_play (run ∷ (next ∷ history)) = omega (arith, length-pop_play (next ∷ history))

module _ {F : Type 0} where
  take_plays-IsWellFormed :
      (s : QueueState F) (plays : List PlayRef) (went : Bool)
      → IsWellFormed s
      → IsWellFormed (take_plays s plays went).0
  unfolding take_plays
  take_plays-IsWellFormed s [] went w = w
  take_plays-IsWellFormed s (play ∷ plays) went w = elim (Option-cases (match_play s play)) [
    | inl e ↦ rw (e, take_plays) (take_plays-IsWellFormed s plays went w)
    | inr ((i, offset), e) ↦
        rw (e, take_plays)
          (take_plays-IsWellFormed (take_play s i offset) plays true
            (take_play-IsWellFormed s i offset w))
  ]

  pub remove_plays-IsWellFormed :
      (s : QueueState F) (plays : List PlayRef)
      → IsWellFormed s
      → IsWellFormed (remove_plays s plays)
  unfolding remove_plays
  remove_plays-IsWellFormed s plays w =
      let taken = take_plays-IsWellFormed s plays false w in
      elim (Bool-cases (take_plays s plays false).1) [
        | inl e ↦ rw e (clean_up-IsWellFormed _ (adjusted-IsWellFormed _ taken))
        | inr e ↦ rw e taken
      ]

  requeue_play-IsWellFormed :
      (s : QueueState F) (play : PlayRef) (key : String) (i offset : ℕ)
      → IsWellFormed s
      → IsWellFormed (requeue_play s play key i offset)
  unfolding requeue_play
  requeue_play-IsWellFormed s play key i offset w =
      let t = take_play-IsWellFormed s i offset w in
      clean_up-IsWellFormed _ (record {
        manual = splice-IsValid _ 0 _;
        order = t.order;
        base = t.base;
        copies = append-CopiesAreValid _ _ t.copies (from_spans-IsValid _);
        history = t.history;
      })

  pub requeue-IsWellFormed :
      (s : QueueState F) (play : PlayRef) (key : String)
      → IsWellFormed s
      → IsWellFormed (requeue s play key).0
  unfolding requeue
  requeue-IsWellFormed s play key w = elim (Option-cases (match_play s play)) [
    | inl e ↦ rw (e, requeue) w
    | inr ((i, offset), e) ↦
        rw (e, requeue)
          (elim (Bool-cases (has_key s key)) [
            | inl h ↦ rw h w
            | inr h ↦ rw h (requeue_play-IsWellFormed s play key i offset w)
          ])
  ]

  put_back_old-IsWellFormed :
      (s : QueueState F) (old : Option ItemId) → IsWellFormed s → IsWellFormed (put_back_old s old)
  unfolding put_back
  put_back_old-IsWellFormed s none w = w
  put_back_old-IsWellFormed s (some old) w =
      elim (Bool-cases (is_empty s.manual && just_passed s old)) [
        | inl e ↦ rw e (record {
          manual = w.manual;
          order = w.order;
          base = w.base;
          copies = w.copies;
          history = w.history;
        })
        | inr e ↦ rw e (record {
          manual = splice-IsValid s.manual 0 _;
          order = w.order;
          base = w.base;
          copies = w.copies;
          history = w.history;
        })
      ]

  play_again-IsWellFormed :
      (s : QueueState F) (x : ItemId) (copy_needed : Bool) (key : String)
      → IsWellFormed s
      → IsWellFormed (play_again s x copy_needed key)
  unfolding play_again
  play_again-IsWellFormed s x true key w = record {
    manual = w.manual;
    order = w.order;
    base = w.base;
    copies = append-CopiesAreValid s.copies _ w.copies (from_spans-IsValid _);
    history = w.history;
  }
  play_again-IsWellFormed s x false key w = record {
    manual = w.manual;
    order = w.order;
    base = w.base;
    copies = w.copies;
    history = w.history;
  }

  step_back-IsWellFormed :
      (s : QueueState F) (x : ItemId) (key : String)
      → IsWellFormed s
      → IsWellFormed (step_back s x key).0
  unfolding step_back
  step_back-IsWellFormed s x key w =
      elim (Bool-cases ((is_current s x || is_some (find_item s x)) && has_key s key)) [
        | inl e ↦ rw e w
        | inr e ↦ rw e (
            play_again-IsWellFormed _ x _ key (
              put_back_old-IsWellFormed _ s.current (record {
                manual = w.manual;
                order = w.order;
                base = w.base;
                copies = w.copies;
                history = omega (arith, length-pop_play s.history, w.history);
              })))
      ]

  pub previous-IsWellFormed :
      (s : QueueState F) (key : String) → IsWellFormed s → IsWellFormed (previous s key).0
  unfolding previous
  previous-IsWellFormed s key w =
      elim (Option-cases
        (Option-bind (get_last? s.history) λ last. last_play last last.span.view)) [
          | inl e ↦ rw (e, previous) w
          | inr (x, e) ↦ rw (e, previous) (step_back-IsWellFormed s x key w)
        ]
