-- ===== src/Queue/History/Record.antt =====
-- history.rs and shuffle.rs: how the numbers of plays grow when plays are recorded.
use mathlib.Core.List.{reverse-cons}
use music_streaming.Base.{
  ℕ, zero, suc, ◌+◌, ◌≤◌, ◌≡◌, refl, ap, ◌∙◌, Bool, true, false, ◌&&◌, List, [], ◌∷◌, ◌++◌, arith,
  reverse, any, if◌then◌else◌, Bool-cases, Option-cases, inl, inr, ◌==◌,
}
use music_streaming.Queue.Spans.{View, Span, view_eq}
use music_streaming.Queue.State.{Run, QueueState}
use music_streaming.Queue.Read.{item_of}
use music_streaming.Queue.ShuffleReads.{
  play_span, is_shuffle, is_full, push_play, push_shuffled, push_span, push_spans, played, sum_len,
}
use music_streaming.Queue.History.{push_run, push_runs, trim_history, record_plays}

sum_len-push_play :
    (piece : Span) (newest : List Span)
    → sum_len (push_play piece newest) ≡ piece.len + sum_len newest
unfolding push_play sum_len
sum_len-push_play piece [] = refl
sum_len-push_play piece (next ∷ newest) =
    elim (Bool-cases (view_eq next.view piece.view && (piece.start + piece.len == next.start))) [
      | inl e ↦ rw e (omega arith)
      | inr e ↦ rw e (omega arith)
    ]

sum_len-append : (xs ys : List Span) → sum_len (xs ++ ys) ≡ sum_len xs + sum_len ys
unfolding sum_len
sum_len-append [] ys = omega arith
sum_len-append (x ∷ xs) ys = omega (arith, sum_len-append xs ys)

sum_len-reverse : (xs : List Span) → sum_len (reverse xs) ≡ sum_len xs
unfolding sum_len
sum_len-reverse [] = refl
sum_len-reverse (x ∷ xs) =
    ap sum_len (reverse-cons x xs)
    ∙ sum_len-append (reverse xs) (x ∷ [])
    ∙ omega (arith, sum_len-reverse xs)

sum_len-push_runs :
    (history : List Run) (next : ℕ) (spans : List Span)
    → (push_runs history next spans).1 ≡ next + sum_len spans
unfolding push_runs sum_len
sum_len-push_runs history next [] = omega arith
sum_len-push_runs history next (span ∷ spans) =
    omega (arith, sum_len-push_runs (push_run history next span) (next + span.len) spans)

-- Whether the loop stops at what is pushed or goes on, no more is there than `most`.
stopped-le :
    (stops : Bool) (pushed : List Span) (more : List Span × Bool) (most : ℕ)
    → sum_len pushed ≤ most
    → sum_len more.0 ≤ most
    → (let out : List Span × Bool = if stops then (pushed, true) else more in sum_len out.0 ≤ most)
stopped-le true pushed more most h l = h
stopped-le false pushed more most h l = l

module _ {F : Type 0} where
  sum_len-push_shuffled :
      (s : QueueState F) (start n : ℕ) (newest : List Span)
      → sum_len (push_shuffled s start n newest).0 ≤ sum_len newest + n
  unfolding push_shuffled sum_len
  sum_len-push_shuffled s start zero newest = omega arith
  sum_len-push_shuffled s start (suc n) newest =
      elim (Option-cases (item_of s View.shuffle (start + n))) [
        | inl e ↦ rw (e, push_shuffled) (omega (arith, sum_len-push_shuffled s start n newest))
        | inr (item, e) ↦
            rw (e, push_shuffled)
              (stopped-le (is_full (push_play (play_span item) newest))
                (push_play (play_span item) newest)
                (push_shuffled s start n (push_play (play_span item) newest))
                (sum_len newest + suc n) (omega (arith, sum_len-push_play (play_span item) newest))
                (omega (
                  arith,
                  sum_len-push_play (play_span item) newest,
                  sum_len-push_shuffled s start n (push_play (play_span item) newest),
                )))
      ]

  sum_len-push_span :
      (s : QueueState F) (span : Span) (newest : List Span)
      → sum_len (push_span s span newest).0 ≤ sum_len newest + span.len
  sum_len-push_span s span newest = elim (Bool-cases (is_shuffle span.view)) [
    | inl e ↦ rw e (sum_len-push_shuffled s span.start span.len newest)
    | inr e ↦ rw e (omega (arith, sum_len-push_play span newest))
  ]

  sum_len-push_spans :
      (s : QueueState F) (spans newest : List Span)
      → sum_len (push_spans s spans newest) ≤ sum_len newest + sum_len spans
  unfolding push_spans sum_len
  sum_len-push_spans s [] newest = omega arith
  sum_len-push_spans s (span ∷ spans) newest =
      let here = sum_len-push_span s span newest in
      elim (Bool-cases (push_span s span newest).1) [
        | inl e ↦ rw e (omega (arith, here))
        | inr e ↦ rw e (omega (arith, here, sum_len-push_spans s spans (push_span s span newest).0))
      ]

  played-sum_len :
      (s : QueueState F) (spans : List Span)
      → (played s spans).0 + sum_len (played s spans).1 ≡ sum_len spans
  unfolding played sum_len
  played-sum_len s spans = elim (Bool-cases (any (λ (x : Span). is_shuffle x.view) spans)) [
    | inl e ↦ rw e (omega (arith, sum_len-push_spans s (reverse spans) [], sum_len-reverse spans))
    | inr e ↦ rw e (omega arith)
  ]

  -- Recording plays moves the number of the next play on by the count of the rows recorded, those
  -- that the shuffle leaves out of History included.
  pub record_plays-next_play :
      (s : QueueState F) (spans : List Span)
      → (record_plays s spans).0.next_play ≡ s.next_play + sum_len spans
  unfolding record_plays trim_history
  record_plays-next_play s spans = omega (
    arith,
    sum_len-push_runs s.history (s.next_play + (played s spans).0) (played s spans).1,
    played-sum_len s spans,
  )
