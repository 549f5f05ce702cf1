-- ===== src/Queue/WellFormed.antt =====
-- crates/core/src/queue: what every queue state satisfies, kept by the helpers of the edits.
pub mod Edits
pub mod Steps
pub mod Apply
use music_streaming.Base.{
  ℕ, ◌-◌, ◌≤◌, ◌<◌, ◌≡◌, Bool, Option, none, some, List, [], ◌∷◌, ◌++◌, arith, length, drop, All,
  retain, length-drop, ltb, Bool-cases, inl, inr, if◌then◌else◌,
}
use music_streaming.Queue.Spans.{SpanList, Span, normalize, splice, remove}
use music_streaming.Queue.Spans.Normalize.{IsValid, normalize-IsValid}
use music_streaming.Queue.Spans.Edits.{splice-IsValid, remove-IsValid}
use music_streaming.Queue.Spans.RemoveRows.{cut_spans, remove_rows}
use music_streaming.Queue.State.{QueueCopy, Run, Shuffle, QueueState}
use music_streaming.Queue.Cleanup.{clean_up}
use music_streaming.Queue.ShuffleReads.{history_runs, played}
use music_streaming.Queue.History.{trim, trim_history, record_plays, take_play, cut_run, push_runs}
use music_streaming.Queue.Anchors.{Spot, manual_spot, order_spot, take_out, put}
use music_streaming.Queue.UpNext.{record_and_clean}

abbrev pub BaseIsValid : Option Shuffle → Type 0
BaseIsValid none = Unit
BaseIsValid (some shuffle) = IsValid shuffle.base

abbrev pub CopiesAreValid : List QueueCopy → Type 0
CopiesAreValid = All (λ c. IsValid c.of)

-- Every span list is valid, and History has at most its count of runs.
pub record IsWellFormed {F : Type 0} (s : QueueState F) : Type 0 where
  pub manual : IsValid s.manual
  pub order : IsValid s.order
  pub base : BaseIsValid s.shuffle
  pub copies : CopiesAreValid s.copies
  pub history : length s.history ≤ history_runs

pub remove_rows-IsValid : (l : SpanList) (rs : List ℕ) → IsValid (remove_rows l rs).0
unfolding remove_rows
remove_rows-IsValid l rs = normalize-IsValid (cut_spans 0 l.spans rs).0

retain-CopiesAreValid :
    (keeps : QueueCopy → Bool) (cs : List QueueCopy)
    → CopiesAreValid cs
    → CopiesAreValid (retain keeps cs)
retain-CopiesAreValid keeps [] v = tt
retain-CopiesAreValid keeps (c ∷ cs) v = elim (Bool-cases (keeps c)) [
  | inl e ↦ rw e (v.0, retain-CopiesAreValid keeps cs v.1)
  | inr e ↦ rw e (retain-CopiesAreValid keeps cs v.1)
]

pub append-CopiesAreValid :
    (cs : List QueueCopy) (c : QueueCopy)
    → CopiesAreValid cs
    → IsValid c.of
    → CopiesAreValid (cs ++ (c ∷ []))
append-CopiesAreValid [] c v h = (h, tt)
append-CopiesAreValid (b ∷ cs) c v h = (v.0, append-CopiesAreValid cs c v.1 h)

pub length-trim : (history : List Run) → length (trim history).0 ≤ history_runs
unfolding trim
length-trim history = omega (arith, length-drop (length history - history_runs) history)

module _ {F : Type 0} where
  pub clean_up-IsWellFormed : (s : QueueState F) → IsWellFormed s → IsWellFormed (clean_up s)
  unfolding clean_up
  clean_up-IsWellFormed s w = record {
    manual = w.manual;
    order = w.order;
    base = w.base;
    copies = retain-CopiesAreValid _ s.copies w.copies;
    history = w.history;
  }

  pub record_plays-IsWellFormed :
      (s : QueueState F) (spans : List Span)
      → IsWellFormed s
      → IsWellFormed (record_plays s spans).0
  unfolding record_plays trim_history
  record_plays-IsWellFormed s spans w = record {
    manual = w.manual;
    order = w.order;
    base = w.base;
    copies = w.copies;
    history = length-trim _;
  }

  pub record_and_clean-IsWellFormed :
      (s : QueueState F) (spans : List Span)
      → IsWellFormed s
      → IsWellFormed (record_and_clean s spans)
  unfolding record_and_clean
  record_and_clean-IsWellFormed s spans w = elim (Bool-cases (record_plays s spans).1) [
    | inl e ↦
        rw e (clean_up-IsWellFormed (record_plays s spans).0 (record_plays-IsWellFormed s spans w))
    | inr e ↦ rw e (record_plays-IsWellFormed s spans w)
  ]

  pub take_play-IsWellFormed :
      (s : QueueState F) (i offset : ℕ) → IsWellFormed s → IsWellFormed (take_play s i offset)
  unfolding take_play trim_history
  take_play-IsWellFormed s i offset w = record {
    manual = w.manual;
    order = w.order;
    base = w.base;
    copies = w.copies;
    history = length-trim _;
  }

  pub take_out-IsWellFormed :
      (s : QueueState F) (at : List ℕ) (keep_passed : Bool)
      → IsWellFormed s
      → IsWellFormed (take_out s at keep_passed).0
  unfolding take_out
  take_out-IsWellFormed s at keep_passed w = record {
    manual = remove_rows-IsValid s.manual _;
    order = remove_rows-IsValid s.order _;
    base = w.base;
    copies = w.copies;
    history = w.history;
  }

  pub put-IsWellFormed :
      (s : QueueState F) (spot : Spot) (spans : List Span)
      → IsWellFormed s
      → IsWellFormed (put s spot spans)
  unfolding put
  put-IsWellFormed s (manual_spot i) spans w = record {
    manual = splice-IsValid s.manual i spans;
    order = w.order;
    base = w.base;
    copies = w.copies;
    history = w.history;
  }
  put-IsWellFormed s (order_spot i) spans w = record {
    manual = w.manual;
    order = splice-IsValid s.order i spans;
    base = w.base;
    copies = w.copies;
    history = w.history;
  }
