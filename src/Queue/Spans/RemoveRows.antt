-- ===== src/Queue/Spans/RemoveRows.antt =====
-- spans.rs, `SpanList::remove_rows`: many rows taken out in one pass.
use music_streaming.Base.{ℕ, ◌+◌, ◌-◌, List, [], ◌∷◌, ◌++◌, if◌then◌else◌, ltb}
use music_streaming.Queue.Spans.{Span, SpanList, new_span, normalize}

-- What the inner loop leaves: spans kept and removed, the rows not yet reached, and the first row of
-- the span that is neither kept nor removed.
pub record Cut : Type 0 where
  pub kept : List Span
  pub removed : List Span
  pub rest : List ℕ
  pub from : ℕ

-- The inner loop, over the rows of the span of rows `first..end`.
unfoldable pub cut_span : Span → ℕ → ℕ → ℕ → List ℕ → Cut
cut_span span first end from [] = record { kept = []; removed = []; rest = []; from = from }
cut_span span first end from (row ∷ rows) =
    let more = cut_span span first end (row + 1) rows in
    if ltb row end
    then record {
      kept = new_span span.view (span.start + from - first) (row - from) ∷ more.kept;
      removed = new_span span.view (span.start + row - first) 1 ∷ more.removed;
      rest = more.rest;
      from = more.from;
    }
    else record { kept = []; removed = []; rest = row ∷ rows; from = from }

-- The outer loop from the span whose first row is `first`: the spans kept and those removed.
unfoldable pub cut_spans : ℕ → List Span → List ℕ → List Span × List Span
cut_spans first [] rows = ([], [])
cut_spans first (span ∷ spans) rows =
    let end = first + span.len in
    let cut = cut_span span first end first rows in
    let (kept, removed) = cut_spans end spans cut.rest in
    (
      cut.kept ++ (new_span span.view (span.start + cut.from - first) (end - cut.from) ∷ kept),
      cut.removed ++ removed,
    )

-- The list without the rows, and one span for each of them.
unfoldable pub remove_rows : SpanList → List ℕ → SpanList × List Span
remove_rows list rows =
    let (kept, removed) = cut_spans 0 list.spans rows in (normalize kept, removed)
