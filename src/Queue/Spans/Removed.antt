-- ===== src/Queue/Spans/Removed.antt =====
-- spans.rs, `remove_rows`: which rows it takes out, and which it leaves.
use music_streaming.Base.{
  ℕ, suc, ◌+◌, ◌-◌, ◌≤◌, ◌<◌, ◌≡◌, refl, sym, ap, ap₂, ◌∙◌, true, false, not, List, [], ◌∷◌, ◌++◌,
  arith, append_assoc, length, ltb, Bool-cases, inl, inr,
}
use music_streaming.Base.Positions.{
  IsAscending, contains, keep_from, items_at, items_not_at, keep_from_all, keep_from_none,
  keep_from-within, keep_from-append, contains_below, contains_later,
}
use music_streaming.Queue.Spans.{Span, SpanList, new_span}
use music_streaming.Queue.Spans.Rows.{
  Row, span_rows, rows, length-span_rows, span_rows-append, rows-append,
}
use music_streaming.Queue.Spans.Normalize.{rows-normalize}
use music_streaming.Queue.Spans.RemoveRows.{Cut, cut_span, cut_spans, remove_rows}

-- The rows that no position names, and those that one names, of rows that stand from `i` on.
abbrev kept_of : ℕ → List ℕ → List Row → List Row
kept_of i rs = keep_from i (λ j. not (contains rs j))

abbrev named_of : ℕ → List ℕ → List Row → List Row
named_of i rs = keep_from i (contains rs)

untouched :
    (i : ℕ) (rs : List ℕ) (xs : List Row)
    → IsAscending (i + length xs) rs
    → (kept_of i rs xs ≡ xs) × (named_of i rs xs ≡ [])
untouched i rs xs a =
    let clear : (j : ℕ) → i ≤ j → j < i + length xs → contains rs j ≡ false =
      λ j l m. contains_below rs (i + length xs) j a m in
    (
      keep_from-within i (λ j. not (contains rs j)) (λ _. true) xs (λ j l m. ap not (clear j l m))
          ∙ keep_from_all i xs,
      keep_from-within i (contains rs) (λ _. false) xs clear ∙ keep_from_none i xs,
    )

-- A named row among others: those before it are kept.
named_at :
    (i r : ℕ) (rs : List ℕ) (before : List Row) (x : Row) (behind : List Row)
    → r ≡ i + length before
    → IsAscending (suc r) rs
    → (kept_of i (r ∷ rs) (before ++ (x ∷ behind)) ≡ before ++ kept_of (suc r) rs behind)
      × (named_of i (r ∷ rs) (before ++ (x ∷ behind)) ≡ x ∷ named_of (suc r) rs behind)
named_at i r rs before x behind e a =
    let first = untouched i (r ∷ rs) before (omega (arith, e), a) in
    let at : contains (r ∷ rs) r ≡ true = ground arith in
    let later = λ (j : ℕ) (l : suc r ≤ j). contains_later r rs j (omega arith) in
    let tail_kept =
      keep_from-within (suc r) (λ j. not (contains (r ∷ rs) j)) (λ j. not (contains rs j)) behind
        (λ j l m. ap not (later j l)) in
    let tail_named =
      keep_from-within (suc r) (contains (r ∷ rs)) (contains rs) behind (λ j l m. later j l) in
    (
      keep_from-append i (λ j. not (contains (r ∷ rs) j)) before (x ∷ behind)
          ∙ ap₂ (λ xs k. xs ++ kept_of k (r ∷ rs) (x ∷ behind)) first.0 (sym e)
          ∙ rw at (ap (λ ys. before ++ ys) tail_kept),
      keep_from-append i (contains (r ∷ rs)) before (x ∷ behind)
          ∙ ap₂ (λ xs k. xs ++ named_of k (r ∷ rs) (x ∷ behind)) first.1 (sym e)
          ∙ rw at (ap (λ ys. x ∷ ys) tail_named),
    )

-- What the inner loop does with a span of rows `first..end`, of which it has come to `from`.
record IsCut (span : Span) (first end from : ℕ) (rs : List ℕ) (cut : Cut) : Type 0 where
  within : cut.from ≤ end
  after : from ≤ cut.from
  left : IsAscending end cut.rest
  kept :
      rows cut.kept ++ span_rows span.view (span.start + cut.from - first) (end - cut.from)
      ≡ kept_of from rs (span_rows span.view (span.start + from - first) (end - from))
  removed :
      rows cut.removed
      ≡ named_of from rs (span_rows span.view (span.start + from - first) (end - from))
  later : (j : ℕ) → end ≤ j → contains rs j ≡ contains cut.rest j

parted :
    (span : Span) (first end from row : ℕ)
    → first ≤ from
    → from ≤ row
    → row < end
    → span_rows span.view (span.start + from - first) (end - from)
      ≡ span_rows span.view (span.start + from - first) (row - from)
        ++ ((span.view, span.start + row - first)
            ∷ span_rows span.view (span.start + (row + 1) - first) (end - (row + 1)))
unfolding span_rows
parted span first end from row f h l =
    let count : end - from ≡ (row - from) + suc (end - (row + 1)) = omega arith in
    let at : span.start + from - first + (row - from) ≡ span.start + row - first = omega arith in
    let next : suc (span.start + row - first) ≡ span.start + (row + 1) - first = omega arith in
    ap (span_rows span.view (span.start + from - first)) count
    ∙ span_rows-append span.view (span.start + from - first) (row - from) (suc (end - (row + 1)))
    ∙ ap
        (λ a.
          span_rows span.view (span.start + from - first) (row - from)
          ++ span_rows span.view a (suc (end - (row + 1))))
        at
    ∙ ap
        (λ a.
          span_rows span.view (span.start + from - first) (row - from)
          ++ ((span.view, span.start + row - first) ∷ span_rows span.view a (end - (row + 1))))
        next

-- A span with a named row in it: what the loop leaves of it, given what it leaves of the rest.
cut_row :
    (span : Span) (first end from row : ℕ) (rs : List ℕ) (more : Cut)
    → first ≤ from
    → IsAscending from (row ∷ rs)
    → row < end
    → IsCut span first end (row + 1) rs more
    → IsCut span first end from (row ∷ rs) (record {
      kept = new_span span.view (span.start + from - first) (row - from) ∷ more.kept;
      removed = new_span span.view (span.start + row - first) 1 ∷ more.removed;
      rest = more.rest;
      from = more.from;
    })
unfolding rows span_rows
cut_row span first end from row rs more f a l c =
    let ahead = span_rows span.view (span.start + from - first) (row - from) in
    let whole = parted span first end from row f a.0 l in
    let size : row ≡ from + length ahead =
      omega (arith, a.0, length-span_rows span.view (span.start + from - first) (row - from)) in
    let next : row + 1 ≡ suc row = omega arith in
    let behind = span_rows span.view (span.start + (row + 1) - first) (end - (row + 1)) in
    let at = named_at from row rs ahead (span.view, span.start + row - first) behind size a.1 in
    record {
      within = c.within;
      after = omega (arith, c.after, a.0);
      left = c.left;
      kept =
          append_assoc ahead (rows more.kept)
            (span_rows span.view (span.start + more.from - first) (end - more.from))
          ∙ ap (λ r. ahead ++ r) (c.kept ∙ ap (λ k. kept_of k rs behind) next)
          ∙ sym at.0
          ∙ ap (kept_of from (row ∷ rs)) (sym whole);
      removed =
          ap (λ r. (span.view, span.start + row - first) ∷ r)
            (c.removed ∙ ap (λ k. named_of k rs behind) next)
          ∙ sym at.1
          ∙ ap (named_of from (row ∷ rs)) (sym whole);
      later = λ j h. contains_later row rs j (omega arith) ∙ c.later j h;
    }

cut_span-IsCut :
    (span : Span) (first end from : ℕ) (rs : List ℕ)
    → first ≤ from
    → from ≤ end
    → IsAscending from rs
    → IsCut span first end from rs (cut_span span first end from rs)
unfolding cut_span rows
cut_span-IsCut span first end from [] f l a =
    let all = span_rows span.view (span.start + from - first) (end - from) in
    record {
      within = l;
      after = omega arith;
      left = tt;
      kept = sym (keep_from_all from all);
      removed = sym (keep_from_none from all);
      later = λ j h. refl;
    }
cut_span-IsCut span first end from (row ∷ rs) f l a = elim (Bool-cases (ltb row end)) [
  | inl e ↦
      let next : suc row ≡ row + 1 = omega arith in
      rw e (
        cut_row span first end from row rs (cut_span span first end (row + 1) rs) f a (ground arith)
          (cut_span-IsCut span first end (row + 1) rs (omega (arith, a.0)) (ground arith)
            (rw (← next) a.1)))
  | inr e ↦
      let all = span_rows span.view (span.start + from - first) (end - from) in
      let past : end ≤ row = ground arith in
      let clear =
        untouched from (row ∷ rs) all (
          omega (arith, length-span_rows span.view (span.start + from - first) (end - from)),
          a.1,
        ) in
      rw e (record {
        within = l;
        after = omega arith;
        left = (past, a.1);
        kept = sym clear.0;
        removed = sym clear.1;
        later = λ j h. refl;
      })
]

-- The outer loop, over the spans whose rows stand from `first` on.
rows-cut_spans :
    (first : ℕ) (spans : List Span) (rs : List ℕ)
    → IsAscending first rs
    → (rows (cut_spans first spans rs).0 ≡ kept_of first rs (rows spans))
      × (rows (cut_spans first spans rs).1 ≡ named_of first rs (rows spans))
unfolding cut_spans rows
rows-cut_spans first [] rs a = (refl, refl)
rows-cut_spans first (span ∷ spans) rs a =
    let end = first + span.len in
    let cut = cut_span span first end first rs in
    let c = cut_span-IsCut span first end first rs (omega arith) (omega arith) a in
    let rest = rows-cut_spans end spans cut.rest c.left in
    let all = span_rows span.view span.start span.len in
    let last = new_span span.view (span.start + cut.from - first) (end - cut.from) in
    let start : span.start + first - first ≡ span.start = omega arith in
    let size : end - first ≡ span.len = omega arith in
    let whole = ap₂ (span_rows span.view) start size in
    let behind : end ≡ first + length all =
      omega (arith, length-span_rows span.view span.start span.len) in
    (
      rows-append cut.kept (last ∷ (cut_spans end spans cut.rest).0)
          ∙ sym (
              append_assoc (rows cut.kept) (span_rows last.view last.start last.len)
                (rows (cut_spans end spans cut.rest).0))
          ∙ ap₂ (λ xs ys. xs ++ ys) (c.kept ∙ ap (kept_of first rs) whole)
              (rest.0
                ∙ keep_from-within end (λ j. not (contains cut.rest j)) (λ j. not (contains rs j))
                    (rows spans) (λ j l m. ap not (sym (c.later j l)))
                ∙ ap (λ k. kept_of k rs (rows spans)) behind)
          ∙ sym (keep_from-append first (λ j. not (contains rs j)) all (rows spans)),
      rows-append cut.removed (cut_spans end spans cut.rest).1
          ∙ ap₂ (λ xs ys. xs ++ ys) (c.removed ∙ ap (named_of first rs) whole)
              (rest.1
                ∙ keep_from-within end (contains cut.rest) (contains rs) (rows spans)
                    (λ j l m. sym (c.later j l))
                ∙ ap (λ k. named_of k rs (rows spans)) behind)
          ∙ sym (keep_from-append first (contains rs) all (rows spans)),
    )

-- For ascending positions, with none twice, remove_rows leaves the rows that they do not name, in
-- their order, and returns spans that read those that they name, in theirs; positions past the end
-- name nothing.
pub rows-remove_rows :
    (l : SpanList) (rs : List ℕ)
    → IsAscending 0 rs
    → (rows (remove_rows l rs).0.spans ≡ items_not_at rs (rows l.spans))
      × (rows (remove_rows l rs).1 ≡ items_at rs (rows l.spans))
unfolding remove_rows
rows-remove_rows l rs a =
    let cut = rows-cut_spans 0 l.spans rs a in
    (rows-normalize (cut_spans 0 l.spans rs).0 ∙ cut.0, cut.1)
