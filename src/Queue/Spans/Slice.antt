-- ===== src/Queue/Spans/Slice.antt =====
-- spans.rs, `slice`: it reads the rows in a range.
use music_streaming.Base.{
  ℕ, suc, ◌+◌, ◌-◌, ◌≤◌, ◌≡◌, refl, sym, ap, ap₂, ◌∙◌, ◌⊎◌, min, max, true, false, none, some, List,
  [], ◌∷◌, ◌++◌, arith, if◌then◌else◌, leb, ltb, length, take, drop, get_or, Bool-cases,
  Option-cases, inl, inr, take-append, drop-append, append_assoc, length-append,
}
use music_streaming.Queue.Spans.{
  View, Span, SpanList, new_span, running, start_of, slice_from, slice_upto, slice,
}
use music_streaming.Queue.Spans.Rows.{
  Row, span_rows, rows, total, total-append, rows-append, length-rows, length-span_rows, take_left,
  drop_left, take_all, drop_all, span_rows_cut,
}
use music_streaming.Queue.Spans.Locate.{
  HasEnds, start_of-after, start_after, start_after_shift, seek, locate-seek,
}
use music_streaming.Queue.Spans.Located.{Located, seek-Located, seek-none}
use music_streaming.Queue.Spans.Find.{list_len-rows}
use music_streaming.Queue.Spans.Edits.{take_nothing, take_clamped}

-- The loop of `slice`, where the first of the spans starts at row `from`.
slice_walk : ℕ → ℕ → ℕ → List Span → List Span
slice_walk start end from [] = []
slice_walk start end from (span ∷ spans) =
    let more = slice_walk start end (from + span.len) spans in
    let skip = start - from in
    let taken = (min (from + span.len) end - from) - skip in
    if leb end from then [] else new_span span.view (span.start + skip) taken ∷ more

get_or-running :
    (from : ℕ) (before : List Span) (s : Span) (behind : List Span)
    → get_or (running from (before ++ (s ∷ behind))) (length before) 0 ≡ from + total before + s.len
get_or-running from [] s behind = omega arith
get_or-running from (b ∷ before) s behind =
    omega (arith, get_or-running (from + b.len) before s behind)

start_after-running :
    (from : ℕ) (before behind : List Span)
    → start_after from (running from (before ++ behind)) (length before) ≡ from + total before
start_after-running from [] behind = omega arith
start_after-running from (b ∷ before) behind =
    let next =
      start_after_shift (from + b.len) (running (from + b.len) (before ++ behind))
        (length before) in
    omega (arith, next, start_after-running (from + b.len) before behind)

slice_from-walk :
    (l : SpanList) (start end : ℕ) (before behind : List Span)
    → HasEnds l
    → l.spans ≡ before ++ behind
    → slice_from l start end (length before) behind ≡ slice_walk start end (total before) behind
unfolding slice_from slice_walk
slice_from-walk l start end before [] e p = refl
slice_from-walk l start end before (s ∷ behind) e p = rw (
  from,
  to,
  rest (
      slice_from-walk l start end (before ++ (s ∷ [])) behind e
        (p ∙ sym (append_assoc before (s ∷ []) behind))),
)
  where
    ends : l.ends ≡ running 0 (before ++ (s ∷ behind))
    ends = e ∙ ap (running 0) p

    from : start_of l (length before) ≡ total before
    from = omega (
      arith,
      start_of-after l (length before),
      ap (λ r. start_after 0 r (length before)) ends,
      start_after-running 0 before (s ∷ behind),
    )

    to : get_or l.ends (length before) 0 ≡ total before + s.len
    to = omega (arith, ap (λ r. get_or r (length before) 0) ends, get_or-running 0 before s behind)

    upto : List Span
    upto = before ++ (s ∷ [])

    count : suc (length before) ≡ length upto
    count = omega (arith, length-append before (s ∷ []))

    sum : total upto ≡ total before + s.len
    sum = omega (arith, total-append before (s ∷ []))

    rest :
        slice_from l start end (length upto) behind ≡ slice_walk start end (total upto) behind
        → slice_from l start end (suc (length before)) behind
          ≡ slice_walk start end (total before + s.len) behind
    rest more =
        ap (λ i. slice_from l start end i behind) count
        ∙ more
        ∙ ap (λ n. slice_walk start end n behind) sum

take-span_rows :
    (v : View) (start len n : ℕ) → take n (span_rows v start len) ≡ span_rows v start (min n len)
take-span_rows v start len n = elim (Bool-cases (leb len n)) [
  | inl e ↦
      let size = length-span_rows v start len in
      let all : len ≡ min n len = ground arith in
      take_all n (span_rows v start len) (ground (arith, size)) ∙ ap (span_rows v start) all
  | inr e ↦
      let some_only : n ≡ min n len = ground arith in
      ap (take n) (span_rows_cut v start len n (ground arith))
      ∙ take_left n (span_rows v start n) (span_rows v (start + n) (len - n))
          (sym (length-span_rows v start n))
      ∙ ap (span_rows v start) some_only
]

pub drop-span_rows :
    (v : View) (start len n : ℕ)
    → drop n (span_rows v start len) ≡ span_rows v (start + n) (len - n)
unfolding span_rows
drop-span_rows v start len n = elim (Bool-cases (leb len n)) [
  | inl e ↦
      let size = length-span_rows v start len in
      let none_left : len - n ≡ 0 = ground arith in
      rw none_left (drop_all n (span_rows v start len) (ground (arith, size)))
  | inr e ↦
      ap (drop n) (span_rows_cut v start len n (ground arith))
      ∙ drop_left n (span_rows v start n) (span_rows v (start + n) (len - n))
          (sym (length-span_rows v start n))
]

rows-slice_walk :
    (start end from : ℕ) (spans : List Span)
    → rows (slice_walk start end from spans)
      ≡ take (end - max start from) (drop (start - from) (rows spans))
unfolding slice_walk rows
rows-slice_walk start end from [] = sym (
    ap (take (end - max start from)) (drop_all (start - from) [] (omega arith))
    ∙ take_all (end - max start from) [] (omega arith))
rows-slice_walk start end from (s ∷ spans) = elim (Bool-cases (leb end from)) [
  | inl e ↦ let past : end - max start from ≡ 0 = ground arith in rw (e, past)
  | inr e ↦
      rw e (ap₂ (λ a b. a ++ b) first (rows-slice_walk start end (from + s.len) spans) ∙ sym parted)
]
  where
    skip : ℕ
    skip = start - from

    room : ℕ
    room = end - max start from

    here : List Row
    here = span_rows s.view (s.start + skip) (s.len - skip)

    parted :
        take room (drop skip (span_rows s.view s.start s.len ++ rows spans))
        ≡ take room here
          ++ take (end - max start (from + s.len)) (drop (start - (from + s.len)) (rows spans))
    parted =
        let all = span_rows s.view s.start s.len in
        let past : skip - length all ≡ start - (from + s.len) =
          omega (arith, length-span_rows s.view s.start s.len) in
        let over : room - length here ≡ end - max start (from + s.len) =
          omega (arith, length-span_rows s.view (s.start + skip) (s.len - skip)) in
        ap (take room) (
          drop-append skip all (rows spans)
          ∙ ap₂ (λ a n. a ++ drop n (rows spans)) (drop-span_rows s.view s.start s.len skip) past)
        ∙ take-append room here (drop (start - (from + s.len)) (rows spans))
        ∙ ap (λ n. take room here ++ take n (drop (start - (from + s.len)) (rows spans))) over

    first :
        span_rows s.view (s.start + skip) ((min (from + s.len) end - from) - skip) ≡ take room here
    first =
        let count : (min (from + s.len) end - from) - skip ≡ min room (s.len - skip) =
          omega arith in
        ap (span_rows s.view (s.start + skip)) count
        ∙ sym (take-span_rows s.view (s.start + skip) (s.len - skip) room)

-- From a located span on.
rows-slice_from :
    (l : SpanList) (start end : ℕ) {i offset : ℕ}
    → HasEnds l
    → Located start l.spans i offset
    → rows (slice_from l start end i (drop i l.spans))
      ≡ take (end - start) (drop start (rows l.spans))
rows-slice_from l start end {i} {offset} e at =
    let before = at.before in
    let behind = at.span ∷ at.behind in
    let rest : drop i l.spans ≡ behind =
      ap (drop i) at.parts ∙ drop_left i before behind at.place in
    let from : max start (total before) ≡ start = omega (arith, at.ahead) in
    let ahead : take (end - start) (drop start (rows l.spans))
        ≡ take (end - start) (drop (start - total before) (rows behind)) =
      ap (take (end - start)) (
        ap (λ r. drop start (rows r)) at.parts
        ∙ ap (drop start) (rows-append before behind)
        ∙ drop-append start (rows before) (rows behind)
        ∙ ap₂ (λ a n. a ++ drop n (rows behind))
            (drop_all start (rows before) (omega (arith, length-rows before, at.ahead)))
            (omega (arith, length-rows before))) in
    ap rows (
      ap₂ (λ k r. slice_from l start end k r) at.place rest
      ∙ slice_from-walk l start end before behind e at.parts)
    ∙ rows-slice_walk start end (total before) behind
    ∙ ap (λ n. take (end - n) (drop (start - total before) (rows behind))) from
    ∙ sym ahead

rows-slice_upto :
    (l : SpanList) (start end : ℕ)
    → HasEnds l
    → end ≤ length (rows l.spans)
    → rows (slice_upto l start end) ≡ take (end - start) (drop start (rows l.spans))
unfolding slice_upto rows
rows-slice_upto l start end e h =
    cases (Bool-cases (ltb start end)) (Option-cases (seek start l.spans))
  where
    cases :
        (ltb start end ≡ true) ⊎ (ltb start end ≡ false)
        → (seek start l.spans ≡ none) ⊎ ((a : ℕ × ℕ) × (seek start l.spans ≡ some a))
        → rows (slice_upto l start end) ≡ take (end - start) (drop start (rows l.spans))
    cases (inr c) _ = rw c (sym (take_nothing start end (rows l.spans) (ground arith)))
    cases (inl c) (inl missing) =
        let past = seek-none start l.spans missing in
        let no_way : ⊥ = ground (arith, length-rows l.spans, past) in absurd no_way
    cases (inl c) (inr (at, found)) =
        rw (c, locate-seek l start e ∙ found)
          (rows-slice_from l start end e (seek-Located start l.spans found))

-- On a span list whose ends are its running lengths, slice reads the rows from start up to end,
-- those that there are.
pub rows-slice :
    (l : SpanList) (start end : ℕ)
    → HasEnds l
    → rows (slice l start end) ≡ take (end - start) (drop start (rows l.spans))
unfolding slice
rows-slice l start end e =
    ap (λ n. rows (slice_upto l start (min end n))) (list_len-rows l e)
    ∙ rows-slice_upto l start (min end (length (rows l.spans))) e (omega arith)
    ∙ clamped (Bool-cases (ltb start (min end (length (rows l.spans)))))
  where
    clamped :
        (ltb start (min end (length (rows l.spans))) ≡ true)
          ⊎ (ltb start (min end (length (rows l.spans))) ≡ false)
        → take (min end (length (rows l.spans)) - start) (drop start (rows l.spans))
          ≡ take (end - start) (drop start (rows l.spans))
    clamped (inl c) = take_clamped start end (rows l.spans) (ground arith)
    clamped (inr c) =
        let none_left : min end (length (rows l.spans)) - start ≡ 0 = ground arith in
        rw none_left (sym (take_nothing start end (rows l.spans) (ground arith)))
