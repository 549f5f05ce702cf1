-- ===== src/Queue/Spans/Split.antt =====
-- spans.rs, `split_at`: a split changes no row, and puts a border before row `index`.
use music_streaming.Base.{
  ℕ, zero, suc, ◌+◌, ◌-◌, ◌≤◌, ◌<◌, ◌≡◌, refl, sym, ap, ap₂, subst, ◌∙◌, false, List, [], ◌∷◌, ◌++◌,
  arith, append_assoc, append-nil, ◌==◌, length, take, drop, set, insert_at, Bool-cases,
  Option-cases, inl, inr, take-append, length-append,
}
use music_streaming.Queue.Spans.{Span, SpanList, new_span, running, split_span, split_at}
use music_streaming.Queue.Spans.Rows.{
  span_rows, rows, total, rows-append, length-rows, length-span_rows, span_rows_cut, running-append,
  length-running, get_elem?_middle, set_middle, insert_at_left, take_all, drop_all, take_left,
  drop_left,
}
use music_streaming.Queue.Spans.Locate.{HasEnds, seek, locate-seek}
use music_streaming.Queue.Spans.Located.{Located, seek-Located, seek-none}

take_short :
    (k : ℕ) (before r : List Span) → k ≤ length before → take k (before ++ r) ≡ take k before
take_short k before r h =
    let e : k - length before ≡ 0 = omega arith in
    take-append k before r ∙ ap (λ n. take k before ++ take n r) e ∙ append-nil _

total-take_reaches :
    (k : ℕ) (before : List Span) (s : Span) (behind : List Span)
    → length before < k
    → total before + s.len ≤ total (take k (before ++ (s ∷ behind)))
total-take_reaches zero before s behind h = absurd (omega arith)
total-take_reaches (suc k) [] s behind h = omega arith
total-take_reaches (suc k) (b ∷ before) s behind h =
    omega (arith, total-take_reaches k before s behind (omega arith))

-- A border before row `index`: the same rows, those before it in the first spans.
pub record IsSplit (l : SpanList) (index : ℕ) (split : SpanList) (at : ℕ) : Type 0 where
  pub ends_run : HasEnds split
  pub ahead : rows (take at split.spans) ≡ take index (rows l.spans)
  pub behind : rows (drop at split.spans) ≡ drop index (rows l.spans)
  pub in_range : at ≤ length split.spans
  -- The first spans stay, where they read only rows before the border.
  pub keeps_first :
      (k : ℕ)
      → k ≤ length l.spans
      → total (take k l.spans) ≤ index
      → (take k split.spans ≡ take k l.spans) × (k ≤ at)

abbrev list_of : List Span → SpanList
list_of spans = record { spans = spans; ends = running 0 spans }

module _ (before : List Span) (s : Span) (behind : List Span) (offset index : ℕ)
    (within : offset < s.len) (place : index ≡ total before + offset) where
  parts : List Span
  parts = before ++ (s ∷ behind)

  before_cut : (k : ℕ) → total (take k parts) ≤ index → k ≤ length before
  unfolding parts
  before_cut k h = grind (arith, total-take_reaches k before s behind)

  cut_rows :
      rows parts
      ≡ (rows before ++ span_rows s.view s.start offset)
        ++ (span_rows s.view (s.start + offset) (s.len - offset) ++ rows behind)
  unfolding parts rows
  cut_rows =
      rows-append before (s ∷ behind)
      ∙ ap (λ r. rows before ++ (r ++ rows behind))
          (span_rows_cut s.view s.start s.len offset (omega arith))
      ∙ simp append_assoc

  cut_length : index ≡ length (rows before ++ span_rows s.view s.start offset)
  cut_length = omega (
    arith,
    length-append (rows before) (span_rows s.view s.start offset),
    length-rows before,
    length-span_rows s.view s.start offset,
  )

  take_cut : take index (rows parts) ≡ rows before ++ span_rows s.view s.start offset
  take_cut = rw cut_rows (take_left index _ _ cut_length)

  drop_cut :
      drop index (rows parts) ≡ span_rows s.view (s.start + offset) (s.len - offset) ++ rows behind
  drop_cut = rw cut_rows (drop_left index _ _ cut_length)

  head : Span
  head = record s { len = offset }

  tail : Span
  tail = new_span s.view (s.start + offset) (s.len - offset)

  halves : List Span
  halves = before ++ (head ∷ (tail ∷ behind))

  split_spans : insert_at (set parts (length before) head) (length before + 1) tail ≡ halves
  unfolding parts halves
  split_spans =
      let after_head : length before + 1 ≡ length (before ++ (head ∷ [])) =
        omega (arith, length-append before (head ∷ [])) in
      rw (set_middle before s behind head) (
        rw (← append_assoc before (head ∷ []) behind) (
          insert_at_left (length before + 1) (before ++ (head ∷ [])) behind tail after_head
          ∙ append_assoc before (head ∷ []) (tail ∷ behind)))

  split_ends : insert_at (running 0 parts) (length before) index ≡ running 0 halves
  unfolding parts halves head tail
  split_ends =
      let at = 0 + total before in
      let border : index ≡ at + offset = omega arith in
      let end : at + s.len ≡ at + offset + (s.len - offset) = omega arith in
      rw (running-append 0 before (s ∷ behind), running-append 0 before (head ∷ (tail ∷ behind)))
        (insert_at_left (length before) (running 0 before) _ index (sym (length-running 0 before))
          ∙ ap₂ (λ b e. running 0 before ++ (b ∷ (e ∷ running e behind))) border end)

  split_span-halves :
      (offset == 0) ≡ false
      → split_span (list_of parts) index (length before) offset
        ≡ (list_of halves, length before + 1)
  unfolding split_span parts head tail
  split_span-halves e =
      rw (e, get_elem?_middle before s behind)
        (ap₂ (λ spans ends. (record { spans = spans; ends = ends }, length before + 1)) split_spans
          split_ends)

  halves-IsSplit : IsSplit (list_of parts) index (list_of halves) (length before + 1)
  unfolding halves head tail rows parts
  halves-IsSplit =
      let border : length before + 1 ≡ length (before ++ (head ∷ [])) =
        omega (arith, length-append before (head ∷ [])) in
      let parted = sym (append_assoc before (head ∷ []) (tail ∷ behind)) in
      record {
        ends_run = refl;
        ahead =
            ap (λ r. rows (take (length before + 1) r)) parted
            ∙ ap rows (take_left (length before + 1) (before ++ (head ∷ [])) (tail ∷ behind) border)
            ∙ rows-append before (head ∷ [])
            ∙ ap (λ r. rows before ++ r) (append-nil _)
            ∙ sym take_cut;
        behind =
            ap (λ r. rows (drop (length before + 1) r)) parted
            ∙ ap rows (drop_left (length before + 1) (before ++ (head ∷ [])) (tail ∷ behind) border)
            ∙ sym drop_cut;
        in_range = omega (arith, length-append before (head ∷ (tail ∷ behind)));
        keeps_first = λ k _ h.
            let short = before_cut k h in
            (take_short k before _ short ∙ sym (take_short k before _ short), omega arith);
      }

  whole-IsSplit : offset ≡ 0 → IsSplit (list_of parts) index (list_of parts) (length before)
  unfolding parts
  whole-IsSplit e =
      let border : index ≡ length (rows before) = omega (arith, length-rows before) in
      let apart = rows-append before (s ∷ behind) in
      record {
        ends_run = refl;
        ahead =
            ap rows (take_left (length before) before (s ∷ behind) refl)
            ∙ sym
                (ap (take index) apart ∙ take_left index (rows before) (rows (s ∷ behind)) border);
        behind =
            ap rows (drop_left (length before) before (s ∷ behind) refl)
            ∙ sym
                (ap (drop index) apart ∙ drop_left index (rows before) (rows (s ∷ behind)) border);
        in_range = omega (arith, length-append before (s ∷ behind));
        keeps_first = λ k _ h. (refl, before_cut k h);
      }

  split_span-IsSplit :
      let r = split_span (list_of parts) index (length before) offset in
      IsSplit (list_of parts) index r.0 r.1
  unfolding split_span parts
  split_span-IsSplit = elim (Bool-cases (offset == 0)) [
    | inl e ↦ rw (e, split_span) (whole-IsSplit (ground arith))
    | inr e ↦ rw (split_span-halves e) halves-IsSplit
  ]

IsSplit-Located :
    (l : SpanList) (index : ℕ) {i offset : ℕ}
    → HasEnds l
    → Located index l.spans i offset
    → IsSplit l index (split_span l index i offset).0 (split_span l index i offset).1
unfolding parts
IsSplit-Located l index {i} {offset} e at =
    subst
      (λ (x : SpanList × ℕ).
        IsSplit x.0 index (split_span x.0 index x.1 offset).0 (split_span x.0 index x.1 offset).1)
      same (split_span-IsSplit at.before at.span at.behind offset index at.within at.ahead)
  where
    whole : l.spans ≡ parts at.before at.span at.behind offset index at.within at.ahead
    whole = at.parts

    same :
        ◌≡◌ {A = SpanList × ℕ}
          (
            list_of (parts at.before at.span at.behind offset index at.within at.ahead),
            length at.before,
          )
          (l, i)
    same =
        sym (ap₂ (λ spans k. (list_of spans, k)) whole at.place)
        ∙ ap (λ ends. (record { spans = l.spans; ends = ends }, i)) (sym e)

-- On a span list whose ends are its running lengths, split_at keeps them so, changes no row,
-- returns a border with the rows before index in the spans before it and the others in those
-- behind, and leaves as they are the first spans that read only rows before index.
pub split_at-IsSplit :
    (l : SpanList) (index : ℕ)
    → HasEnds l
    → IsSplit l index (split_at l index).0 (split_at l index).1
unfolding split_at rows
split_at-IsSplit l index e = elim (Option-cases (seek index l.spans)) [
  | inl missing ↦
      rw (locate-seek l index e ∙ missing, split_at) (past (seek-none index l.spans missing))
  | inr ((i, offset), found) ↦
      rw (locate-seek l index e ∙ found, split_at)
        (IsSplit-Located l index e (seek-Located index l.spans found))
]
  where
    past : total l.spans ≤ index → IsSplit l index l (length l.spans)
    past h = record {
      ends_run = e;
      ahead =
          ap rows (take_all (length l.spans) l.spans (omega arith))
          ∙ sym (take_all index (rows l.spans) (omega (arith, length-rows l.spans)));
      behind =
          ap rows (drop_all (length l.spans) l.spans (omega arith))
          ∙ sym (drop_all index (rows l.spans) (omega (arith, length-rows l.spans)));
      in_range = omega arith;
      keeps_first = λ k inside _. (refl, inside);
    }
