-- ===== src/Queue/Spans/Normalize.antt =====
-- spans.rs, `normalize`: it keeps the rows, and leaves no empty span and no mergeable neighbours.
use text.Mathlib.TextEquality.{eq_iff}
use mathlib.Core.List.{append-nil}
use music_streaming.Base.{
  ◌+◌, ◌<◌, ◌≡◌, refl, sym, ap, ap₂, ◌∙◌, true, false, List, [], ◌∷◌, ◌++◌, arith, append_assoc,
  ltb, Bool-cases, inl, inr,
}
use music_streaming.Queue.Spans.{
  View, Span, SpanList, view_eq, continues, merge_last, merge_all, normalize,
}
use music_streaming.Queue.Spans.Rows.{span_rows, rows, span_rows-append}
use music_streaming.Queue.Spans.Locate.{HasEnds}

pub view_eq→eq : (v w : View) → view_eq v w ≡ true → v ≡ w
view_eq→eq (View.key j) (View.key k) h = ap View.key ((eq_iff j k).0 h)
view_eq→eq View.shuffle View.shuffle h = refl
view_eq→eq (View.key j) View.shuffle h = cc
view_eq→eq View.shuffle (View.key k) h = cc

-- No empty span, and no neighbours that could be one span.
abbrev pub IsNormal : List Span → Type 0
IsNormal [] = Unit
IsNormal (s ∷ []) = 0 < s.len
IsNormal (s ∷ (t ∷ spans)) = (0 < s.len) × (continues s t ≡ false) × IsNormal (t ∷ spans)

-- The invariant of a span list.
pub record IsValid (l : SpanList) : Type 0 where
  pub ends_run : HasEnds l
  pub normal : IsNormal l.spans

merge_last-IsNormal :
    (merged : List Span) (s : Span) → IsNormal merged → 0 < s.len → IsNormal (merge_last merged s)
unfolding merge_last
merge_last-IsNormal [] s n h = h
merge_last-IsNormal (p ∷ []) s n h = ground arith
merge_last-IsNormal (p ∷ (q ∷ [])) s n h = ground arith
merge_last-IsNormal (p ∷ (q ∷ (t ∷ r))) s n h =
    (n.0, n.1, merge_last-IsNormal (q ∷ (t ∷ r)) s n.2 h)

rows-grown :
    (p s : Span)
    → continues p s ≡ true
    → span_rows p.view p.start (p.len + s.len)
      ≡ span_rows p.view p.start p.len ++ span_rows s.view s.start s.len
rows-grown p s h =
    let same : p.view ≡ s.view = view_eq→eq p.view s.view (ground arith) in
    let next : p.start + p.len ≡ s.start = ground arith in
    span_rows-append p.view p.start p.len s.len
    ∙ ap₂ (λ v start. span_rows p.view p.start p.len ++ span_rows v start s.len) same next

rows-merge_last :
    (merged : List Span) (s : Span)
    → rows (merge_last merged s) ≡ rows merged ++ span_rows s.view s.start s.len
unfolding merge_last rows
rows-merge_last [] s = append-nil _
rows-merge_last (p ∷ []) s = elim (Bool-cases (continues p s)) [
  | inl e ↦ rw e (simp append-nil (rows-grown p s e))
  | inr e ↦ rw e (simp append-nil)
]
rows-merge_last (p ∷ (q ∷ r)) s = rw (rows-merge_last (q ∷ r) s) (
    sym (
      append_assoc (span_rows p.view p.start p.len) (rows (q ∷ r))
        (span_rows s.view s.start s.len)))

merge_all-IsNormal :
    (merged spans : List Span) → IsNormal merged → IsNormal (merge_all merged spans)
unfolding merge_all
merge_all-IsNormal merged [] n = n
merge_all-IsNormal merged (s ∷ spans) n = elim (Bool-cases (ltb 0 s.len)) [
  | inl e ↦ rw e (
      merge_all-IsNormal (merge_last merged s) spans
        (merge_last-IsNormal merged s n (ground arith)))
  | inr e ↦ rw e (merge_all-IsNormal merged spans n)
]

rows-merge_all :
    (merged spans : List Span) → rows (merge_all merged spans) ≡ rows merged ++ rows spans
unfolding merge_all rows span_rows
rows-merge_all merged [] = sym (append-nil _)
rows-merge_all merged (s ∷ spans) = elim (Bool-cases (ltb 0 s.len)) [
  | inl e ↦ rw e (
      rows-merge_all (merge_last merged s) spans
      ∙ rw (rows-merge_last merged s)
          (append_assoc (rows merged) (span_rows s.view s.start s.len) (rows spans)))
  | inr e ↦
      let none_here : s.len ≡ 0 = ground arith in rw e (rows-merge_all merged spans ∙ rw none_here)
]

-- Whatever spans are normalized, the result is valid: its ends are the running lengths, no span is
-- empty, and no span continues the one before.
pub normalize-IsValid : (spans : List Span) → IsValid (normalize spans)
unfolding normalize
normalize-IsValid spans = record { ends_run = refl; normal = merge_all-IsNormal [] spans tt }

-- Normalizing spans changes none of the rows that they read.
pub rows-normalize : (spans : List Span) → rows (normalize spans).spans ≡ rows spans
unfolding normalize rows
rows-normalize spans = rows-merge_all [] spans
