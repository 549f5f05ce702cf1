-- ===== src/Queue/Spans/Canonical.antt =====
-- spans.rs: a valid span list is determined by the rows that it reads.
use text.Mathlib.TextPositions.{eq_refl}
use music_streaming.Base.{
  ℕ, ◌+◌, ◌-◌, ◌<◌, ◌≡◌, ◌≢◌, refl, sym, ap, ap₂, ◌∙◌, true, some, List, [], ◌∷◌, ◌++◌, arith,
  length, get_elem?, get_elem?-append_left, get_elem?-append_right,
}
use music_streaming.Queue.Spans.{View, Span, SpanList, view_eq, running}
use music_streaming.Queue.Spans.Rows.{Row, span_rows, rows, length-span_rows, get_elem?-span_rows}
use music_streaming.Queue.Spans.Normalize.{IsNormal, IsValid}
use music_streaming.Queue.Spans.Edits.{append_cancel_left}

pub view_eq_refl : (v : View) → view_eq v v ≡ true
view_eq_refl (View.key k) = eq_refl k
view_eq_refl View.shuffle = refl

-- A row of the first span.
row_within :
    (s : Span) (spans : List Span) (i : ℕ)
    → i < s.len
    → get_elem? (rows (s ∷ spans)) i ≡ some (s.view, s.start + i)
unfolding rows
row_within s spans i h =
    get_elem?-append_left (span_rows s.view s.start s.len) (rows spans) i
      (omega (arith, length-span_rows s.view s.start s.len))
    ∙ get_elem?-span_rows s.view s.start s.len i h

-- The row behind the first span.
row_behind :
    (s : Span) (spans : List Span) → get_elem? (rows (s ∷ spans)) s.len ≡ get_elem? (rows spans) 0
unfolding rows
row_behind s spans =
    let size = length-span_rows s.view s.start s.len in
    let first : s.len - length (span_rows s.view s.start s.len) ≡ 0 = omega (arith, size) in
    get_elem?-append_right (span_rows s.view s.start s.len) (rows spans) s.len (omega (arith, size))
    ∙ ap (get_elem? (rows spans)) first

-- In a normal list the first span reads as far as the rows go on.
not_longer :
    (s : Span) (spans : List Span) (v : View) (start : ℕ)
    → IsNormal (s ∷ spans)
    → s.view ≡ v
    → s.start ≡ start
    → get_elem? (rows (s ∷ spans)) s.len ≢ some (v, start + s.len)
unfolding rows
not_longer s [] v start n ev es h =
    let no_way : ⊥ = ground (arith, row_behind s []) in absurd no_way
not_longer s (t ∷ spans) v start n ev es h =
    let positive : 0 < t.len = head_positive spans n.2 in
    let next = row_within t spans 0 positive in
    let behind = row_behind s (t ∷ spans) in
    let same : some (t.view, t.start + 0) ≡ some (v, start + s.len) = sym next ∙ sym behind ∙ h in
    let no_way : ⊥ = ground (arith, same, n.1, ev, es, view_eq_refl s.view) in absurd no_way
  where
    head_positive : (spans : List Span) → IsNormal (t ∷ spans) → 0 < t.len
    head_positive [] n = n
    head_positive (u ∷ spans) n = n.0

IsNormal-tail : (s : Span) (spans : List Span) → IsNormal (s ∷ spans) → (0 < s.len) × IsNormal spans
IsNormal-tail s [] n = (n, tt)
IsNormal-tail s (t ∷ spans) n = (n.0, n.2)

same_heads :
    (s t : Span) (ss ts : List Span)
    → IsNormal (s ∷ ss)
    → IsNormal (t ∷ ts)
    → rows (s ∷ ss) ≡ rows (t ∷ ts)
    → s ≡ t
same_heads s t ss ts n m h =
    let ps = (IsNormal-tail s ss n).0 in
    let pt = (IsNormal-tail t ts m).0 in
    let at = λ (i : ℕ). ap (λ r. get_elem? r i) h in
    let first : some (s.view, s.start + 0) ≡ some (t.view, t.start + 0) =
      sym (row_within s ss 0 ps) ∙ at 0 ∙ row_within t ts 0 pt in
    let ev : s.view ≡ t.view = ground (arith, first) in
    let es : s.start ≡ t.start = ground (arith, first) in
    let not_less : ¬ (s.len < t.len) =
      λ l. not_longer s ss t.view t.start n ev es (at s.len ∙ row_within t ts s.len l) in
    let not_more : ¬ (t.len < s.len) = λ l.
      not_longer t ts s.view s.start m (sym ev) (sym es)
        (sym (at t.len) ∙ row_within s ss t.len l) in
    let el : s.len ≡ t.len = omega arith in λ i. record { view = ev i; start = es i; len = el i }

-- Two normal lists of spans that read the same rows are the same spans.
pub rows_injective : (ss ts : List Span) → IsNormal ss → IsNormal ts → rows ss ≡ rows ts → ss ≡ ts
unfolding rows
rows_injective [] [] n m h = refl
rows_injective [] (t ∷ ts) n m h =
    let at = ap (λ (r : List Row). get_elem? r 0) h in
    let no_way : ⊥ = ground (arith, at, row_within t ts 0 (IsNormal-tail t ts m).0) in absurd no_way
rows_injective (s ∷ ss) [] n m h =
    let at = ap (λ (r : List Row). get_elem? r 0) h in
    let no_way : ⊥ = ground (arith, at, row_within s ss 0 (IsNormal-tail s ss n).0) in absurd no_way
rows_injective (s ∷ ss) (t ∷ ts) n m h =
    let same = same_heads s t ss ts n m h in
    let rest =
      append_cancel_left (span_rows s.view s.start s.len)
        (h ∙ ap (λ (u : Span). span_rows u.view u.start u.len ++ rows ts) (sym same)) in
    ap₂ (λ u us. u ∷ us) same
      (rows_injective ss ts (IsNormal-tail s ss n).1 (IsNormal-tail t ts m).1 rest)

-- Two valid span lists that read the same rows are the same spans and ends: the representation is
-- canonical.
pub IsValid-unique : (l m : SpanList) → IsValid l → IsValid m → rows l.spans ≡ rows m.spans → l ≡ m
IsValid-unique l m v w h =
    let same = rows_injective l.spans m.spans v.normal w.normal h in
    let ends : l.ends ≡ m.ends = v.ends_run ∙ ap (running 0) same ∙ sym w.ends_run in
    λ i. record { spans = same i; ends = ends i }
