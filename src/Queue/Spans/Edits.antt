-- ===== src/Queue/Spans/Edits.antt =====
-- spans.rs, `splice`, `remove` and `slice` as the same edits of the list of rows.
use music_streaming.Base.{
  ℕ, zero, suc, ◌-◌, ◌≤◌, ◌<◌, ◌≡◌, refl, sym, ap, ap₂, ◌∙◌, ◌⊎◌, min, max, true, false, List, [],
  ◌∷◌, ◌++◌, arith, append-nil, if◌then◌else◌, leb, length, take, drop, splice as list_splice,
  Bool-cases, inl, inr, take-append-drop, length-take, length-drop,
}
use music_streaming.Queue.Spans.{Span, SpanList, split_at, splice, remove_between, remove, list_len}
use music_streaming.Queue.Spans.Rows.{rows, rows-append, length-rows, take_all, drop_all}
use music_streaming.Queue.Spans.Locate.{HasEnds}
use music_streaming.Queue.Spans.Find.{list_len-rows}
use music_streaming.Queue.Spans.Normalize.{IsValid, normalize-IsValid, rows-normalize}
use music_streaming.Queue.Spans.Split.{IsSplit, split_at-IsSplit}

-- Whatever is spliced in, the list is valid after it.
pub splice-IsValid : (l : SpanList) (index : ℕ) (spans : List Span) → IsValid (splice l index spans)
unfolding splice
splice-IsValid l index spans =
    normalize-IsValid (list_splice (split_at l index).0.spans (split_at l index).1 spans)

-- On a span list whose ends are its running lengths, splice puts the rows of the given spans
-- before row index, or at the end if the list is no longer than index.
pub rows-splice :
    (l : SpanList) (index : ℕ) (spans : List Span)
    → HasEnds l
    → rows (splice l index spans).spans ≡ list_splice (rows l.spans) index (rows spans)
unfolding splice
rows-splice l index spans e =
    let s = split_at-IsSplit l index e in
    let split = (split_at l index).0.spans in
    let at = (split_at l index).1 in
    rows-normalize _
    ∙ rows-append (take at split) (spans ++ drop at split)
    ∙ ap (λ r. rows (take at split) ++ r) (rows-append spans (drop at split))
    ∙ ap₂ (λ a b. a ++ (rows spans ++ b)) s.ahead s.behind

module _ {ℓ} {A : Type ℓ} where
  take_parted : (k m : ℕ) (xs : List A) → k ≤ m → take m xs ≡ take k xs ++ take (m - k) (drop k xs)
  take_parted zero m xs h = let e : m ≡ m - 0 = omega arith in ap (λ n. take n xs) e
  take_parted (suc k) zero xs h = absurd (omega arith)
  take_parted (suc k) (suc m) [] h = take_nil (suc m - suc k)
    where
      take_nil : (n : ℕ) → [] ≡ take {A = A} n []
      take_nil zero = refl
      take_nil (suc n) = refl
  take_parted (suc k) (suc m) (x ∷ xs) h =
      let e : m - k ≡ suc m - suc k = omega arith in
      ap (λ r. x ∷ r)
        (take_parted k m xs (omega arith) ∙ ap (λ n. take k xs ++ take n (drop k xs)) e)

  drop_more : (k m : ℕ) (xs : List A) → k ≤ m → drop (m - k) (drop k xs) ≡ drop m xs
  drop_more zero m xs h = let e : m - 0 ≡ m = omega arith in ap (λ n. drop n xs) e
  drop_more (suc k) zero xs h = absurd (omega arith)
  drop_more (suc k) (suc m) [] h = drop_nil (suc m - suc k)
    where
      drop_nil : (n : ℕ) → drop {A = A} n [] ≡ []
      drop_nil zero = refl
      drop_nil (suc n) = refl
  drop_more (suc k) (suc m) (x ∷ xs) h =
      let e : suc m - suc k ≡ m - k = omega arith in
      ap (λ n. drop n (drop k xs)) e ∙ drop_more k m xs (omega arith)

  pub append_cancel_left : (xs : List A) {ys zs : List A} → xs ++ ys ≡ xs ++ zs → ys ≡ zs
  append_cancel_left [] h = h
  append_cancel_left (x ∷ xs) h = append_cancel_left xs (ground arith)

split-rows :
    {l : SpanList} {index : ℕ} {split : SpanList} {at : ℕ}
    → IsSplit l index split at
    → rows split.spans ≡ rows l.spans
split-rows {l} {index} {split} {at} s =
    ap rows (sym (take-append-drop at split.spans))
    ∙ rows-append (take at split.spans) (drop at split.spans)
    ∙ ap₂ (λ a b. a ++ b) s.ahead s.behind
    ∙ take-append-drop index (rows l.spans)

-- What two borders cut out, the second not before the first.
module _ (l head split : SpanList) (start end first last : ℕ) (s : IsSplit l start head first)
    (t : IsSplit head end split last) (order : start ≤ end)
    (inside : start ≤ length (rows l.spans)) where
  kept : (take first split.spans ≡ take first head.spans) × (first ≤ last)
  kept = t.keeps_first first s.in_range (
      omega (
        arith,
        length-rows (take first head.spans),
        ap length s.ahead,
        length-take start (rows l.spans),
      ))

  rows_before : rows (take first split.spans) ≡ take start (rows l.spans)
  rows_before = ap rows kept.0 ∙ s.ahead

  rows_between :
      rows (take (last - first) (drop first split.spans))
      ≡ take (end - start) (drop start (rows l.spans))
  rows_between = append_cancel_left (take start (rows l.spans)) (
      ap (λ r. r ++ rows (take (last - first) (drop first split.spans))) (sym rows_before)
      ∙ sym (rows-append (take first split.spans) (take (last - first) (drop first split.spans)))
      ∙ ap rows (sym (take_parted first last split.spans kept.1))
      ∙ t.ahead
      ∙ ap (take end) (split-rows s)
      ∙ take_parted start end (rows l.spans) order)

  rows_around :
      rows (take first split.spans ++ drop last split.spans)
      ≡ take start (rows l.spans) ++ drop end (rows l.spans)
  rows_around =
      rows-append (take first split.spans) (drop last split.spans)
      ∙ ap₂ (λ a b. a ++ b) rows_before (t.behind ∙ ap (drop end) (split-rows s))

module _ (l : SpanList) (start end : ℕ) where
  head : SpanList
  head = (split_at l start).0

  first : ℕ
  first = (split_at l start).1

  split : SpanList
  split = (split_at head end).0

  last : ℕ
  last = (split_at head end).1

  remove_between-IsValid : IsValid (remove_between l start end).0
  unfolding remove_between head first split last
  remove_between-IsValid = normalize-IsValid (take first split.spans ++ drop last split.spans)

  rows-remove_between :
      HasEnds l
      → start ≤ end
      → start ≤ length (rows l.spans)
      → (rows (remove_between l start end).0.spans
          ≡ take start (rows l.spans) ++ drop end (rows l.spans))
        × (rows (remove_between l start end).1 ≡ take (end - start) (drop start (rows l.spans)))
  unfolding remove_between head first split last
  rows-remove_between e order inside =
      let s = split_at-IsSplit l start e in
      let t = split_at-IsSplit head end s.ends_run in
      (
        rows-normalize (take first split.spans ++ drop last split.spans)
            ∙ rows_around l head split start end first last s t order inside,
        rows_between l head split start end first last s t order inside,
      )

-- A valid span list stays valid when any range of rows is removed.
pub remove-IsValid : (l : SpanList) (start end : ℕ) → IsValid l → IsValid (remove l start end).0
unfolding remove
remove-IsValid l start end v =
    ground (arith, v, remove_between-IsValid l start (min end (list_len l)))

module _ {ℓ} {A : Type ℓ} (start end : ℕ) (xs : List A) where
  pub take_nothing : min end (length xs) ≤ start → take (end - start) (drop start xs) ≡ []
  take_nothing h = elim (Bool-cases (leb end start)) [
    | inl e ↦ let none_left : end - start ≡ 0 = ground arith in rw none_left
    | inr e ↦
        let past : length xs ≤ start = ground arith in
        ap (take (end - start)) (drop_all start xs past) ∙ take_all (end - start) [] (omega arith)
  ]

  around_nothing : min end (length xs) ≤ start → take start xs ++ drop (max start end) xs ≡ xs
  around_nothing h = elim (Bool-cases (leb end start)) [
    | inl e ↦ let at : max start end ≡ start = ground arith in rw at (take-append-drop start xs)
    | inr e ↦
        let past : length xs ≤ start = ground arith in
        ap₂ (λ a b. a ++ b) (take_all start xs past) (drop_all (max start end) xs (omega arith))
        ∙ append-nil xs
  ]

  drop_clamped :
      start < min end (length xs) → drop (min end (length xs)) xs ≡ drop (max start end) xs
  drop_clamped h = elim (Bool-cases (leb end (length xs))) [
    | inl e ↦ let at : min end (length xs) ≡ max start end = ground arith in ap (λ n. drop n xs) at
    | inr e ↦
        drop_all (min end (length xs)) xs (ground arith)
        ∙ sym (drop_all (max start end) xs (ground arith))
  ]

  pub take_clamped :
      start < min end (length xs)
      → take (min end (length xs) - start) (drop start xs) ≡ take (end - start) (drop start xs)
  take_clamped h = elim (Bool-cases (leb end (length xs))) [
    | inl e ↦
        let at : min end (length xs) ≡ end = ground arith in
        ap (λ n. take (n - start) (drop start xs)) at
    | inr e ↦
        let size = length-drop start xs in
        take_all (min end (length xs) - start) (drop start xs) (ground (arith, size))
        ∙ sym (take_all (end - start) (drop start xs) (ground (arith, size)))
  ]

-- On a span list whose ends are its running lengths, remove leaves the rows before start and those
-- from max start end on, and returns the rows from start up to end, in their order.
pub rows-remove :
    (l : SpanList) (start end : ℕ)
    → HasEnds l
    → (rows (remove l start end).0.spans
        ≡ take start (rows l.spans) ++ drop (max start end) (rows l.spans))
      × (rows (remove l start end).1 ≡ take (end - start) (drop start (rows l.spans)))
unfolding remove rows
rows-remove l start end e = rw (list_len-rows l e) (cases (Bool-cases (leb end' start)))
  where
    end' : ℕ
    end' = min end (length (rows l.spans))

    cases :
        (leb end' start ≡ true) ⊎ (leb end' start ≡ false)
        → (rows (if leb end' start then (l, []) else remove_between l start end').0.spans
            ≡ take start (rows l.spans) ++ drop (max start end) (rows l.spans))
          × (rows (if leb end' start then (l, []) else remove_between l start end').1
              ≡ take (end - start) (drop start (rows l.spans)))
    cases (inl c) =
        let h : end' ≤ start = ground arith in
        rw c (
          sym (around_nothing start end (rows l.spans) h),
          sym (take_nothing start end (rows l.spans) h),
        )
    cases (inr c) =
        let h : start < end' = ground arith in
        let (around, taken) = rows-remove_between l start end' e (omega arith) (omega arith) in
        rw c (
          around
              ∙ ap (λ r. take start (rows l.spans) ++ r) (drop_clamped start end (rows l.spans) h),
          taken ∙ take_clamped start end (rows l.spans) h,
        )
