-- ===== src/Queue/UpNext/Rows.antt =====
-- edit.rs: the edits against the rows of Up Next, the Manual Queue's and then the context's from the
-- cursor on.
use music_streaming.Base.{
  ℕ, suc, ◌+◌, ◌-◌, ◌≤◌, ◌<◌, ◌≡◌, refl, sym, ap, ap₂, ◌∙◌, true, false, ◌&&◌, some, List, [], ◌∷◌,
  ◌++◌, arith, length, drop, get_elem?, leb, ltb, Bool-cases, inl, inr, drop-append, length-append,
  length-drop, max, drop-drop, get_elem?-drop, get_elem?-append_left, Option-bind,
}
use music_streaming.Queue.Spans.{Span, SpanList, list_len, is_empty, remove}
use music_streaming.Queue.Spans.Rows.{Row, rows, length-rows, total, drop_all}
use music_streaming.Queue.Spans.Locate.{HasEnds, get-get_elem?}
use music_streaming.Queue.Spans.Find.{list_len-rows}
use music_streaming.Queue.Spans.Normalize.{IsValid, IsNormal}
use music_streaming.Queue.Spans.Edits.{rows-remove, remove-IsValid}
use music_streaming.Queue.State.{ItemId, QueueState}
use music_streaming.Queue.Cleanup.{clean_up}
use music_streaming.Queue.Read.{up_next_len, item_of, item_at, find_item}
use music_streaming.Queue.History.{record_plays, trim_history}
use music_streaming.Queue.UpNext.{
  is_all, jump, jump_to, next, advance, restart, record_and_clean, current_plays,
}
use music_streaming.Queue.WellFormed.{IsWellFormed}

empty_rows : (l : SpanList) → is_empty l ≡ true → rows l.spans ≡ []
unfolding is_empty rows
empty_rows l e = spanless l.spans e
  where
    spanless :
        (spans : List Span) → elim spans [ [] ↦ true | _ ∷ _ ↦ false ] ≡ true → rows spans ≡ []
    spanless [] e = refl
    spanless (s ∷ spans) e = cc

filled_rows : (l : SpanList) → IsValid l → is_empty l ≡ false → 0 < length (rows l.spans)
unfolding is_empty
filled_rows l v e = omega (arith, length-rows l.spans, spanned l.spans v.normal e)
  where
    spanned :
        (spans : List Span)
        → IsNormal spans
        → elim spans [ [] ↦ true | _ ∷ _ ↦ false ] ≡ false
        → 0 < total spans
    spanned [] n e = absurd (let no_way : ⊥ = cc in no_way)
    spanned (s ∷ []) n e = omega (arith, n)
    spanned (s ∷ (t ∷ spans)) n e = omega (arith, n.0)

drop_front : (n : ℕ) (xs ys : List Row) → n ≤ length xs → drop n (xs ++ ys) ≡ drop n xs ++ ys
drop_front n xs ys h =
    let none_left : n - length xs ≡ 0 = omega arith in
    drop-append n xs ys ∙ ap (λ k. drop n xs ++ drop k ys) none_left

drop_through :
    (n : ℕ) (xs ys : List Row) → length xs ≤ n → drop n (xs ++ ys) ≡ drop (n - length xs) ys
drop_through n xs ys h =
    drop-append n xs ys ∙ ap (λ r. r ++ drop (n - length xs) ys) (drop_all n xs h)

-- The rows of a list without its first ones.
rows-remove_front :
    (l : SpanList) (n : ℕ) → HasEnds l → rows (remove l 0 n).0.spans ≡ drop n (rows l.spans)
rows-remove_front l n e =
    let front : max 0 n ≡ n = omega arith in
    (rows-remove l 0 n e).0 ∙ ap (λ k. drop k (rows l.spans)) front

jumped_manual :
    (manual : SpanList) (rest : List Row) (index : ℕ)
    → IsValid manual
    → index < list_len manual
    → rows (remove (remove manual 0 index).0 0 1).0.spans ++ rest
      ≡ drop (suc index) (rows manual.spans ++ rest)
jumped_manual manual rest index v l =
    let inside : suc index ≤ length (rows manual.spans) =
      omega (arith, list_len-rows manual v.ends_run) in
    let next : index + 1 ≡ suc index = omega arith in
    ap (λ r. r ++ rest)
      (rows-remove_front (remove manual 0 index).0 1 (remove-IsValid manual 0 index v).ends_run
        ∙ ap (drop 1) (rows-remove_front manual index v.ends_run)
        ∙ drop-drop 1 index (rows manual.spans)
        ∙ ap (λ k. drop k (rows manual.spans)) next)
    ∙ sym (drop_front (suc index) (rows manual.spans) rest inside)

jumped_context :
    (manual order : SpanList) (cursor index : ℕ)
    → HasEnds manual
    → list_len manual ≤ index
    → rows (remove manual 0 (list_len manual)).0.spans
        ++ drop (cursor + (index - list_len manual + 1)) (rows order.spans)
      ≡ drop (suc index) (rows manual.spans ++ drop cursor (rows order.spans))
jumped_context manual order cursor index e l =
    let size = list_len-rows manual e in
    let past : length (rows manual.spans) ≤ suc index = omega (arith, size) in
    let steps : cursor + (index - list_len manual + 1)
        ≡ cursor + (suc index - length (rows manual.spans)) =
      omega (arith, size) in
    ap₂ (λ r k. r ++ drop k (rows order.spans))
      (rows-remove_front manual (list_len manual) e
        ∙ drop_all (list_len manual) (rows manual.spans) (omega (arith, size)))
      steps
    ∙ sym (drop-drop (suc index - length (rows manual.spans)) cursor (rows order.spans))
    ∙ sym (drop_through (suc index) (rows manual.spans) (drop cursor (rows order.spans)) past)

module _ {F : Type 0} where
  abbrev pub up_next_rows : QueueState F → List Row
  up_next_rows s = rows s.manual.spans ++ drop s.cursor (rows s.order.spans)

  -- In a well-formed state up_next_len is the count of the rows of the Manual Queue and of those
  -- of the context from the cursor on.
  pub up_next_len-rows :
      (s : QueueState F) → IsWellFormed s → up_next_len s ≡ length (up_next_rows s)
  unfolding up_next_len
  up_next_len-rows s w = omega (
    arith,
    list_len-rows s.manual w.manual.ends_run,
    list_len-rows s.order w.order.ends_run,
    length-append (rows s.manual.spans) (drop s.cursor (rows s.order.spans)),
    length-drop s.cursor (rows s.order.spans),
  )

  -- Recording plays and cleaning up touch neither Up Next nor what plays.
  record_and_clean-current :
      (s : QueueState F) (plays : List Span)
      → (up_next_rows (record_and_clean s plays) ≡ up_next_rows s)
        × ((record_and_clean s plays).current ≡ s.current)
  unfolding record_and_clean record_plays trim_history clean_up
  record_and_clean-current s plays = elim (Bool-cases (record_plays s plays).1) [
    | inl e ↦ rw e (refl, refl)
    | inr e ↦ rw e (refl, refl)
  ]

  item_at-row :
      (s : QueueState F) (l : SpanList) (index : ℕ)
      → HasEnds l
      → item_at s l index
        ≡ Option-bind (get_elem? (rows l.spans) index) (λ row. item_of s row.0 row.1)
  unfolding item_at
  item_at-row s l index e =
      ap (λ o. Option-bind o (λ (row : Row). item_of s row.0 row.1)) (get-get_elem? l index e)

  -- The first row becomes current.
  advance-rows :
      (s : QueueState F)
      → IsWellFormed s
      → (up_next_rows (advance s) ≡ drop 1 (up_next_rows s))
        × ((advance s).current
            ≡ Option-bind (get_elem? (up_next_rows s) 0) (λ row. item_of s row.0 row.1))
  unfolding advance
  advance-rows s w = elim (Bool-cases (is_empty s.manual)) [
    | inl e ↦ rw e (elim (Bool-cases (ltb s.cursor (list_len s.order))) [
      | inl l ↦ rw l (
          rw (empty_rows s.manual e) (
            sym (drop-drop 1 s.cursor (rows s.order.spans)),
            item_at-row s s.order s.cursor w.order.ends_run
                ∙ ap (λ o. Option-bind o (λ (row : Row). item_of s row.0 row.1)) at_cursor,
          ))
      | inr l ↦ rw l (rw (empty_rows s.manual e, past l) (refl, refl))
    ])
    | inr e ↦ rw e (manual e)
  ]
    where
      at_cursor :
          get_elem? (rows s.order.spans) s.cursor ≡ get_elem? (drop s.cursor (rows s.order.spans)) 0
      at_cursor =
          let e : s.cursor ≡ s.cursor + 0 = omega arith in
          ap (get_elem? (rows s.order.spans)) e
          ∙ sym (get_elem?-drop s.cursor 0 (rows s.order.spans))

      past : ltb s.cursor (list_len s.order) ≡ false → drop s.cursor (rows s.order.spans) ≡ []
      past l =
          drop_all s.cursor (rows s.order.spans)
            (ground (arith, list_len-rows s.order w.order.ends_run))

      manual :
          is_empty s.manual ≡ false
          → (rows (remove s.manual 0 1).0.spans ++ drop s.cursor (rows s.order.spans)
              ≡ drop 1 (up_next_rows s))
            × (item_at s s.manual 0
                ≡ Option-bind (get_elem? (up_next_rows s) 0) (λ row. item_of s row.0 row.1))
      manual e =
          let some_row = filled_rows s.manual w.manual e in
          let none_left : 1 - length (rows s.manual.spans) ≡ 0 = omega (arith, some_row) in
          let rest = drop s.cursor (rows s.order.spans) in
          (
            ap (λ r. r ++ rest) (rows-remove s.manual 0 1 w.manual.ends_run).0
                ∙ sym (
                    drop-append 1 (rows s.manual.spans) rest
                    ∙ ap (λ k. drop 1 (rows s.manual.spans) ++ drop k rest) none_left),
            item_at-row s s.manual 0 w.manual.ends_run
                ∙ ap (λ o. Option-bind o (λ (row : Row). item_of s row.0 row.1))
                    (sym (get_elem?-append_left (rows s.manual.spans) rest 0 some_row)),
          )

  restart-kept :
      (s : QueueState F)
      → IsWellFormed s
      → (up_next_len s ≡ 0 → is_all s.repeat ≡ false)
      → restart s ≡ s
  unfolding restart up_next_len
  restart-kept s w h =
      elim (Bool-cases
        (is_empty s.manual && (leb (list_len s.order) s.cursor && is_all s.repeat))) [
          | inl e ↦
              let at_end : list_len s.order ≤ s.cursor = ground arith in
              let alone : rows s.manual.spans ≡ [] = empty_rows s.manual (ground arith) in
              let none_left : list_len s.manual + (list_len s.order - s.cursor) ≡ 0 =
                omega (arith, list_len-rows s.manual w.manual.ends_run, ap length alone) in
              absurd (let no_way : ⊥ = ground (arith, h none_left) in no_way)
          | inr e ↦ rw e refl
        ]

  -- In a well-formed state where Up Next is not empty or repeat is not All, next takes the first
  -- row off Up Next and makes its item current, and with Up Next empty leaves it empty and nothing
  -- current.
  pub next-up_next :
      (s : QueueState F)
      → IsWellFormed s
      → (up_next_len s ≡ 0 → is_all s.repeat ≡ false)
      → (up_next_rows (next s) ≡ drop 1 (up_next_rows s))
        × ((next s).current
            ≡ Option-bind (get_elem? (up_next_rows s) 0) (λ row. item_of s row.0 row.1))
  unfolding next
  next-up_next s w h =
      let same = restart-kept s w h in
      let (rows_kept, current_kept) =
        record_and_clean-current (advance (restart s)) (current_plays s) in
      let (taken, played) = advance-rows s w in
      (
        rows_kept ∙ ap (λ (x : QueueState F). up_next_rows (advance x)) same ∙ taken,
        current_kept ∙ ap (λ (x : QueueState F). (advance x).current) same ∙ played,
      )

  jump_to-rows :
      (s : QueueState F) (item : ItemId) (index : ℕ)
      → IsWellFormed s
      → (up_next_rows (jump_to s item index) ≡ drop (suc index) (up_next_rows s))
        × ((jump_to s item index).current ≡ some item)
  unfolding jump_to
  jump_to-rows s item index w = elim (Bool-cases (leb (list_len s.manual) index)) [
    | inl e ↦
        rw (e, jump_to)
          (let kept = record_and_clean-current _ _ in
            (
              kept.0
                  ∙ jumped_context s.manual s.order s.cursor index w.manual.ends_run (ground arith),
              kept.1,
            ))
    | inr e ↦
        rw (e, jump_to)
          (let kept = record_and_clean-current _ _ in
            (
              kept.0
                  ∙ jumped_manual s.manual (drop s.cursor (rows s.order.spans)) index w.manual
                      (ground arith),
              kept.1,
            ))
  ]

  -- In a well-formed state that finds an item at an index of Up Next, a jump to it drops the rows
  -- of Up Next through that index, across the Manual Queue and the context, and makes the item
  -- current.
  pub jump-up_next :
      (s : QueueState F) (item : ItemId) (index : ℕ)
      → IsWellFormed s
      → find_item s item ≡ some index
      → (up_next_rows (jump s item) ≡ drop (suc index) (up_next_rows s))
        × ((jump s item).current ≡ some item)
  unfolding jump
  jump-up_next s item index w e = rw (e, jump) (jump_to-rows s item index w)
