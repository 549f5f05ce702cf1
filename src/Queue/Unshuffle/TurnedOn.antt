-- ===== src/Queue/Unshuffle/TurnedOn.antt =====
-- shuffle.rs, `set_shuffle` to on: what it leaves of the context, and what plays from then on.
use mathlib.Core.List.{map-map}
use mathlib.Core.List.Perm
use mathlib.Core.List.{append-nil}
use music_streaming.Base.{
  ℕ, zero, suc, ◌+◌, ◌-◌, ◌≤◌, ◌<◌, ◌≡◌, refl, sym, ap, ap₂, ◌∙◌, true, false, Option, none, some,
  List, [], ◌∷◌, ◌++◌, arith, length, take, drop, get_elem?, map, Perm, max, leb, length-take,
  length-drop, is_some,
}
use music_streaming.Base.Positions.{range_from}
use music_streaming.Queue.Permutation.{permute}
use music_streaming.Queue.Permutation.Shuffled.{permute-perm}
use music_streaming.Queue.Spans.{
  View, Span, SpanList, new_span, list_len, from_spans, splice, remove, get,
}
use music_streaming.Queue.Spans.Rows.{
  Row, rows, span_rows, take_all, drop_all, take_left, drop_left,
}
use music_streaming.Queue.Spans.Locate.{HasEnds, get-get_elem?}
use music_streaming.Queue.Spans.Find.{list_len-rows}
use music_streaming.Queue.Spans.Normalize.{IsValid, normalize-IsValid, rows-normalize}
use music_streaming.Queue.Spans.Edits.{rows-remove, rows-splice, remove-IsValid}
use music_streaming.Queue.State.{ItemId, Shuffle, QueueState}
use music_streaming.Queue.Read.{base_item, item_of}
use music_streaming.Queue.Unshuffle.{shuffle_on, set_shuffle}
use music_streaming.Queue.WellFormed.{IsWellFormed}

map-range_from :
    {A B : Type 0} (f : Option A → B) (g : ℕ → B) (from : ℕ) (xs : List A)
    → ((i : ℕ) → i < length xs → g (from + i) ≡ f (get_elem? xs i))
    → map g (range_from from (length xs)) ≡ map (λ x. f (some x)) xs
map-range_from f g from [] h = refl
map-range_from f g from (x ∷ xs) h =
    let first : from ≡ from + 0 = omega arith in
    ap₂ (λ y ys. y ∷ ys) (ap g first ∙ h 0 (omega arith))
      (map-range_from f g (suc from) xs λ i l.
        let next : suc from + i ≡ from + suc i = omega arith in ap g next ∙ h (suc i) (omega arith))

-- The context behind the rows of a valid list that stand from `cursor` on, put in its place.
module _ (order : SpanList) (cursor : ℕ) (v : IsValid order)
    (inside : cursor ≤ list_len order) where
  unplayed : List Span
  unplayed = (remove order cursor (list_len order)).1

  size : list_len order ≡ length (rows order.spans)
  size = list_len-rows order v.ends_run

  rows-unplayed : rows unplayed ≡ drop cursor (rows order.spans)
  unfolding unplayed
  rows-unplayed =
      (rows-remove order cursor (list_len order) v.ends_run).1
      ∙ take_all (list_len order - cursor) (drop cursor (rows order.spans))
          (omega (arith, length-drop cursor (rows order.spans), size))

  rows-played : rows (remove order cursor (list_len order)).0.spans ≡ take cursor (rows order.spans)
  rows-played =
      (rows-remove order cursor (list_len order) v.ends_run).0
      ∙ ap (λ r. take cursor (rows order.spans) ++ r)
          (drop_all (max cursor (list_len order)) (rows order.spans) (omega (arith, size)))
      ∙ append-nil _

  base : SpanList
  base = from_spans unplayed

  rows-base : rows base.spans ≡ drop cursor (rows order.spans)
  unfolding base from_spans
  rows-base = rows-normalize unplayed ∙ rows-unplayed

  base-HasEnds : HasEnds base
  unfolding base from_spans
  base-HasEnds = (normalize-IsValid unplayed).ends_run

  list_len-base : list_len base ≡ length (drop cursor (rows order.spans))
  list_len-base = list_len-rows base base-HasEnds ∙ ap length rows-base

  turned : SpanList
  turned =
      splice (remove order cursor (list_len order)).0
        (list_len (remove order cursor (list_len order)).0)
        (new_span View.shuffle 0 (list_len base) ∷ [])

  rows-turned :
      rows turned.spans ≡ take cursor (rows order.spans) ++ span_rows View.shuffle 0 (list_len base)
  unfolding turned rows
  rows-turned =
      let front = (remove order cursor (list_len order)).0 in
      let ends = (remove-IsValid order cursor (list_len order) v).ends_run in
      let count = list_len-rows front ends in
      let shuffled = span_rows View.shuffle 0 (list_len base) in
      rows-splice front (list_len front) (new_span View.shuffle 0 (list_len base) ∷ []) ends
      ∙ ap₂ (λ xs ys. xs ++ ((shuffled ++ []) ++ ys))
          (take_all (list_len front) (rows front.spans) (omega (arith, count)) ∙ rows-played)
          (drop_all (list_len front) (rows front.spans) (omega (arith, count)))
      ∙ ap (λ r. take cursor (rows order.spans) ++ r) (append-nil _ ∙ append-nil _)

  before-turned : take cursor (rows turned.spans) ≡ take cursor (rows order.spans)
  before-turned =
      let count : cursor ≡ length (take cursor (rows order.spans)) =
        omega (arith, length-take cursor (rows order.spans), size, inside) in
      ap (take cursor) rows-turned ∙ take_left cursor (take cursor (rows order.spans)) _ count

  ahead-turned : drop cursor (rows turned.spans) ≡ span_rows View.shuffle 0 (list_len base)
  ahead-turned =
      let count : cursor ≡ length (take cursor (rows order.spans)) =
        omega (arith, length-take cursor (rows order.spans), size, inside) in
      ap (drop cursor) rows-turned ∙ drop_left cursor (take cursor (rows order.spans)) _ count

module _ {F : Type 0} where
  -- What plays when a list of rows is read, row by row.
  abbrev pub plays_of : QueueState F → List Row → List (Option ItemId)
  plays_of s = map (λ (row : Row). item_of s row.0 row.1)

  -- With the shuffle off, a row plays what it would as a row of a base.
  plays_of-off :
      (s : QueueState F) (rs : List Row)
      → s.shuffle ≡ none
      → map (λ (row : Row). base_item (some row)) rs ≡ plays_of s rs
  unfolding item_of
  plays_of-off s [] off = refl
  plays_of-off s ((View.key k, p) ∷ rs) off =
      ap (λ r. some (record { key = k; pos = p }) ∷ r) (plays_of-off s rs off)
  plays_of-off s ((View.shuffle, p) ∷ rs) off =
      rw (off, item_of) (ap (λ r. none ∷ r) (plays_of-off s rs off))

  -- Rows of the shuffle play the items where its positions land.
  plays_of-shuffled :
      (s : QueueState F) (shuffle : Shuffle) (from n : ℕ)
      → s.shuffle ≡ some shuffle
      → from + n ≤ list_len shuffle.base
      → plays_of s (span_rows View.shuffle from n)
        ≡ map
            (λ p. base_item (get shuffle.base (permute shuffle.seed (list_len shuffle.base) p)))
            (range_from from n)
  unfolding span_rows item_of
  plays_of-shuffled s shuffle from zero on h = refl
  plays_of-shuffled s shuffle from (suc n) on h =
      ap₂ (λ x xs. x ∷ xs) here (plays_of-shuffled s shuffle (suc from) n on (omega arith))
    where
      here :
          item_of s View.shuffle from
          ≡ base_item (get shuffle.base (permute shuffle.seed (list_len shuffle.base) from))
      here =
          let inside : leb (list_len shuffle.base) from ≡ false = ground arith in
          rw (on, item_of) (rw inside refl)

  module _ (s : QueueState F) (seed : ℕ) (w : IsWellFormed s) (inside : s.cursor ≤ list_len s.order)
      (off : s.shuffle ≡ none) where
    set_shuffle-on : set_shuffle s true seed ≡ shuffle_on s seed
    unfolding set_shuffle
    set_shuffle-on = let no : is_some s.shuffle ≡ false = ap is_some off in rw no refl

    frozen : SpanList
    frozen = base s.order s.cursor w.order inside

    landed : ℕ → Option ItemId
    landed p = base_item (get frozen p)

    plays-on :
        plays_of (shuffle_on s seed) (drop s.cursor (rows (shuffle_on s seed).order.spans))
        ≡ map landed (map (permute seed (list_len frozen)) (range_from 0 (list_len frozen)))
    unfolding shuffle_on turned base unplayed frozen landed
    plays-on =
        ap (plays_of (shuffle_on s seed)) (ahead-turned s.order s.cursor w.order inside)
        ∙ plays_of-shuffled (shuffle_on s seed) (record { seed = seed; base = frozen }) 0
            (list_len frozen) refl (omega arith)
        ∙ sym (map-map landed (permute seed (list_len frozen)) (range_from 0 (list_len frozen)))

    plays-base :
        map landed (range_from 0 (list_len frozen))
        ≡ plays_of s (drop s.cursor (rows s.order.spans))
    unfolding landed frozen
    plays-base =
        ap (λ n. map landed (range_from 0 n)) (list_len-base s.order s.cursor w.order inside)
        ∙ map-range_from base_item landed 0 (drop s.cursor (rows s.order.spans)) (λ i l.
          let e : 0 + i ≡ i = omega arith in
          ap base_item (
            get-get_elem? frozen (0 + i) (base-HasEnds s.order s.cursor w.order inside)
            ∙ ap₂ get_elem? (rows-base s.order s.cursor w.order inside) e))
        ∙ plays_of-off s (drop s.cursor (rows s.order.spans)) off

    before-on :
        take s.cursor (rows (shuffle_on s seed).order.spans) ≡ take s.cursor (rows s.order.spans)
    unfolding shuffle_on turned base unplayed
    before-on = before-turned s.order s.cursor w.order inside

    -- In a well-formed state with the shuffle off and the cursor no further than the context is
    -- long, turning the shuffle on keeps the rows before the cursor, and the context rows from the
    -- cursor on then play a permutation of what they played before, whatever the seed.
    pub set_shuffle-perm :
        (take s.cursor (rows (set_shuffle s true seed).order.spans)
          ≡ take s.cursor (rows s.order.spans))
        × Perm
            (plays_of
              (set_shuffle s true seed)
              (drop s.cursor (rows (set_shuffle s true seed).order.spans)))
            (plays_of s (drop s.cursor (rows s.order.spans)))
    set_shuffle-perm =
        let shuffled = Perm.map landed (permute-perm seed (list_len frozen)) in
        rw set_shuffle-on (before-on, rw (plays-on, ← plays-base) shuffled)
