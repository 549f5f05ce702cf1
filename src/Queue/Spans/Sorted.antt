-- ===== src/Queue/Spans/Sorted.antt =====
-- spans.rs, `SpanList::find_sorted`: the rows of many items in one pass.
use text.Mathlib.Text.{◌==◌ as str_eq}
use Prim.Native.String.{compare}
use Prim.Native.Nat.{Ordering}
use music_streaming.Base.{
  ℕ, suc, ◌+◌, ◌-◌, String, Bool, true, false, ◌&&◌, Option, none, some, List, [], ◌∷◌, ◌++◌,
  if◌then◌else◌, ltb, take, drop, partition_point,
}
use music_streaming.Queue.Spans.{View, Span, SpanList, start_of}

-- The order of items: by key, then position.
abbrev pub item_lt : String × ℕ → String × ℕ → Bool
item_lt (j, p) (k, q) = elim (compare j k) [
  | Ordering.lt ↦ true
  | Ordering.eq ↦ ltb p q
  | Ordering.gt ↦ false
]

-- The inner loop of `find_sorted` for the span of `key` from `start` up to `end`, whose first row
-- is `first`: over the rows and items from the span's first item on.
unfoldable pub fill_rows :
    String → ℕ → ℕ → ℕ → List (Option ℕ) → List (String × ℕ) → List (Option ℕ)
fill_rows k start end first [] items = []
fill_rows k start end first (row ∷ rows) [] = row ∷ rows
fill_rows k start end first (row ∷ rows) ((j, pos) ∷ items) =
    let filled = fill_rows k start end first rows items in
    let row' : Option ℕ = elim row [ none ↦ some (first + pos - start) | some r ↦ some r ] in
    if str_eq j k && ltb pos end then row' ∷ filled else row ∷ rows

-- The outer loop of `find_sorted` from span `i` on.
unfoldable pub find_sorted_from :
    SpanList → List (String × ℕ) → ℕ → List Span → List (Option ℕ) → List (Option ℕ)
unfolding start_of fill_rows
find_sorted_from list items i [] rows = rows
find_sorted_from list items i (span ∷ spans) rows =
    find_sorted_from list items (suc i) spans (elim span.view [
      | View.shuffle ↦ rows
      | View.key k ↦
          let from = partition_point (λ item. item_lt item (k, span.start)) items in
          take from rows
          ++ fill_rows k span.start (span.start + span.len) (start_of list i) (drop from rows)
              (drop from items)
    ])

abbrev none_each {ℓ} : {A : Type ℓ} → List A → List (Option ℕ)
none_each [] = []
none_each (_ ∷ xs) = none ∷ none_each xs

unfoldable pub find_sorted : SpanList → List (String × ℕ) → List (Option ℕ)
unfolding find_sorted_from
find_sorted list items = find_sorted_from list items 0 list.spans (none_each items)
