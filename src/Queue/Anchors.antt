-- ===== src/Queue/Anchors.antt =====
-- crates/core/src/queue/edit.rs: finding the items that an edit names, and taking rows out.
use text.Mathlib.Text.{◌==◌ as str_eq}
use music_streaming.Base.{
  ℕ, ◌+◌, ◌-◌, String, Bool, ◌&&◌, Option, none, some, List, [], ◌∷◌, ◌++◌, map, if◌then◌else◌, ltb,
  ◌==◌, any, length, take, drop, partition_point,
}
use music_streaming.Base.Sorting.{sort}
use music_streaming.Queue.Spans.{Span, list_len, splice}
use music_streaming.Queue.Spans.Sorted.{item_lt, find_sorted}
use music_streaming.Queue.Spans.RemoveRows.{remove_rows}
use music_streaming.Queue.State.{ItemId, QueueState, anchor_gone, Result, ok, err}
use music_streaming.Queue.Read.{checked_sub, item_at, find_item, up_next_index}
use music_streaming.Queue.ShuffleReads.{order_rows_of}

pub data Anchor : Type 0 where
  manual_start manual_end context_end : Anchor
  before : ItemId → Anchor

-- An index in the Manual Queue, or in `order`.
pub data Spot : Type 0 where
  manual_spot order_spot : ℕ → Spot

abbrev pub item_pair : ItemId → String × ℕ
item_pair item = (item.key, item.pos)

unfoldable pub insert_item : String × ℕ → List (String × ℕ) → List (String × ℕ)
insert_item x [] = x ∷ []
insert_item x (y ∷ items) = if item_lt y x then y ∷ insert_item x items else x ∷ (y ∷ items)

unfoldable pub sort_items : List (String × ℕ) → List (String × ℕ)
unfolding insert_item
sort_items [] = []
sort_items (x ∷ items) = insert_item x (sort_items items)

abbrev pub pair_eq : String × ℕ → String × ℕ → Bool
pair_eq (j, p) (k, q) = str_eq j k && (p == q)

-- `Vec::dedup`, by a test of equality.
unfoldable pub dedup {ℓ} : {A : Type ℓ} → (A → A → Bool) → List A → List A
dedup eq [] = []
dedup eq (x ∷ []) = x ∷ []
dedup eq (x ∷ (y ∷ xs)) = let rest = dedup eq (y ∷ xs) in if eq x y then rest else x ∷ rest

abbrev pub nat_eq : ℕ → ℕ → Bool
nat_eq a b = a == b

module _ {F : Type 0} where
  -- The Up Next indices of the rows found in the Manual Queue, or else in the context.
  unfoldable pub indices_of : QueueState F → List (Option ℕ) → List (Option ℕ) → List ℕ
  indices_of s [] order = []
  indices_of s (found ∷ manual) [] = []
  indices_of s (some row ∷ manual) (in_order ∷ order) = row ∷ indices_of s manual order
  indices_of s (none ∷ manual) (in_order ∷ order) =
      let rest = indices_of s manual order in
      elim (up_next_index s in_order) [ none ↦ rest | some index ↦ index ∷ rest ]

  unfoldable pub resolve : QueueState F → List ItemId → List ℕ
  resolve s items =
      let sorted = dedup pair_eq (sort_items (map item_pair items)) in
      dedup nat_eq (sort (indices_of s (find_sorted s.manual sorted) (order_rows_of s sorted)))

  unfoldable pub items_in : QueueState F → List ℕ → List ItemId
  items_in s [] = []
  items_in s (index ∷ manual) =
      let rest = items_in s manual in
      elim (item_at s s.manual index) [ none ↦ rest | some item ↦ item ∷ rest ]

  unfoldable pub passed_of : QueueState F → List (Option ℕ) → List ℕ
  passed_of s [] = []
  passed_of s (none ∷ rows) = passed_of s rows
  passed_of s (some row ∷ rows) =
      let rest = passed_of s rows in if ltb row s.cursor then row ∷ rest else rest

  unfoldable pub passed_rows : QueueState F → List ℕ → List ℕ
  passed_rows s manual =
      passed_of s (order_rows_of s (sort_items (map item_pair (items_in s manual))))

  -- `take`: the rows at the indices out of the queue, and the spans that they were.
  unfoldable pub take_out : QueueState F → List ℕ → Bool → QueueState F × List Span
  take_out s at keep_passed =
      let manual_len = list_len s.manual in
      let border = partition_point (λ index. ltb index manual_len) at in
      let manual = take border at in
      let passed = if keep_passed then [] else sort (passed_rows s manual) in
      let rows = passed ++ map (λ index. s.cursor + index - manual_len) (drop border at) in
      let (manual', taken) = remove_rows s.manual manual in
      let (order', more) = remove_rows s.order rows in
      (
        record s { manual = manual'; order = order'; cursor = s.cursor - length passed },
        taken ++ drop (length passed) more,
      )

  unfoldable pub put : QueueState F → Spot → List Span → QueueState F
  put s (manual_spot index) spans = record s { manual = splice s.manual index spans }
  put s (order_spot index) spans = record s { order = splice s.order index spans }

  -- Where an Up Next index stands.
  abbrev pub spot_of : QueueState F → ℕ → Spot
  spot_of s index = elim (checked_sub index (list_len s.manual)) [
    | none ↦ manual_spot index
    | some rest ↦ order_spot (s.cursor + rest)
  ]

  unfoldable pub spot : QueueState F → Anchor → List ℕ → Result Spot
  spot s manual_start moving = ok (manual_spot 0)
  spot s manual_end moving = ok (manual_spot (list_len s.manual))
  spot s context_end moving = ok (order_spot (list_len s.order))
  spot s (before item) moving = elim (find_item s item) [
    | none ↦ err anchor_gone
    | some index ↦ if any (λ i. i == index) moving then err anchor_gone else ok (spot_of s index)
  ]
