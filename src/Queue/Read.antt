-- ===== src/Queue/Read.antt =====
-- crates/core/src/queue/read.rs: reading rows and finding items.
use Prim.Native.Nat.{◌^◌}
use music_streaming.Base.{
  ℕ, ◌+◌, ◌-◌, String, Bool, true, false, ◌||◌, Option, none, some, if◌then◌else◌, ltb, leb,
  get_elem?, Option-bind, is_some,
}
use music_streaming.Queue.Spans.{View, SpanList, list_len, get, find}
use music_streaming.Queue.Permutation.{permute, unpermute}
use music_streaming.Queue.State.{ItemId, item_eq, Source, QueueState, source, copy_of}

pub record Row : Type 0 where
  pub item : ItemId
  pub source : String
  pub position : ℕ
  pub track : Option ℕ

-- `checked_sub` and `checked_add` of `u64`.
abbrev pub checked_sub : ℕ → ℕ → Option ℕ
checked_sub a b = if leb b a then some (a - b) else none

abbrev pub checked_add : ℕ → ℕ → Option ℕ
checked_add a b = if ltb (a + b) (2 ^ 64) then some (a + b) else none

-- The item that a row of the shuffle's base is.
abbrev pub base_item : Option (View × ℕ) → Option ItemId
base_item none = none
base_item (some (View.key k, p)) = some (record { key = k; pos = p })
base_item (some (View.shuffle, p)) = none

module _ {F : Type 0} where
  unfoldable pub up_next_len : QueueState F → ℕ
  up_next_len s = list_len s.manual + (list_len s.order - s.cursor)

  unfoldable pub item_of : QueueState F → View → ℕ → Option ItemId
  item_of s (View.key k) pos = some (record { key = k; pos = pos })
  item_of s View.shuffle pos = elim s.shuffle [
    | none ↦ none
    | some shuffle ↦
        let m = list_len shuffle.base in
        if leb m pos then none else base_item (get shuffle.base (permute shuffle.seed m pos))
  ]

  unfoldable pub item_at : QueueState F → SpanList → ℕ → Option ItemId
  item_at s spans index = Option-bind (get spans index) λ (view, pos). item_of s view pos

  -- The row of a position of a source.
  unfoldable pub source_row : String → ℕ → Source F → ℕ → Option Row
  source_row key pos source position =
      if leb source.length position
      then none
      else some (record {
        item = record { key = key; pos = pos };
        source = source.key;
        position = position;
        track = Option-bind source.tracks λ t. get_elem? t position;
      })

  -- The row of what a copy reads, which is a source's position.
  abbrev pub copied_row : QueueState F → String → ℕ → Option (View × ℕ) → Option Row
  copied_row s key pos none = none
  copied_row s key pos (some (View.key k, p)) = Option-bind (source s k) λ x. source_row key pos x p
  copied_row s key pos (some (View.shuffle, p)) = none

  unfoldable pub row_of : QueueState F → String → ℕ → Option Row
  row_of s key pos = elim (source s key) [
    | some x ↦ source_row key pos x pos
    | none ↦ Option-bind (copy_of s key) λ copy. copied_row s key pos (get copy.of pos)
  ]

  unfoldable pub row_in : QueueState F → SpanList → ℕ → Option Row
  row_in s spans index = Option-bind (item_at s spans index) λ item. row_of s item.key item.pos

  unfoldable pub up_next_row : QueueState F → ℕ → Option Row
  up_next_row s index = elim (checked_sub index (list_len s.manual)) [
    | none ↦ row_in s s.manual index
    | some rest ↦ Option-bind (checked_add s.cursor rest) (row_in s s.order)
  ]

  unfoldable pub context_row : QueueState F → ℕ → Option Row
  context_row s index = row_in s s.order index

  unfoldable pub current_row : QueueState F → Option Row
  current_row s = Option-bind s.current λ item. row_of s item.key item.pos

  -- The row of `order` that reads a base item through the shuffle.
  unfoldable pub shuffled_row_of : QueueState F → ItemId → Option ℕ
  shuffled_row_of s item = Option-bind s.shuffle λ shuffle.
      Option-bind (find shuffle.base (View.key item.key) item.pos)
        λ base. find s.order View.shuffle (unpermute shuffle.seed (list_len shuffle.base) base)

  unfoldable pub order_row_of : QueueState F → ItemId → Option ℕ
  order_row_of s item = elim (find s.order (View.key item.key) item.pos) [
    | some row ↦ some row
    | none ↦ shuffled_row_of s item
  ]

  -- The Up Next index of a row of the context, if the row is not passed.
  abbrev pub up_next_index : QueueState F → Option ℕ → Option ℕ
  up_next_index s row =
      Option-bind row
        λ i. Option-bind (checked_sub i s.cursor) λ rest. some (list_len s.manual + rest)

  unfoldable pub find_item : QueueState F → ItemId → Option ℕ
  find_item s item = elim (find s.manual (View.key item.key) item.pos) [
    | some i ↦ some i
    | none ↦ up_next_index s (order_row_of s item)
  ]

  abbrev pub is_current : QueueState F → ItemId → Bool
  is_current s item = elim s.current [ none ↦ false | some c ↦ item_eq c item ]

  unfoldable pub holds_item : QueueState F → ItemId → Bool
  holds_item s item =
      is_current s item
      || (is_some (find s.manual (View.key item.key) item.pos) || is_some (order_row_of s item))

  unfoldable pub playing_manual : QueueState F → Bool
  playing_manual s = elim s.current [
    | none ↦ false
    | some item ↦ if is_some (order_row_of s item) then false else true
  ]
