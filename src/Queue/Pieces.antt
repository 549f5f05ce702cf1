-- ===== src/Queue/Pieces.antt =====
-- crates/core/src/queue/rewind.rs: the stretches heard, and which of them Up Next holds.
use text.Mathlib.Text.{◌==◌ as str_eq}
use Prim.Native.String.{compare}
use Prim.Native.Nat.{Ordering}
use music_streaming.Base.{
  ℕ, ◌+◌, ◌-◌, min, max, String, Bool, true, false, ◌&&◌, Option, none, some, List, [], ◌∷◌, ◌++◌,
  map, if◌then◌else◌, ltb, leb, ◌==◌, retain, get_last?, Option-bind,
}
use music_streaming.Queue.Spans.{View, Span}
use music_streaming.Queue.State.{Run}
use music_streaming.Queue.Held.{Range}

pub record Piece : Type 0 where
  pub key : String
  pub start : ℕ
  pub len : ℕ
  pub copy : Bool

abbrev pub new_piece : String → ℕ → ℕ → Piece
new_piece key start len = record { key = key; start = start; len = len; copy = false }

-- The B-tree map of held ranges: ascending by key, then start, no two alike.
abbrev pub range_lt : String → ℕ → Range → Bool
range_lt key start (k, s, e) = elim (compare key k) [
  | Ordering.lt ↦ true
  | Ordering.eq ↦ ltb start s
  | Ordering.gt ↦ false
]

unfoldable pub hold : String → ℕ → ℕ → List Range → List Range
hold key start end [] = (key, start, end) ∷ []
hold key start end ((k, s, e) ∷ held) =
    if str_eq key k && (start == s)
    then (key, start, end) ∷ held
    else if range_lt key start (k, s, e)
    then (key, start, end) ∷ ((k, s, e) ∷ held)
    else (k, s, e) ∷ hold key start end held

-- The held ranges of `key` that start at `from` or after and before `to`.
abbrev pub starting : String → ℕ → ℕ → List Range → List Range
starting key from to =
    retain
      λ (r : Range). if str_eq r.0 key then (if leb from r.1 then ltb r.1 to else false) else false

-- The held range that starts last before the piece, if it reaches into it.
abbrev pub reaching : List Range → Piece → List Range
reaching held piece = elim (get_last? (starting piece.key 0 piece.start held)) [
  | none ↦ []
  | some (k, s, e) ↦ if ltb piece.start e then (k, s, e) ∷ [] else []
]

-- The loop of `split_held` from position `at` on.
unfoldable pub split_from : String → ℕ → ℕ → List Range → List Piece
split_from key end at [] = if ltb at end then new_piece key at (end - at) ∷ [] else []
split_from key end at ((k, s, e) ∷ overlaps) =
    let from = max s at in
    let to = min e end in
    let gap : List Piece = if ltb at from then new_piece key at (from - at) ∷ [] else [] in
    gap
    ++ (record (new_piece key from (to - from)) { copy = true } ∷ split_from key end to overlaps)

unfoldable pub hold_pieces : List Piece → List Range → List Range
hold_pieces [] held = held
hold_pieces (p ∷ parts) held =
    hold_pieces parts (if p.copy then held else hold p.key p.start (p.start + p.len) held)

-- The parts of a piece, and the held ranges after it.
unfoldable pub split_held : List Range → Piece → List Piece × List Range
split_held held piece =
    let end = piece.start + piece.len in
    let parts =
      split_from piece.key end piece.start
        (reaching held piece ++ starting piece.key piece.start end held) in
    (parts, hold_pieces parts held)

-- The pieces last to first, each with what is held by then; the parts in the order heard.
unfoldable pub split_all : List Range → List Piece → List Piece
split_all held [] = []
split_all held (piece ∷ earlier) =
    let (parts, held') = split_held held piece in split_all held' earlier ++ parts

unfoldable pub hold_spans : List Span → List Range → List Range
hold_spans [] held = held
hold_spans (span ∷ spans) held = hold_spans spans (elim span.view [
  | View.key k ↦ hold k span.start (span.start + span.len) held
  | View.shuffle ↦ held
])

unfoldable pub hold_ranges : List Range → List Range → List Range
hold_ranges [] held = held
hold_ranges ((k, s, e) ∷ ranges) held = hold_ranges ranges (hold k s (s + (e - s)) held)

-- The stretches from the target on, `skip` plays into the first run; `none` where a run reads the
-- shuffle.
unfoldable pub heard_from : ℕ → List Run → Option (List Piece)
heard_from skip [] = some []
heard_from skip (run ∷ runs) = elim run.span.view [
  | View.shuffle ↦ none
  | View.key k ↦
      Option-bind (heard_from 0 runs)
        λ rest. some (new_piece k (run.span.start + skip) (run.span.len - skip) ∷ rest)
]

abbrev pub range_le : Range → Range → Bool
range_le (j, s, e) (k, s', e') = elim (compare j k) [
  | Ordering.lt ↦ true
  | Ordering.eq ↦ if ltb s s' then true else if ltb s' s then false else leb e e'
  | Ordering.gt ↦ false
]

unfoldable pub insert_range : Range → List Range → List Range
insert_range x [] = x ∷ []
insert_range x (y ∷ ranges) = if range_le x y then x ∷ (y ∷ ranges) else y ∷ insert_range x ranges

unfoldable pub sort_ranges : List Range → List Range
unfolding insert_range
sort_ranges [] = []
sort_ranges (x ∷ ranges) = insert_range x (sort_ranges ranges)

-- The loop of `positions_of`, with the last range merged so far.
unfoldable pub merge_ranges : Range → List Range → List Range
merge_ranges last [] = last ∷ []
merge_ranges (k, s, e) ((j, t, f) ∷ ranges) =
    let joins = str_eq k j && leb t e in
    let next : Range = if joins then (k, s, max e f) else (j, t, f) in
    let rest = merge_ranges next ranges in if joins then rest else (k, s, e) ∷ rest

abbrev pub piece_range : Piece → Range
piece_range p = (p.key, p.start, p.start + p.len)

unfoldable pub positions_of : Piece → List Piece → List Range
positions_of target heard = elim (sort_ranges (map piece_range (target ∷ heard))) [
  | [] ↦ []
  | first ∷ ranges ↦ merge_ranges first ranges
]

abbrev pub has_length : Piece → Bool
has_length p = ltb 0 p.len
