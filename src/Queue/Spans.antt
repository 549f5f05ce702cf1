-- ===== src/Queue/Spans.antt =====
-- crates/core/src/queue/spans.rs: views and span lists. `u64` positions and lengths are native
-- numbers: the source assumes that lengths do not overflow together, and so does this module.
pub mod Rows
pub mod Locate
pub mod Located
pub mod Edits
pub mod Slice
pub mod Canonical
pub mod Normalize
pub mod Find
pub mod Split
pub mod Sorted
pub mod RemoveRows
pub mod Removed
mod Tests
use text.Mathlib.Text.{◌==◌ as str_eq}
use music_streaming.Base.{
  ℕ, zero, suc, ◌+◌, ◌-◌, min, String, Bool, true, false, ◌&&◌, ◌||◌, Option, none, some, List, [],
  ◌∷◌, ◌++◌, if◌then◌else◌, ltb, leb, ◌==◌, length, get_elem?, get_or, set, get_last?, take, drop,
  splice as list_splice, partition_point, position, insert_at, Option-bind,
}

pub data View : Type 0 where
  key : String → View
  shuffle : View

abbrev pub view_eq : View → View → Bool
view_eq (key j) (key k) = str_eq j k
view_eq shuffle shuffle = true
view_eq _ _ = false

pub record Span : Type 0 where
  pub view : View
  pub start : ℕ
  pub len : ℕ

abbrev pub new_span : View → ℕ → ℕ → Span
new_span view start len = record { view = view; start = start; len = len }

-- `ends` at `i` is the rows through span `i`.
pub record SpanList : Type 0 where
  pub spans : List Span
  pub ends : List ℕ

abbrev pub empty : SpanList
empty = record { spans = []; ends = [] }

-- Whether `span` starts where `prev` ends, in the same view.
abbrev pub continues : Span → Span → Bool
continues prev span = view_eq prev.view span.view && (prev.start + prev.len == span.start)

-- One step of the loop of `normalize`: `merged.last_mut()` grows, or the span is pushed.
unfoldable pub merge_last : List Span → Span → List Span
merge_last [] span = span ∷ []
merge_last (prev ∷ []) span =
    if continues prev span
    then record prev { len = prev.len + span.len } ∷ []
    else prev ∷ (span ∷ [])
merge_last (first ∷ (second ∷ rest)) span = first ∷ merge_last (second ∷ rest) span

unfoldable pub merge_all : List Span → List Span → List Span
unfolding merge_last
merge_all merged [] = merged
merge_all merged (span ∷ spans) =
    merge_all (if ltb 0 span.len then merge_last merged span else merged) spans

-- The running lengths from `total` on.
abbrev pub running : ℕ → List Span → List ℕ
running total [] = []
running total (s ∷ spans) = (total + s.len) ∷ running (total + s.len) spans

unfoldable pub normalize : List Span → SpanList
unfolding merge_all
normalize spans =
    let merged = merge_all [] spans in record { spans = merged; ends = running 0 merged }

unfoldable pub from_spans : List Span → SpanList
unfolding normalize
from_spans spans = normalize spans

unfoldable pub list_len : SpanList → ℕ
list_len list = elim (get_last? list.ends) [ none ↦ 0 | some total ↦ total ]

unfoldable pub is_empty : SpanList → Bool
is_empty list = elim list.spans [ [] ↦ true | _ ∷ _ ↦ false ]

-- The row index where span `i` starts.
unfoldable pub start_of : SpanList → ℕ → ℕ
start_of list i = if i == 0 then 0 else get_or list.ends (i - 1) 0

unfoldable pub locate : SpanList → ℕ → Option (ℕ × ℕ)
unfolding start_of
locate list index =
    let i = partition_point (λ end. leb end index) list.ends in
    if ltb i (length list.spans) then some (i, index - start_of list i) else none

-- What is read at a located place.
abbrev pub read_at : List Span → ℕ × ℕ → Option (View × ℕ)
read_at spans (i, offset) =
    Option-bind (get_elem? spans i) λ span. some (span.view, span.start + offset)

unfoldable pub get : SpanList → ℕ → Option (View × ℕ)
unfolding locate
get list index = Option-bind (locate list index) (read_at list.spans)

-- Whether a span holds position `pos` of `view`.
abbrev pub holds : View → ℕ → Span → Bool
holds view pos s = view_eq s.view view && (leb s.start pos && ltb pos (s.start + s.len))

unfoldable pub find : SpanList → View → ℕ → Option ℕ
unfolding start_of
find list view pos =
    Option-bind (position (holds view pos) list.spans)
      λ i. Option-bind (get_elem? list.spans i) λ span. some (start_of list i + pos - span.start)

-- `split_at` where span `i` holds the row, `offset` rows from its start.
unfoldable pub split_span : SpanList → ℕ → ℕ → ℕ → SpanList × ℕ
split_span list index i offset = if offset == 0 then (list, i) else elim (get_elem? list.spans i) [
  | none ↦ (list, i)
  | some span ↦
      let tail = new_span span.view (span.start + offset) (span.len - offset) in
      (
        record {
          spans = insert_at (set list.spans i (record span { len = offset })) (i + 1) tail;
          ends = insert_at list.ends i index;
        },
        i + 1,
      )
]

-- Makes row `index` the start of a span, and says of which.
unfoldable pub split_at : SpanList → ℕ → SpanList × ℕ
split_at list index = elim (locate list index) [
  | none ↦ (list, length list.spans)
  | some (i, offset) ↦ split_span list index i offset
]

unfoldable pub splice : SpanList → ℕ → List Span → SpanList
unfolding split_at normalize
splice list index spans =
    let (split, at) = split_at list index in normalize (list_splice split.spans at spans)

-- The loop of `slice` from span `i` on, for the rows from `start` up to `end`.
unfoldable pub slice_from : SpanList → ℕ → ℕ → ℕ → List Span → List Span
unfolding start_of
slice_from list start end i [] = []
slice_from list start end i (span ∷ spans) =
    let more = slice_from list start end (suc i) spans in
    let from = start_of list i in
    let skip = start - from in
    let taken = (min (get_or list.ends i 0) end - from) - skip in
    if leb end from then [] else new_span span.view (span.start + skip) taken ∷ more

-- `slice` up to the clamped end.
unfoldable pub slice_upto : SpanList → ℕ → ℕ → List Span
slice_upto list start end =
    if ltb start end
    then elim (locate list start) [
      | none ↦ []
      | some (first, _) ↦ slice_from list start end first (drop first list.spans)
    ]
    else []

unfoldable pub slice : SpanList → ℕ → ℕ → List Span
slice list start end = slice_upto list start (min end (list_len list))

-- `remove` past its guard.
unfoldable pub remove_between : SpanList → ℕ → ℕ → SpanList × List Span
remove_between list start end =
    let (head, first) = split_at list start in
    let (split, last) = split_at head end in
    (
      normalize (take first split.spans ++ drop last split.spans),
      take (last - first) (drop first split.spans),
    )

-- The list without the rows, and the spans that they were.
unfoldable pub remove : SpanList → ℕ → ℕ → SpanList × List Span
remove list start end =
    let end' = min end (list_len list) in
    if leb end' start then (list, []) else remove_between list start end'
