-- ===== src/Queue/Spans/Tests.antt =====
-- The theorems on span lists at a list of two views: rows a0 a1 a2 s4 s5.
use music_streaming.Base.{
  ◌≡◌, refl, List, [], ◌∷◌, ◌++◌, arith, take, drop, max, ◌-◌, get_elem?, position,
  splice as list_splice,
}
use music_streaming.Queue.Spans.{
  View, Span, SpanList, new_span, merge_last, merge_all, normalize, splice, split_at, split_span,
  remove, remove_between, slice, get, find, list_len, locate, start_of,
}
use music_streaming.Queue.Spans.Rows.{rows, span_rows}
use music_streaming.Queue.Spans.Locate.{get-get_elem?}
use music_streaming.Queue.Spans.Find.{find-position, is_row}
use music_streaming.Queue.Spans.Normalize.{IsValid, rows-normalize, normalize-IsValid}
use music_streaming.Queue.Spans.Split.{IsSplit, split_at-IsSplit}
use music_streaming.Queue.Spans.Edits.{rows-splice, rows-remove, remove-IsValid}
use music_streaming.Queue.Spans.Slice.{rows-slice}
use music_streaming.Queue.Spans.Canonical.{IsValid-unique}

abbrev a : View
a = View.key "a"

abbrev two_views : SpanList
two_views = record { spans = new_span a 0 3 ∷ new_span View.shuffle 4 2 ∷ []; ends = 3 ∷ 5 ∷ [] }

two_views-IsValid : IsValid two_views
two_views-IsValid = record { ends_run = refl; normal = (omega arith, refl, omega arith) }

-- The same list, from pieces.
abbrev pieces : List Span
pieces = new_span a 0 1 ∷ new_span a 1 2 ∷ new_span a 7 0 ∷ new_span View.shuffle 4 2 ∷ []

normalize-pieces : normalize pieces ≡ two_views
unfolding normalize merge_all merge_last
normalize-pieces = refl

remove_middle : remove two_views 1 4 ≡ (
  record { spans = new_span a 0 1 ∷ new_span View.shuffle 5 1 ∷ []; ends = 1 ∷ 2 ∷ [] },
  new_span a 1 2 ∷ new_span View.shuffle 4 1 ∷ [],
)
unfolding remove remove_between split_at split_span locate start_of normalize merge_all merge_last
    list_len
remove_middle = refl

normalize-IsValid_example : IsValid (normalize pieces)
normalize-IsValid_example = normalize-IsValid pieces

get-get_elem?_example : get two_views 3 ≡ get_elem? (rows two_views.spans) 3
get-get_elem?_example = get-get_elem? two_views 3 refl

find-position_example :
    find two_views View.shuffle 5 ≡ position (is_row View.shuffle 5) (rows two_views.spans)
find-position_example = find-position two_views View.shuffle 5 refl

split_at-IsSplit_example : IsSplit two_views 1 (split_at two_views 1).0 (split_at two_views 1).1
split_at-IsSplit_example = split_at-IsSplit two_views 1 refl

rows-splice_example :
    rows (splice two_views 1 (new_span a 1 2 ∷ [])).spans
    ≡ list_splice (rows two_views.spans) 1 (rows (new_span a 1 2 ∷ []))
rows-splice_example = rows-splice two_views 1 (new_span a 1 2 ∷ []) refl

rows-remove_example :
    (rows (remove two_views 1 4).0.spans
      ≡ take 1 (rows two_views.spans) ++ drop (max 1 4) (rows two_views.spans))
    × (rows (remove two_views 1 4).1 ≡ take (4 - 1) (drop 1 (rows two_views.spans)))
rows-remove_example = rows-remove two_views 1 4 refl

remove-IsValid_example : IsValid (remove two_views 1 4).0
remove-IsValid_example = remove-IsValid two_views 1 4 two_views-IsValid

rows-slice_example : rows (slice two_views 1 4) ≡ take (4 - 1) (drop 1 (rows two_views.spans))
rows-slice_example = rows-slice two_views 1 4 refl

IsValid-unique_example : normalize pieces ≡ two_views
unfolding rows span_rows
IsValid-unique_example =
    IsValid-unique (normalize pieces) two_views (normalize-IsValid pieces) two_views-IsValid
      (rows-normalize pieces)
