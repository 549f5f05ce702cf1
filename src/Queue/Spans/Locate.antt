-- ===== src/Queue/Spans/Locate.antt =====
-- spans.rs: `len`, `locate`, `get` and `find` read the rows.
use music_streaming.Base.{
  ℕ, zero, suc, ◌+◌, ◌-◌, ◌≤◌, ◌≡◌, refl, ap, ◌∙◌, Option, none, some, List, [], ◌∷◌, arith,
  if◌then◌else◌, ltb, leb, length, get_elem?, get_or, partition_point, Option-bind,
  get_elem?-append_left, get_elem?-append_right, Bool-cases, inl, inr,
}
use music_streaming.Queue.Spans.{Span, SpanList, running, start_of, locate, read_at, get}
use music_streaming.Queue.Spans.Rows.{span_rows, rows, length-span_rows, get_elem?-span_rows}

-- The running lengths are those of the spans.
abbrev pub HasEnds : SpanList → Type 0
HasEnds l = l.ends ≡ running 0 l.spans

-- The span that holds a row, found by walking.
unfoldable pub seek : ℕ → List Span → Option (ℕ × ℕ)
seek index [] = none
seek index (s ∷ spans) =
    if ltb index s.len
    then some (0, index)
    else elim (seek (index - s.len) spans) [ none ↦ none | some (i, offset) ↦ some (suc i, offset) ]

-- Where span `i` starts, if the first starts at `acc`.
abbrev pub start_after : ℕ → List ℕ → ℕ → ℕ
start_after acc ends zero = acc
start_after acc ends (suc i) = get_or ends i 0

abbrev locate_after : ℕ → ℕ → List Span → List ℕ → Option (ℕ × ℕ)
locate_after acc index spans ends =
    let i = partition_point (λ end. leb end index) ends in
    if ltb i (length spans) then some (i, index - start_after acc ends i) else none

pub start_after_shift :
    (acc : ℕ) (ends : List ℕ) (i : ℕ) → start_after acc ends i ≡ get_or (acc ∷ ends) i 0
start_after_shift acc ends zero = refl
start_after_shift acc ends (suc i) = refl

locate_after-seek :
    (acc index : ℕ) (spans : List Span)
    → acc ≤ index
    → locate_after acc index spans (running acc spans) ≡ seek (index - acc) spans
unfolding seek
locate_after-seek acc index [] h = refl
locate_after-seek acc index (s ∷ spans) h = elim (Bool-cases (leb (acc + s.len) index)) [
  | inl e ↦
      let past : acc + s.len ≤ index = ground arith in
      let rest : index - (acc + s.len) ≡ index - acc - s.len = omega arith in
      let end = acc + s.len in
      let ends = running end spans in
      ground (
        arith,
        locate_after-seek end index spans past,
        ap (λ k. seek k spans) rest,
        start_after_shift end ends (partition_point (λ e. leb e index) ends),
      )
  | inr e ↦ ground arith
]

pub start_of-after : (l : SpanList) (i : ℕ) → start_of l i ≡ start_after 0 l.ends i
unfolding start_of
start_of-after l zero = refl
start_of-after l (suc i) =
    let e : suc i - 1 ≡ i = omega arith in ground (arith, ap (λ k. get_or l.ends k 0) e)

pub locate-seek : (l : SpanList) (index : ℕ) → HasEnds l → locate l index ≡ seek index l.spans
unfolding locate
locate-seek l index e =
    let whole : index - 0 ≡ index = omega arith in
    after
    ∙ ap (locate_after 0 index l.spans) e
    ∙ locate_after-seek 0 index l.spans (omega arith)
    ∙ ap (λ k. seek k l.spans) whole
  where
    after : locate l index ≡ locate_after 0 index l.spans l.ends
    after = rw (start_of-after l (partition_point (λ end. leb end index) l.ends))

read_seek :
    (index : ℕ) (spans : List Span)
    → Option-bind (seek index spans) (read_at spans) ≡ get_elem? (rows spans) index
unfolding seek rows
read_seek index [] = refl
read_seek index (s ∷ spans) = elim (Bool-cases (ltb index s.len)) [
  | inl e ↦ ground (
    arith,
    get_elem?-append_left (span_rows s.view s.start s.len) (rows spans) index,
    get_elem?-span_rows s.view s.start s.len index,
    length-span_rows s.view s.start s.len,
  )
  | inr e ↦ ground (
    arith,
    get_elem?-append_right (span_rows s.view s.start s.len) (rows spans) index,
    length-span_rows s.view s.start s.len,
    read_seek (index - s.len) spans,
  )
]

-- On a span list whose ends are its running lengths, get at index is row index of the rows that
-- the list reads, and none past the end.
pub get-get_elem? :
    (l : SpanList) (index : ℕ) → HasEnds l → get l index ≡ get_elem? (rows l.spans) index
unfolding get
get-get_elem? l index e = rw (locate-seek l index e) (read_seek index l.spans)
