-- ===== src/Queue/Spans/Find.antt =====
-- spans.rs, `len` and `find` against the rows.
use music_streaming.Base.{
  ℕ, zero, suc, ◌+◌, ◌-◌, ◌≡◌, refl, sym, ap, ◌∙◌, Bool, ◌&&◌, Option, none, some, List, [], ◌∷◌,
  ◌++◌, arith, if◌then◌else◌, ◌==◌, length, get_elem?, get_last?, position, Option-bind,
}
use music_streaming.Queue.Spans.{View, Span, SpanList, view_eq, running, list_len, holds, find}
use music_streaming.Queue.Spans.Rows.{Row, span_rows, rows, length-span_rows, length-rows, total}
use music_streaming.Queue.Spans.Locate.{HasEnds, start_after, start_of-after, start_after_shift}

abbrev last_or : ℕ → List ℕ → ℕ
last_or d ends = elim (get_last? ends) [ none ↦ d | some total ↦ total ]

last_or-cons : (d e : ℕ) (ends : List ℕ) → last_or d (e ∷ ends) ≡ last_or e ends
last_or-cons d e [] = refl
last_or-cons d e (f ∷ ends) = last_or-cons d f ends ∙ sym (last_or-cons e f ends)

last_or-running :
    (acc : ℕ) (spans : List Span) → last_or acc (running acc spans) ≡ acc + total spans
last_or-running acc [] = omega arith
last_or-running acc (s ∷ spans) = omega (
  arith,
  last_or-cons acc (acc + s.len) (running (acc + s.len) spans),
  last_or-running (acc + s.len) spans,
)

pub list_len-total : (l : SpanList) → HasEnds l → list_len l ≡ total l.spans
unfolding list_len
list_len-total l e =
    let whole : 0 + total l.spans ≡ total l.spans = omega arith in
    ap (last_or 0) e ∙ last_or-running 0 l.spans ∙ whole

-- On a span list whose ends are its running lengths, list_len is the count of the rows that it
-- reads.
pub list_len-rows : (l : SpanList) → HasEnds l → list_len l ≡ length (rows l.spans)
list_len-rows l e = list_len-total l e ∙ sym (length-rows l.spans)

-- Whether a row is position `pos` of `view`.
abbrev pub is_row : View → ℕ → Row → Bool
is_row view pos row = view_eq row.0 view && (row.1 == pos)

abbrev shift : ℕ → Option ℕ → Option ℕ
shift n none = none
shift n (some i) = some (n + i)

find_walk : ℕ → View → ℕ → List Span → Option ℕ
find_walk acc v pos [] = none
find_walk acc v pos (s ∷ spans) =
    if holds v pos s then some (acc + pos - s.start) else find_walk (acc + s.len) v pos spans

abbrev find_after : ℕ → View → ℕ → List Span → List ℕ → Option ℕ
find_after acc v pos spans ends =
    Option-bind (position (holds v pos) spans)
      λ i. Option-bind (get_elem? spans i) λ s. some (start_after acc ends i + pos - s.start)

find_after-walk :
    (acc : ℕ) (v : View) (pos : ℕ) (spans : List Span)
    → find_after acc v pos spans (running acc spans) ≡ find_walk acc v pos spans
unfolding find_walk
find_after-walk acc v pos [] = refl
find_after-walk acc v pos (s ∷ spans) =
    ground
      (arith, after_first (position (holds v pos) spans), find_after-walk (acc + s.len) v pos spans)
  where
    ends : List ℕ
    ends = running (acc + s.len) spans

    after_first :
        (found : Option ℕ)
        → Option-bind
            (elim found [ none ↦ none | some i ↦ some (suc i) ])
            (λ i.
              Option-bind
                (get_elem? (s ∷ spans) i)
                λ t. some (start_after acc ((acc + s.len) ∷ ends) i + pos - t.start))
          ≡ Option-bind found (λ i.
            Option-bind
              (get_elem? spans i)
              λ t. some (start_after (acc + s.len) ends i + pos - t.start))
    after_first none = refl
    after_first (some i) = rw (start_after_shift (acc + s.len) ends i)

position-append :
    {A : Type 0} (p : A → Bool) (xs ys : List A)
    → position p (xs ++ ys)
      ≡ elim (position p xs) [ none ↦ shift (length xs) (position p ys) | some i ↦ some i ]
position-append p [] ys = ground arith
position-append p (x ∷ xs) ys = ground (arith, position-append p xs ys)

position-span_rows :
    (v : View) (pos : ℕ) (w : View) (start len : ℕ)
    → position (is_row v pos) (span_rows w start len) ≡ (
        if holds v pos (record { view = w; start = start; len = len })
        then some (pos - start)
        else none)
unfolding span_rows
position-span_rows v pos w start zero = ground arith
position-span_rows v pos w start (suc len) =
    ground (arith, position-span_rows v pos w (suc start) len)

find_walk-position :
    (acc : ℕ) (v : View) (pos : ℕ) (spans : List Span)
    → find_walk acc v pos spans ≡ shift acc (position (is_row v pos) (rows spans))
unfolding find_walk rows
find_walk-position acc v pos [] = refl
find_walk-position acc v pos (s ∷ spans) = ground (
  arith,
  position-append (is_row v pos) (span_rows s.view s.start s.len) (rows spans),
  position-span_rows v pos s.view s.start s.len,
  length-span_rows s.view s.start s.len,
  find_walk-position (acc + s.len) v pos spans,
)

-- On a span list whose ends are its running lengths, find gives the index of the first row that
-- reads position pos of the view, and none if no row does.
pub find-position :
    (l : SpanList) (v : View) (pos : ℕ)
    → HasEnds l
    → find l v pos ≡ position (is_row v pos) (rows l.spans)
unfolding find
find-position l v pos e =
    by_start
    ∙ ap (find_after 0 v pos l.spans) e
    ∙ find_after-walk 0 v pos l.spans
    ∙ find_walk-position 0 v pos l.spans
    ∙ shift_zero (position (is_row v pos) (rows l.spans))
  where
    shift_zero : (o : Option ℕ) → shift 0 o ≡ o
    shift_zero none = refl
    shift_zero (some i) = ap some (omega arith)

    by_start : find l v pos ≡ find_after 0 v pos l.spans l.ends
    by_start = simp (start_of-after l)
