-- ===== src/Queue/Spans/Rows.antt =====
-- spans.rs: the rows that a span list reads, and how they take apart.
use music_streaming.Base.{
  ℕ, zero, suc, ◌+◌, ◌-◌, ◌≤◌, ◌<◌, ◌≡◌, refl, sym, ap, ◌∙◌, some, List, [], ◌∷◌, ◌++◌, arith,
  append_assoc, length, take, drop, get_elem?, set, insert_at, length-append, ap₂,
}
use music_streaming.Queue.Spans.{View, Span, running}

abbrev pub Row : Type 0
Row = View × ℕ

-- The rows of `len` positions of `view` from `start`.
unfoldable pub span_rows : View → ℕ → ℕ → List Row
span_rows view start zero = []
span_rows view start (suc len) = (view, start) ∷ span_rows view (suc start) len

unfoldable pub rows : List Span → List Row
rows [] = []
rows (s ∷ spans) = span_rows s.view s.start s.len ++ rows spans

abbrev pub total : List Span → ℕ
total [] = 0
total (s ∷ spans) = s.len + total spans

pub length-span_rows : (v : View) (start len : ℕ) → length (span_rows v start len) ≡ len
unfolding span_rows
length-span_rows v start zero = refl
length-span_rows v start (suc len) = ap suc (length-span_rows v (suc start) len)

pub length-rows : (spans : List Span) → length (rows spans) ≡ total spans
unfolding rows
length-rows [] = refl
length-rows (s ∷ spans) = omega (
  arith,
  length-append (span_rows s.view s.start s.len) (rows spans),
  length-span_rows s.view s.start s.len,
  length-rows spans,
)

pub total-append : (xs ys : List Span) → total (xs ++ ys) ≡ total xs + total ys
total-append [] ys = omega arith
total-append (x ∷ xs) ys = omega (arith, total-append xs ys)

pub rows-append : (xs ys : List Span) → rows (xs ++ ys) ≡ rows xs ++ rows ys
unfolding rows
rows-append [] ys = refl
rows-append (x ∷ xs) ys =
    rw (rows-append xs ys) (sym (append_assoc (span_rows x.view x.start x.len) (rows xs) (rows ys)))

-- Two stretches of one view, the second starting where the first ends, are one.
pub span_rows-append :
    (v : View) (start m n : ℕ)
    → span_rows v start (m + n) ≡ span_rows v start m ++ span_rows v (start + m) n
unfolding span_rows
span_rows-append v start zero n =
    let e : 0 + n ≡ n = omega arith in let e' : start + 0 ≡ start = omega arith in rw (e, e')
span_rows-append v start (suc m) n =
    let e : suc m + n ≡ suc (m + n) = omega arith in
    let e' : start + suc m ≡ suc start + m = omega arith in
    rw (e, e') (ap (λ r. (v, start) ∷ r) (span_rows-append v (suc start) m n))

pub get_elem?-span_rows :
    (v : View) (start len i : ℕ)
    → i < len
    → get_elem? (span_rows v start len) i ≡ some (v, start + i)
unfolding span_rows
get_elem?-span_rows v start zero i h = elim h [ ]
get_elem?-span_rows v start (suc len) zero h = ground arith
get_elem?-span_rows v start (suc len) (suc i) h =
    ground (arith, get_elem?-span_rows v (suc start) len i)

module _ {ℓ} {A : Type ℓ} where
  pub take_left : (n : ℕ) (xs ys : List A) → n ≡ length xs → take n (xs ++ ys) ≡ xs
  take_left n [] ys h = rw h
  take_left zero (x ∷ xs) ys h = absurd (omega arith)
  take_left (suc n) (x ∷ xs) ys h = ap (λ r. x ∷ r) (take_left n xs ys (omega arith))

  pub drop_left : (n : ℕ) (xs ys : List A) → n ≡ length xs → drop n (xs ++ ys) ≡ ys
  drop_left n [] ys h = rw h
  drop_left zero (x ∷ xs) ys h = absurd (omega arith)
  drop_left (suc n) (x ∷ xs) ys h = drop_left n xs ys (omega arith)

  pub take_all : (n : ℕ) (xs : List A) → length xs ≤ n → take n xs ≡ xs
  take_all n [] h = take_nil n
    where
      take_nil : (n : ℕ) → take {A = A} n [] ≡ []
      take_nil zero = refl
      take_nil (suc n) = refl
  take_all zero (x ∷ xs) h = absurd (omega arith)
  take_all (suc n) (x ∷ xs) h = ap (λ r. x ∷ r) (take_all n xs (omega arith))

  pub drop_all : (n : ℕ) (xs : List A) → length xs ≤ n → drop n xs ≡ []
  drop_all zero [] h = refl
  drop_all (suc n) [] h = refl
  drop_all zero (x ∷ xs) h = absurd (omega arith)
  drop_all (suc n) (x ∷ xs) h = drop_all n xs (omega arith)

  -- What stands at the place behind `before`, read, written and joined by a neighbour.
  pub get_elem?_middle :
      (before : List A) (x : A) (behind : List A)
      → get_elem? (before ++ (x ∷ behind)) (length before) ≡ some x
  get_elem?_middle [] x behind = refl
  get_elem?_middle (b ∷ before) x behind = get_elem?_middle before x behind

  pub set_middle :
      (before : List A) (x : A) (behind : List A) (y : A)
      → set (before ++ (x ∷ behind)) (length before) y ≡ before ++ (y ∷ behind)
  set_middle [] x behind y = refl
  set_middle (b ∷ before) x behind y = ap (λ r. b ∷ r) (set_middle before x behind y)

  pub insert_at_left :
      (n : ℕ) (before behind : List A) (x : A)
      → n ≡ length before
      → insert_at (before ++ behind) n x ≡ before ++ (x ∷ behind)
  insert_at_left n before behind x h =
      ap₂ (λ a b. a ++ (x ∷ b)) (take_left n before behind h) (drop_left n before behind h)

-- The running lengths of two stretches of spans.
pub running-append :
    (acc : ℕ) (xs ys : List Span)
    → running acc (xs ++ ys) ≡ running acc xs ++ running (acc + total xs) ys
running-append acc [] ys = let e : acc ≡ acc + 0 = omega arith in ap (λ a. running a ys) e
running-append acc (x ∷ xs) ys =
    let e : acc + x.len + total xs ≡ acc + (x.len + total xs) = omega arith in
    ap (λ r. (acc + x.len) ∷ r)
      (running-append (acc + x.len) xs ys ∙ ap (λ a. running (acc + x.len) xs ++ running a ys) e)

pub length-running : (acc : ℕ) (xs : List Span) → length (running acc xs) ≡ length xs
length-running acc [] = refl
length-running acc (x ∷ xs) = ap suc (length-running (acc + x.len) xs)

-- A stretch of one view, cut in two.
pub span_rows_cut :
    (v : View) (start len offset : ℕ)
    → offset ≤ len
    → span_rows v start len
      ≡ span_rows v start offset ++ span_rows v (start + offset) (len - offset)
span_rows_cut v start len offset h =
    let e : len ≡ offset + (len - offset) = omega arith in
    ap (span_rows v start) e ∙ span_rows-append v start offset (len - offset)
