-- ===== src/Playlist.antt =====
-- crates/core/src/playlist.rs: playlist edits. The items are generic, as in the source; `Vec` is
-- `List`, `usize` a native number.
pub mod Selection
pub mod Edits
pub mod RoundTrip
pub mod Runs
mod Tests
use music_streaming.Base.{
  ◌≡◌, refl, ◌⊎◌, inl, inr, ℕ, suc, ◌+◌, Option, none, some, List, [], ◌∷◌, ◌++◌, if◌then◌else◌,
  leb, ltb, ◌==◌, length, splice,
}
use music_streaming.Base.Sorting.{sort}

pub data Op {ℓ} (A : Type ℓ) : Type ℓ where
  add : Option ℕ → List A → Op A
  remove : List ℕ → Op A
  move : List ℕ → ℕ → Op A

pub data OpError : Type 0 where
  empty : OpError
  out_of_range duplicate : ℕ → OpError

pub data Result {ℓ} (A : Type ℓ) : Type ℓ where
  ok : A → Result A
  err : OpError → Result A

pub Result-cases {ℓ} :
    {A : Type ℓ} (m : Result A) → ((a : A) × (m ≡ ok a)) ⊎ ((e : OpError) × (m ≡ err e))
Result-cases (ok a) = inl (a, refl)
Result-cases (err e) = inr (e, refl)

-- The `?` operator: an error returns at once.
infixl 5 ◌>>=◌
abbrev pub ◌>>=◌ {ℓ κ} : {A : Type ℓ} {B : Type κ} → Result A → (A → Result B) → Result B
err error >>= next = err error
ok value >>= next = next value

-- Where the value is of no use.
infixl 5 ◌>>◌
abbrev pub ◌>>◌ {κ} : {B : Type κ} → Result (Unit {0}) → Result B → Result B
first >> second = first >>= λ _. second

-- `check`: errors unless `p` is a position from 0 to `max`.
pub check : ℕ → ℕ → Result (Unit {0})
check p max = if ltb max p then err (out_of_range p) else ok tt

-- The loop of `selection` at the position after `previous`.
pub check_next : ℕ → List ℕ → ℕ → Result (Unit {0})
check_next previous [] length = ok tt
check_next previous (p ∷ rest) length =
    if leb length p
    then err (out_of_range p)
    else if previous == p
    then err (duplicate p)
    else check_next p rest length

-- The loop of `selection` from its first position, where there is no neighbour to compare.
pub check_all : List ℕ → ℕ → Result (Unit {0})
unfolding check_next
check_all [] length = ok tt
check_all (p ∷ rest) length =
    if leb length p then err (out_of_range p) else check_next p rest length

-- The positions in playlist order.
pub selection : List ℕ → ℕ → Result (List ℕ)
unfolding check_all
selection [] length = err empty
selection (p ∷ rest) length = do
  let positions = sort (p ∷ rest)
  check_all positions length
  ok positions

module _ {ℓ} {A : Type ℓ} where
  -- The loop of `without` at item `i`: the kept items and the taken ones. `drop` is the peekable
  -- iterator, whose front is taken where it is `i`.
  pub without_from : ℕ → List A → List ℕ → List A × List A
  without_from i [] drop = ([], [])
  without_from i (item ∷ list) [] =
      let (rest, taken) = without_from (suc i) list [] in (item ∷ rest, taken)
  without_from i (item ∷ list) (p ∷ drop) =
      let (rest, taken) = without_from (suc i) list (if p == i then drop else p ∷ drop) in
      if p == i then (rest, item ∷ taken) else (item ∷ rest, taken)

  pub without : List A → List ℕ → List A × List A
  unfolding without_from
  without list drop = without_from 0 list drop

  -- `at.unwrap_or(list.len())`
  pub add_at : Option ℕ → List A → ℕ
  add_at none list = length list
  add_at (some at) list = at

  pub apply_op : List A → Op A → Result (List A)
  unfolding add_at selection check without
  apply_op list (add at items) = do
    check (add_at at list) (length list)
    ok (splice list (add_at at list) items)
  apply_op list (remove positions) = do
    drop ← selection positions (length list)
    ok (without list drop).0
  apply_op list (move positions at) = do
    moving ← selection positions (length list)
    check at (length (without list moving).0)
    ok (splice (without list moving).0 at (without list moving).1)

  pub apply_ops : List A → List (Op A) → Result (List A)
  unfolding apply_op
  apply_ops items [] = ok items
  apply_ops items (op ∷ ops) = do items' ← apply_op items op; apply_ops items' ops
