-- ===== src/Base/Sorting.antt =====
-- `sort_unstable` and `dedup` on numbers: the standard library's sort as an insertion sort, which
-- gives the same list, since equal numbers cannot be told apart.
use mathlib.Core.List.Perm
use music_streaming.Base.Tests.{leb, if◌then◌else◌, Bool-cases}
use music_streaming.Base.Lists.{length}
use Prim.Native.Nat.{ℕ, suc, ◌≤◌}
use mathlib.Core.Path.{◌≡◌, refl, ap, ◌∙◌}
use mathlib.Core.Logic.{inl, inr}
use mathlib.Core.List.{List, [], ◌∷◌, Perm}
use native.Mathlib.Omega.{arith}

pub insert_sorted : ℕ → List ℕ → List ℕ
insert_sorted a [] = a ∷ []
insert_sorted a (x ∷ xs) = if leb a x then a ∷ (x ∷ xs) else x ∷ insert_sorted a xs

unfoldable pub sort : List ℕ → List ℕ
unfolding insert_sorted
sort [] = []
sort (x ∷ xs) = insert_sorted x (sort xs)

-- Ascending from a bound, equal neighbours allowed.
abbrev pub IsSorted : ℕ → List ℕ → Type 0
IsSorted b [] = Unit
IsSorted b (x ∷ xs) = (b ≤ x) × IsSorted x xs

insert_sorted-perm : (a : ℕ) (xs : List ℕ) → Perm (insert_sorted a xs) (a ∷ xs)
unfolding insert_sorted
insert_sorted-perm a [] = Perm.refl _
insert_sorted-perm a (x ∷ xs) = elim (Bool-cases (leb a x)) [
  | inl e ↦ rw e (Perm.refl _)
  | inr e ↦ rw e (Perm.trans (Perm.cons x (insert_sorted-perm a xs)) (Perm.swap a x xs))
]

pub sort-perm : (xs : List ℕ) → Perm (sort xs) xs
unfolding sort
sort-perm [] = Perm.refl _
sort-perm (x ∷ xs) = Perm.trans (insert_sorted-perm x (sort xs)) (Perm.cons x (sort-perm xs))

insert_sorted-IsSorted :
    (b a : ℕ) (xs : List ℕ) → b ≤ a → IsSorted b xs → IsSorted b (insert_sorted a xs)
unfolding insert_sorted
insert_sorted-IsSorted b a [] h s = (h, tt)
insert_sorted-IsSorted b a (x ∷ xs) h s = ground (arith, insert_sorted-IsSorted x a xs)

pub sort-IsSorted : (xs : List ℕ) → IsSorted 0 (sort xs)
unfolding sort
sort-IsSorted [] = tt
sort-IsSorted (x ∷ xs) = insert_sorted-IsSorted 0 x (sort xs) (omega arith) (sort-IsSorted xs)

length-insert_sorted : (a : ℕ) (xs : List ℕ) → length (insert_sorted a xs) ≡ suc (length xs)
unfolding insert_sorted
length-insert_sorted a [] = refl
length-insert_sorted a (x ∷ xs) = ground (arith, length-insert_sorted a xs)

pub length-sort : (xs : List ℕ) → length (sort xs) ≡ length xs
unfolding sort
length-sort [] = refl
length-sort (x ∷ xs) = length-insert_sorted x (sort xs) ∙ ap suc (length-sort xs)

pub insert_sorted_ahead : (a x : ℕ) (xs : List ℕ) → a ≤ x → insert_sorted a (x ∷ xs) ≡ a ∷ (x ∷ xs)
unfolding insert_sorted
insert_sorted_ahead a x xs h = ground arith
