-- ===== src/Base/Positions.antt =====
-- Ascending lists of positions, and the items of a list that stand at them or elsewhere.
use mathlib.Core.List.{
  Mem, Nodup, mem-cons, not-mem-nil, mem-cons_self, mem-cons_of_mem, Nodup-cons, Nodup-nil,
}
use mathlib.Core.Logic.Or
use native.Mathlib.Bridge.{le_prop}
use music_streaming.Base.{
  ℕ, zero, suc, ◌+◌, ◌≤◌, ◌<◌, ◌≡◌, refl, ap, ◌∙◌, Bool, true, false, not, List, [], ◌∷◌, ◌++◌,
  arith, length, any, ◌==◌, if◌then◌else◌, Bool-cases, inl, inr,
}

-- Strictly ascending, from a bound on.
abbrev pub IsAscending : ℕ → List ℕ → Type 0
IsAscending b [] = Unit
IsAscending b (x ∷ xs) = (b ≤ x) × IsAscending (suc x) xs

abbrev pub contains : List ℕ → ℕ → Bool
contains ps i = any (λ p. p == i) ps

module _ {ℓ} {A : Type ℓ} where
  -- The items whose position, counted from `i`, passes a test.
  abbrev pub keep_from : ℕ → (ℕ → Bool) → List A → List A
  keep_from i test [] = []
  keep_from i test (x ∷ xs) =
      if test i then x ∷ keep_from (suc i) test xs else keep_from (suc i) test xs

  abbrev pub items_at : List ℕ → List A → List A
  items_at ps = keep_from 0 (contains ps)

  abbrev pub items_not_at : List ℕ → List A → List A
  items_not_at ps = keep_from 0 (λ i. not (contains ps i))

  pub keep_from-congr :
      (i : ℕ) (f g : ℕ → Bool) (xs : List A)
      → ((j : ℕ) → i ≤ j → f j ≡ g j)
      → keep_from i f xs ≡ keep_from i g xs
  keep_from-congr i f g [] h = refl
  keep_from-congr i f g (x ∷ xs) h =
      ground (arith, h i (omega arith), keep_from-congr (suc i) f g xs (λ j l. h j (omega arith)))

  pub keep_from_all : (i : ℕ) (xs : List A) → keep_from i (λ _. true) xs ≡ xs
  keep_from_all i [] = refl
  keep_from_all i (x ∷ xs) = ap (λ r. x ∷ r) (keep_from_all (suc i) xs)

  pub keep_from_none : (i : ℕ) (xs : List A) → keep_from i (λ _. false) xs ≡ []
  keep_from_none i [] = refl
  keep_from_none i (x ∷ xs) = keep_from_none (suc i) xs

pub contains_below : (ps : List ℕ) (b j : ℕ) → IsAscending b ps → j < b → contains ps j ≡ false
contains_below [] b j a h = refl
contains_below (p ∷ ps) b j a h = ground (arith, contains_below ps (suc p) j a.1)

pub contains_later : (p : ℕ) (ps : List ℕ) (j : ℕ) → p < j → contains (p ∷ ps) j ≡ contains ps j
contains_later p ps j h = ground arith

module _ {ℓ} {A : Type ℓ} where
  -- The test matters only at the positions of the list.
  pub keep_from-within :
      (i : ℕ) (f g : ℕ → Bool) (xs : List A)
      → ((j : ℕ) → i ≤ j → j < i + length xs → f j ≡ g j)
      → keep_from i f xs ≡ keep_from i g xs
  keep_from-within i f g [] h = refl
  keep_from-within i f g (x ∷ xs) h = ground (
    arith,
    h i (omega arith) (omega arith),
    keep_from-within (suc i) f g xs (λ j l m. h j (omega arith) (omega arith)),
  )

  pub keep_from-append :
      (i : ℕ) (f : ℕ → Bool) (xs ys : List A)
      → keep_from i f (xs ++ ys) ≡ keep_from i f xs ++ keep_from (i + length xs) f ys
  keep_from-append i f [] ys = let e : i ≡ i + 0 = omega arith in ap (λ k. keep_from k f ys) e
  keep_from-append i f (x ∷ xs) ys =
      let e : suc i + length xs ≡ i + suc (length xs) = omega arith in
      elim (Bool-cases (f i)) [
        | inl h ↦ rw h (
            ap (λ r. x ∷ r)
              (keep_from-append (suc i) f xs ys
                ∙ ap (λ k. keep_from (suc i) f xs ++ keep_from k f ys) e))
        | inr h ↦ rw h (
            keep_from-append (suc i) f xs ys
            ∙ ap (λ k. keep_from (suc i) f xs ++ keep_from k f ys) e)
      ]

pub IsAscending-le : (b : ℕ) (xs : List ℕ) {y : ℕ} → IsAscending b xs → Mem y xs → b ≤ y
IsAscending-le b [] a m = absurd (not-mem-nil m)
IsAscending-le b (x ∷ xs) a m =
    Or.elim le_prop (mem-cons.0 m) (λ e. rw e a.0)
      (λ r. omega (arith, IsAscending-le (suc x) xs a.1 r))

pub IsAscending-Nodup : (b : ℕ) (xs : List ℕ) → IsAscending b xs → Nodup xs
IsAscending-Nodup b [] a = Nodup-nil
IsAscending-Nodup b (x ∷ xs) a = Nodup-cons.1 (
  (λ m. absurd (omega (arith, IsAscending-le (suc x) xs a.1 m))),
  IsAscending-Nodup (suc x) xs a.1,
)

-- The positions from `from` on, `n` of them.
abbrev pub range_from : ℕ → ℕ → List ℕ
range_from from zero = []
range_from from (suc n) = from ∷ range_from (suc from) n

pub range_from-IsAscending : (from n : ℕ) → IsAscending from (range_from from n)
range_from-IsAscending from zero = tt
range_from-IsAscending from (suc n) = (omega arith, range_from-IsAscending (suc from) n)

pub mem-range_from : (from n y : ℕ) → from ≤ y → y < from + n → Mem y (range_from from n)
mem-range_from from zero y l h = absurd (omega arith)
mem-range_from from (suc n) y l h = elim (Bool-cases (from == y)) [
  | inl e ↦ let same : from ≡ y = ground arith in rw same mem-cons_self
  | inr e ↦ mem-cons_of_mem from (mem-range_from (suc from) n y (ground arith) (omega arith))
]

pub range_from-lt : (from n : ℕ) {y : ℕ} → Mem y (range_from from n) → y < from + n
range_from-lt from zero m = absurd (not-mem-nil m)
range_from-lt from (suc n) m =
    Or.elim le_prop (mem-cons.0 m) (λ e. omega (arith, e))
      (λ r. omega (arith, range_from-lt (suc from) n r))
