-- ===== src/Base/SortBy.antt =====
-- The standard library's stable sorts by a key, as an insertion sort, which gives the same list.
use mathlib.Core.Bool.{Bool-set}
use mathlib.Core.List.{mem-cons, not-mem-nil, Pairwise}
use mathlib.Core.List.Perm
use mathlib.Core.Logic.Or
use music_streaming.Base.{◌≡◌, List, [], ◌∷◌, false, Bool-cases, inl, inr, if◌then◌else◌, Perm}
use music_streaming.Base.Order.{Order, less, less_asym, not_less_trans}

module _ {ℓ κ} {A : Type ℓ} {K : Type κ} ⦃o : Order K⦄ (key : A → K) where
  unfoldable pub insert_by : A → List A → List A
  insert_by a [] = a ∷ []
  insert_by a (x ∷ xs) = if less (key x) (key a) then x ∷ insert_by a xs else a ∷ (x ∷ xs)

  -- Stable: of equal keys, the one that stood first stays first.
  unfoldable pub sort_by : List A → List A
  unfolding insert_by
  sort_by [] = []
  sort_by (x ∷ xs) = insert_by x (sort_by xs)

  abbrev pub IsNotAbove : A → A → Type 0
  IsNotAbove a b = less (key b) (key a) ≡ false

  pub insert_by-perm : (a : A) (xs : List A) → Perm (insert_by a xs) (a ∷ xs)
  unfolding insert_by
  insert_by-perm a [] = Perm.refl _
  insert_by-perm a (x ∷ xs) = elim (Bool-cases (less (key x) (key a))) [
    | inl e ↦ rw e (Perm.trans (Perm.cons x (insert_by-perm a xs)) (Perm.swap a x xs))
    | inr e ↦ rw e (Perm.refl _)
  ]

  pub sort_by-perm : (xs : List A) → Perm (sort_by xs) xs
  unfolding sort_by
  sort_by-perm [] = Perm.refl _
  sort_by-perm (x ∷ xs) = Perm.trans (insert_by-perm x (sort_by xs)) (Perm.cons x (sort_by-perm xs))

  insert_by-Pairwise :
      (a : A) (xs : List A) → Pairwise IsNotAbove xs → Pairwise IsNotAbove (insert_by a xs)
  unfolding insert_by
  insert_by-Pairwise a [] s = Pairwise.cons (λ y m. absurd (not-mem-nil m)) Pairwise.nil
  insert_by-Pairwise a (x ∷ xs) (Pairwise.cons below s) = elim (Bool-cases (less (key x) (key a))) [
    | inl e ↦ rw e (
        Pairwise.cons
          (λ y m.
            Or.elim (Bool-set _ _) (mem-cons.0 ((Perm.mem_iff (insert_by-perm a xs)).0 m))
              (λ same. rw same (less_asym (key x) (key a) e)) (below y))
          (insert_by-Pairwise a xs s))
    | inr e ↦ rw e (
        Pairwise.cons
          (λ y m.
            Or.elim (Bool-set _ _) (mem-cons.0 m) (λ same. rw same e)
              (λ r. not_less_trans (key a) (key x) (key y) e (below y r)))
          (Pairwise.cons below s))
  ]

  pub sort_by-Pairwise : (xs : List A) → Pairwise IsNotAbove (sort_by xs)
  unfolding sort_by
  sort_by-Pairwise [] = Pairwise.nil
  sort_by-Pairwise (x ∷ xs) = insert_by-Pairwise x (sort_by xs) (sort_by-Pairwise xs)
