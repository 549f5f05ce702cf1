-- ===== src/Playlist/Edits.antt =====
-- playlist.rs, `without` and `apply_op`: an edit described by which positions it names.
use mathlib.Core.List.{perm_middle, perm_append_comm, append_assoc, Permᴰ}
use mathlib.Core.Bool.{Bool-set}
use mathlib.Core.Logic.{∥∥₁_elim}
use mathlib.Core.List.Perm
use music_streaming.Base.{
  ℕ, suc, ◌≤◌, ◌<◌, ◌≡◌, ◌↔◌, refl, sym, ap, ◌∙◌, Bool, not, List, [], ◌∷◌, ◌++◌, Perm, arith,
  length, take, drop, take-append-drop, splice, any, ◌==◌, Bool-cases, inl, inr,
}
use music_streaming.Playlist.{
  Result-cases, remove, move, ok, check, selection, without_from, without, apply_op,
}
use music_streaming.Base.Positions.{
  IsAscending, contains, keep_from, items_at, items_not_at, keep_from-congr, contains_below,
  contains_later,
}
use music_streaming.Playlist.Selection.{
  selection-IsAscending, IsSelection, selection_iff, selection-eq-sort,
}

module _ {ℓ} {A : Type ℓ} where
  without_from-keep :
      (i : ℕ) (xs : List A) (ps : List ℕ)
      → IsAscending i ps
      → without_from i xs ps
        ≡ (keep_from i (λ j. not (contains ps j)) xs, keep_from i (contains ps) xs)
  unfolding without_from
  without_from-keep i [] ps a = refl
  without_from-keep i (x ∷ xs) [] a = rw (without_from-keep (suc i) xs [] tt)
  without_from-keep i (x ∷ xs) (p ∷ ps) a = elim (Bool-cases (p == i)) [
    | inl e ↦
        let pe : p ≡ i = ground arith in
        let later = λ (j : ℕ) (l : suc i ≤ j). contains_later p ps j (omega arith) in
        ground (
          arith,
          without_from-keep (suc i) xs ps (rw (← pe) a.1),
          keep_from-congr (suc i) (contains (p ∷ ps)) (contains ps) xs later,
          keep_from-congr (suc i) (λ j. not (contains (p ∷ ps) j)) (λ j. not (contains ps j)) xs
              (λ j l. ap not (later j l)),
        )
    | inr e ↦
        let ahead : i < p = ground arith in
        ground (
          arith,
          without_from-keep (suc i) xs (p ∷ ps) (ahead, a.1),
          contains_below ps (suc p) i a.1,
        )
  ]

  without_from-perm :
      (i : ℕ) (xs : List A) (ps : List ℕ)
      → Perm ((without_from i xs ps).0 ++ (without_from i xs ps).1) xs
  unfolding without_from
  without_from-perm i [] ps = Perm.refl []
  without_from-perm i (x ∷ xs) [] = Perm.cons x (without_from-perm (suc i) xs [])
  without_from-perm i (x ∷ xs) (p ∷ ps) = elim (Bool-cases (p == i)) [
    | inl e ↦ rw e (
        Perm.trans (perm_middle (without_from (suc i) xs ps).0 (without_from (suc i) xs ps).1)
          (Perm.cons x (without_from-perm (suc i) xs ps)))
    | inr e ↦ rw e (Perm.cons x (without_from-perm (suc i) xs (p ∷ ps)))
  ]

any-permᴰ : (f : ℕ → Bool) {xs ys : List ℕ} → Permᴰ xs ys → any f xs ≡ any f ys
any-permᴰ f Permᴰ.nil = refl
any-permᴰ f (Permᴰ.cons e q) = ground (arith, e, any-permᴰ f q, ap f e)
any-permᴰ f (Permᴰ.swap e e') = ground (arith, ap f e, ap f e')
any-permᴰ f (Permᴰ.trans q r) = any-permᴰ f q ∙ any-permᴰ f r

any-perm : (f : ℕ → Bool) {xs ys : List ℕ} → Perm xs ys → any f xs ≡ any f ys
any-perm f q = ∥∥₁_elim q (Bool-set _ _) (any-permᴰ f)

module _ {ℓ} {A : Type ℓ} where
  without-eq :
      (list : List A) (ps : List ℕ) {s : List ℕ}
      → selection ps (length list) ≡ ok s
      → without list s ≡ (items_not_at ps list, items_at ps list)
  unfolding without
  without-eq list ps {s} h =
      let (a, _, q) = selection-IsAscending ps (length list) h in
      let same : contains s ≡ contains ps = λ i j. any-perm (λ p. p == j) q i in
      without_from-keep 0 list s a
      ∙ ap (λ (f : ℕ → Bool). (keep_from 0 (λ j. not (f j)) list, keep_from 0 f list)) same

  without-perm :
      (list : List A) (ps : List ℕ) → Perm ((without list ps).0 ++ (without list ps).1) list
  unfolding without
  without-perm list ps = without_from-perm 0 list ps

  splice-perm : (xs : List A) (at : ℕ) (ys : List A) → Perm (splice xs at ys) (xs ++ ys)
  splice-perm xs at ys =
      Perm.trans (Perm.append_left (take at xs) (perm_append_comm ys (drop at xs)))
        (rw (← append_assoc (take at xs) (drop at xs) ys, take-append-drop at xs) (Perm.refl _))

  -- A successful remove leaves the items whose position it does not name, in their order.
  pub apply_op-remove :
      (list : List A) (ps : List ℕ) {r : List A}
      → apply_op list (remove ps) ≡ ok r
      → r ≡ items_not_at ps list
  unfolding apply_op
  apply_op-remove list ps h = elim (Result-cases (selection ps (length list))) [
    | inl (s, e) ↦ ground (arith, without-eq list ps e)
    | inr (x, e) ↦ ground arith
  ]

  -- A successful move puts the items whose position it names together, in their order, so that the
  -- first takes position `at`, among the others in theirs.
  pub apply_op-move :
      (list : List A) (ps : List ℕ) (at : ℕ) {r : List A}
      → apply_op list (move ps at) ≡ ok r
      → (r ≡ splice (items_not_at ps list) at (items_at ps list))
        × (at ≤ length (items_not_at ps list))
  unfolding apply_op check
  apply_op-move list ps at h = elim (Result-cases (selection ps (length list))) [
    | inl (s, e) ↦ ground (arith, without-eq list ps e)
    | inr (x, e) ↦ ground arith
  ]

  -- A move that succeeds gives a permutation of the playlist: no item is lost, doubled or made up.
  pub apply_op-move-perm :
      (list : List A) (ps : List ℕ) (at : ℕ) {r : List A}
      → apply_op list (move ps at) ≡ ok r
      → Perm r list
  unfolding apply_op
  apply_op-move-perm list ps at {r} h = elim (Result-cases (selection ps (length list))) [
    | inl (s, e) ↦
        let made : r ≡ splice (without list s).0 at (without list s).1 =
          (apply_op-move list ps at h).0
          ∙ ap (λ (t : List A × List A). splice t.0 at t.1) (sym (without-eq list ps e)) in
        rw made
          (Perm.trans (splice-perm (without list s).0 at (without list s).1) (without-perm list s))
    | inr (x, e) ↦ let no_way : ⊥ = ground arith in absurd no_way
  ]

  -- A remove gives the items whose position it does not name, in their order, exactly when its
  -- positions are some, in range and distinct.
  pub apply_op-remove_iff :
      (list : List A) (ps : List ℕ)
      → (apply_op list (remove ps) ≡ ok (items_not_at ps list)) ↔ IsSelection ps (length list)
  unfolding apply_op
  apply_op-remove_iff list ps = (accepted, applied)
    where
      accepted :
          apply_op list (remove ps) ≡ ok (items_not_at ps list) → IsSelection ps (length list)
      accepted h = elim (Result-cases (selection ps (length list))) [
        | inl (s, e) ↦
            (selection_iff ps (length list)).0 (e ∙ ap ok (selection-eq-sort ps (length list) e).0)
        | inr (x, e) ↦ let no_way : ⊥ = ground arith in absurd no_way
      ]

      applied : IsSelection ps (length list) → apply_op list (remove ps) ≡ ok (items_not_at ps list)
      applied v =
          let e = (selection_iff ps (length list)).1 v in ground (arith, e, without-eq list ps e)

  -- A move gives the other items with the named ones put together before position at of them,
  -- exactly when its positions are some, in range and distinct and the others are at least at
  -- many.
  pub apply_op-move_iff :
      (list : List A) (ps : List ℕ) (at : ℕ)
      → (apply_op list (move ps at) ≡ ok (splice (items_not_at ps list) at (items_at ps list)))
        ↔ (IsSelection ps (length list) × (at ≤ length (items_not_at ps list)))
  unfolding apply_op check
  apply_op-move_iff list ps at = (accepted, applied)
    where
      accepted :
          apply_op list (move ps at) ≡ ok (splice (items_not_at ps list) at (items_at ps list))
          → IsSelection ps (length list) × (at ≤ length (items_not_at ps list))
      accepted h = elim (Result-cases (selection ps (length list))) [
        | inl (s, e) ↦ (
          (selection_iff ps (length list)).0 (e ∙ ap ok (selection-eq-sort ps (length list) e).0),
          (apply_op-move list ps at h).1,
        )
        | inr (x, e) ↦ let no_way : ⊥ = ground arith in absurd no_way
      ]

      applied :
          IsSelection ps (length list) × (at ≤ length (items_not_at ps list))
          → apply_op list (move ps at) ≡ ok (splice (items_not_at ps list) at (items_at ps list))
      applied v =
          let e = (selection_iff ps (length list)).1 v.0 in
          ground (arith, e, v.1, without-eq list ps e)
