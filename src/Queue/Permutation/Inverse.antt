-- ===== src/Queue/Permutation/Inverse.antt =====
-- permutation.rs: `permute` and `unpermute` are inverse permutations of the positions below `m`.
use mathlib.Core.List.{reverse-cons, reverse-reverse}
use music_streaming.Base.{
  ℕ, ◌<◌, ◌≡◌, refl, inl, inr, max, List, [], ◌∷◌, ◌++◌, reverse, arith, Bool-cases,
}
use music_streaming.Base.Positions.{range_from}
use music_streaming.Queue.Permutation.{
  pivot_of, coin, partner_of, round, apply_rounds, permute_with, unpermute_with, rounds, permute,
  unpermute,
}

partner_of-lt : (m k x : ℕ) → k < m → x < m → partner_of m k x < m
unfolding partner_of
partner_of-lt m k x hk hx = ground arith

partner_of-partner_of : (m k x : ℕ) → k < m → x < m → partner_of m k (partner_of m k x) ≡ x
unfolding partner_of
partner_of-partner_of m k x hk hx = ground arith

pivot_of-lt : (seed m i x : ℕ) → x < m → pivot_of seed m i < m
unfolding pivot_of
pivot_of-lt seed m i x h = omega arith

module _ (seed m : ℕ) where
  round-lt : (i x : ℕ) → x < m → round seed m i x < m
  unfolding round
  round-lt i x h = ground (
    arith,
    pivot_of-lt seed m i x h,
    partner_of-lt m (pivot_of seed m i) x (pivot_of-lt seed m i x h) h,
  )

  -- A round is its own inverse: both members of a pair see the same coin.
  pub round-round : (i x : ℕ) → x < m → round seed m i (round seed m i x) ≡ x
  unfolding round
  round-round i x h = elim (Bool-cases (coin seed i (max x partner))) [
    | inl e ↦ rw (e, back) (rw (swapped, e))
    | inr e ↦ rw (e, e)
  ]
    where
      partner : ℕ
      partner = partner_of m (pivot_of seed m i) x

      back : partner_of m (pivot_of seed m i) partner ≡ x
      back = partner_of-partner_of m (pivot_of seed m i) x (pivot_of-lt seed m i x h) h

      swapped : max partner x ≡ max x partner
      swapped = omega arith

  apply_rounds-lt : (is : List ℕ) (x : ℕ) → x < m → apply_rounds seed m is x < m
  unfolding apply_rounds
  apply_rounds-lt [] x h = h
  apply_rounds-lt (i ∷ is) x h = apply_rounds-lt is (round seed m i x) (round-lt i x h)

  apply_rounds-append :
      (is js : List ℕ) (x : ℕ)
      → apply_rounds seed m (is ++ js) x ≡ apply_rounds seed m js (apply_rounds seed m is x)
  unfolding apply_rounds
  apply_rounds-append [] js x = refl
  apply_rounds-append (i ∷ is) js x = apply_rounds-append is js (round seed m i x)

  -- The rounds in the other order undo the rounds.
  apply_rounds-reverse :
      (is : List ℕ) (x : ℕ)
      → x < m
      → apply_rounds seed m (reverse is) (apply_rounds seed m is x) ≡ x
  unfolding apply_rounds
  apply_rounds-reverse [] x h = refl
  apply_rounds-reverse (i ∷ is) x h =
      rw (reverse-cons i is, apply_rounds-append (reverse is) (i ∷ []))
        (rw (apply_rounds-reverse is (round seed m i x) (round-lt i x h)) (round-round i x h))

  permute_with-lt : (n x : ℕ) → x < m → permute_with seed m n x < m
  unfolding permute_with
  permute_with-lt n x h = ground (arith, apply_rounds-lt (range_from 0 n) x h)

  unpermute_with-lt : (n x : ℕ) → x < m → unpermute_with seed m n x < m
  unfolding unpermute_with
  unpermute_with-lt n x h = ground (arith, apply_rounds-lt (reverse (range_from 0 n)) x h)

  unpermute_with-permute_with :
      (n x : ℕ) → x < m → unpermute_with seed m n (permute_with seed m n x) ≡ x
  unfolding permute_with unpermute_with
  unpermute_with-permute_with n x h = ground (arith, apply_rounds-reverse (range_from 0 n) x h)

  permute_with-unpermute_with :
      (n y : ℕ) → y < m → permute_with seed m n (unpermute_with seed m n y) ≡ y
  unfolding permute_with unpermute_with
  permute_with-unpermute_with n y h =
      ground (
        arith,
        apply_rounds-reverse (reverse (range_from 0 n)) y h,
        reverse-reverse (range_from 0 n),
      )

  -- For every seed and every position x of a list of m rows, x < m: permute gives a position below
  -- m, and unpermute of it is x.
  pub unpermute-permute :
      (x : ℕ) → x < m → (permute seed m x < m) × (unpermute seed m (permute seed m x) ≡ x)
  unfolding permute unpermute
  unpermute-permute x h =
      (permute_with-lt (rounds m) x h, unpermute_with-permute_with (rounds m) x h)

  -- For every seed and every y < m: unpermute gives a position below m, and permute of it is y, so
  -- every position of the list is reached.
  pub permute-unpermute :
      (y : ℕ) → y < m → (unpermute seed m y < m) × (permute seed m (unpermute seed m y) ≡ y)
  unfolding permute unpermute
  permute-unpermute y h =
      (unpermute_with-lt (rounds m) y h, permute_with-unpermute_with (rounds m) y h)
