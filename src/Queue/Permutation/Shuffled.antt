-- ===== src/Queue/Permutation/Shuffled.antt =====
-- permutation.rs: the landing places of all positions, in order, are a permutation of them.
use mathlib.Core.List.{
  Mem, Nodup, Nodup-nil, Nodup-cons, perm_ext_iff_of_Nodup, mem-map, mem-map_of_mem, mem-cast,
}
use mathlib.Core.List.{mem-cons_self, mem-cons_of_mem}
use mathlib.Core.Logic.{∥∥₁_elim}
use mathlib.Core.HLevel.{⊥_prop}
use native.Mathlib.Bridge.{le_prop}
use music_streaming.Base.{ℕ, ◌≤◌, ◌<◌, ◌+◌, ◌≡◌, sym, ap, ◌∙◌, List, [], ◌∷◌, map, Perm, arith}
use music_streaming.Base.Positions.{
  range_from, range_from-lt, mem-range_from, range_from-IsAscending, IsAscending-Nodup,
}
use music_streaming.Queue.Permutation.{permute, unpermute}
use music_streaming.Queue.Permutation.Inverse.{unpermute-permute, permute-unpermute}

module _ (seed m : ℕ) where
  landing-le : {y : ℕ} → Mem y (map (permute seed m) (range_from 0 m)) → y + 1 ≤ m
  landing-le y_in = ∥∥₁_elim (mem-map.0 y_in) le_prop λ (x, x_in, e).
      let inside : x < m = omega (arith, range_from-lt 0 m x_in) in
      omega (arith, e, (unpermute-permute seed m x inside).0)

  landing-lt : {y : ℕ} → Mem y (map (permute seed m) (range_from 0 m)) → y < m
  landing-lt y_in = omega (arith, landing-le y_in)

  Nodup-landings :
      (xs : List ℕ) → ((x : ℕ) → Mem x xs → x < m) → Nodup xs → Nodup (map (permute seed m) xs)
  Nodup-landings [] h d = Nodup-nil
  Nodup-landings (x ∷ xs) h d = Nodup-cons.1 (
    (λ again. ∥∥₁_elim (mem-map.0 again) ⊥_prop λ (y, y_in, e).
        let same : y ≡ x =
          sym (unpermute-permute seed m y (h y (mem-cons_of_mem x y_in))).1
          ∙ ap (unpermute seed m) e
          ∙ (unpermute-permute seed m x (h x mem-cons_self)).1 in
        (Nodup-cons.0 d).0 (mem-cast (sym same) y_in)),
    Nodup-landings xs (λ y y_in. h y (mem-cons_of_mem x y_in)) (Nodup-cons.0 d).1,
  )

  -- The landing places of the positions 0 to m - 1, taken in order, are a permutation of them.
  pub permute-perm : Perm (map (permute seed m) (range_from 0 m)) (range_from 0 m)
  permute-perm =
      let inside = λ (x : ℕ) (x_in : Mem x (range_from 0 m)).
        (let l : x < m = omega (arith, range_from-lt 0 m x_in) in l) in
      let alone = IsAscending-Nodup 0 (range_from 0 m) (range_from-IsAscending 0 m) in
      (perm_ext_iff_of_Nodup (Nodup-landings (range_from 0 m) inside alone) alone).1 λ y. (
        λ y_in. mem-range_from 0 m y (omega arith) (omega (arith, landing-lt y_in)),
        λ y_in.
            let back = permute-unpermute seed m y (inside y y_in) in
            mem-cast (sym back.1) (
              mem-map_of_mem (permute seed m)
                (mem-range_from 0 m (unpermute seed m y) (omega arith) (omega (arith, back.0)))),
      )
