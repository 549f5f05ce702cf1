-- ===== src/Playlist/RoundTrip.antt =====
-- playlist.rs: a remove takes back what an add put in.
use music_streaming.Base.{
  ℕ, zero, suc, ◌+◌, ◌≤◌, ◌≡◌, refl, List, [], ◌∷◌, ◌++◌, some, arith, length, take, drop, splice,
  take-append-drop, length-append, length-take,
}
use music_streaming.Playlist.{add, remove, ok, check, without_from, without, add_at, apply_ops}
use music_streaming.Base.Positions.{IsAscending, range_from}
use music_streaming.Playlist.Selection.{Below, selection_ascending}

range_from-IsAscending : (b at n : ℕ) → b ≤ at → IsAscending b (range_from at n)
range_from-IsAscending b at zero h = tt
range_from-IsAscending b at (suc n) h =
    (h, range_from-IsAscending (suc at) (suc at) n (omega arith))

range_from-Below : (at n k : ℕ) → at + n ≤ k → Below k (range_from at n)
range_from-Below at zero k h = tt
range_from-Below at (suc n) k h = (omega arith, range_from-Below (suc at) n k (omega arith))

module _ {ℓ} {A : Type ℓ} where
  without_from_nothing : (i : ℕ) (zs : List A) → without_from i zs [] ≡ (zs, [])
  unfolding without_from
  without_from_nothing i [] = refl
  without_from_nothing i (z ∷ zs) = rw (without_from_nothing (suc i) zs)

  without_from_added :
      (i : ℕ) (ys zs : List A) → without_from i (ys ++ zs) (range_from i (length ys)) ≡ (zs, ys)
  unfolding without_from
  without_from_added i [] zs = without_from_nothing i zs
  without_from_added i (y ∷ ys) zs = ground (arith, without_from_added (suc i) ys zs)

  without_from_skip :
      (i at : ℕ) (xs ys zs : List A)
      → at ≡ i + length xs
      → without_from i (xs ++ (ys ++ zs)) (range_from at (length ys)) ≡ (xs ++ zs, ys)
  unfolding without_from
  without_from_skip i at [] ys zs e =
      let e' : at ≡ i = omega arith in rw e' (without_from_added i ys zs)
  without_from_skip i at (x ∷ xs) [] zs e = rw (without_from_nothing (suc i) (xs ++ zs))
  without_from_skip i at (x ∷ xs) (y ∷ ys) zs e =
      ground (arith, without_from_skip (suc i) at xs (y ∷ ys) zs)

  -- Where at is at most the length, adding one or more items at it and then removing the positions
  -- that they took gives back the playlist.
  pub apply_ops-add-remove :
      (list : List A) (at : ℕ) (x : A) (items : List A)
      → at ≤ length list
      → apply_ops list
          (add (some at) (x ∷ items) ∷ (remove (range_from at (suc (length items))) ∷ []))
        ≡ ok list
  unfolding apply_ops check without add_at
  apply_ops-add-remove list at x items h = ground (
    arith,
    selection_ascending at (range_from (suc at) (length items))
        (length (splice list at (x ∷ items)))
        (range_from-IsAscending 0 at (suc (length items)) (omega arith))
        (range_from-Below at (suc (length items)) (length (splice list at (x ∷ items))) fits),
    without_from_skip 0 at (take at list) (x ∷ items) (drop at list)
        (omega (arith, length-take at list)),
    take-append-drop at list,
  )
    where
      fits : at + suc (length items) ≤ length (splice list at (x ∷ items))
      fits = omega (
        arith,
        length-append (take at list) ((x ∷ items) ++ drop at list),
        length-append (x ∷ items) (drop at list),
        length-take at list,
      )
