-- ===== src/PlaylistKeys/Tops.antt =====
-- The keys at the tails of longest_increasing in keys.rs, beside any increasing run of the stored keys.
use music_streaming.Base.{
  ℕ, zero, suc, ◌+◌, ◌≤◌, List, [], ◌∷◌, Option, none, some, ◌≡◌, refl, ap, inl, inr, Bool-cases,
  map, length, partition_point, All, arith, ltb, ltb→lt, if◌then◌else◌,
}
use music_streaming.Base.Positions.{IsAscending}
use music_streaming.PlaylistKeys.{put_tail, present_from}

-- A strictly increasing run of the keys of a list, from a bound on, and its length.
pub data Run : ℕ → List (Option ℕ) → ℕ → Type 0 where
  ended : (bound : ℕ) → Run bound [] zero
  passed :
      (bound n : ℕ) (item : Option ℕ) (stored : List (Option ℕ))
      → Run bound stored n
      → Run bound (item ∷ stored) n
  picked :
      (bound key n : ℕ) (stored : List (Option ℕ))
      → bound ≤ key
      → Run (suc key) stored n
      → Run bound (some key ∷ stored) (suc n)

-- A key in place of the first that is not below it, or at the end.
abbrev pub place : ℕ → List ℕ → List ℕ
place key [] = key ∷ []
place key (top ∷ tops) = if ltb top key then top ∷ place key tops else key ∷ tops

abbrev pub place_all : List ℕ → List ℕ → List ℕ
place_all tops [] = tops
place_all tops (key ∷ keys) = place_all (place key tops) keys

abbrev pub keys_in : List (Option ℕ) → List ℕ
keys_in [] = []
keys_in (none ∷ stored) = keys_in stored
keys_in (some key ∷ stored) = key ∷ keys_in stored

-- How many tops stand before the first that is not under the bound.
abbrev under : ℕ → List ℕ → ℕ
under bound tops = partition_point (λ top. ltb top bound) tops

under-place : (bound key : ℕ) (tops : List ℕ) → under bound tops ≤ under bound (place key tops)
under-place bound key [] = omega arith
under-place bound key (top ∷ tops) = ground (arith, under-place bound key tops)

under-place_suc :
    (bound key : ℕ) (tops : List ℕ)
    → bound ≤ key
    → suc (under bound tops) ≤ under (suc key) (place key tops)
under-place_suc bound key [] l = ground arith
under-place_suc bound key (top ∷ tops) l = ground (arith, under-place_suc bound key tops l)

under-length : (bound : ℕ) (tops : List ℕ) → under bound tops ≤ length tops
under-length bound [] = omega arith
under-length bound (top ∷ tops) = ground (arith, under-length bound tops)

-- The tops under the bound and the run from the bound on together are no more than the tops at the end.
run-place_all :
    {bound n : ℕ} {stored : List (Option ℕ)}
    → Run bound stored n
    → (tops : List ℕ) → under bound tops + n ≤ length (place_all tops (keys_in stored))
run-place_all (ended bound) tops = omega (arith, under-length bound tops)
run-place_all (passed bound n none stored run) tops = run-place_all run tops
run-place_all (passed bound n (some key) stored run) tops =
    omega (arith, under-place bound key tops, run-place_all run (place key tops))
run-place_all (picked bound key n stored l run) tops =
    omega (arith, under-place_suc bound key tops l, run-place_all run (place key tops))

pub run-tops :
    (n : ℕ) (stored : List (Option ℕ)) → Run 0 stored n → n ≤ length (place_all [] (keys_in stored))
run-tops n stored run = omega (arith, run-place_all run [])

pub map-present :
    (at : ℕ) (stored : List (Option ℕ)) → map (λ p. p.1) (present_from at stored) ≡ keys_in stored
unfolding present_from
map-present at [] = refl
map-present at (none ∷ stored) = map-present (suc at) stored
map-present at (some key ∷ stored) = ap (λ r. key ∷ r) (map-present (suc at) stored)

pub map-put_tail :
    (f : ℕ → ℕ) (tails : List ℕ) (i : ℕ)
    → map f (put_tail tails (partition_point (λ t. ltb (f t) (f i)) tails) i)
      ≡ place (f i) (map f tails)
map-put_tail f [] i = refl
map-put_tail f (t ∷ tails) i = ground (arith, map-put_tail f tails i)

lower-IsAscending :
    (low high : ℕ) (xs : List ℕ) → low ≤ high → IsAscending high xs → IsAscending low xs
lower-IsAscending low high [] l a = tt
lower-IsAscending low high (x ∷ xs) l a = (omega arith, a.1)

-- Ascending tops stay ascending, so those under a key stand first, as partition_point wants.
place-IsAscending :
    (bound key : ℕ) (tops : List ℕ)
    → bound ≤ key
    → IsAscending bound tops
    → IsAscending bound (place key tops)
place-IsAscending bound key [] l a = (l, tt)
place-IsAscending bound key (top ∷ tops) l a = elim (Bool-cases (ltb top key)) [
  | inl e ↦ rw e (a.0, place-IsAscending (suc top) key tops (ltb→lt top key e) a.1)
  | inr e ↦ rw e (l, lower-IsAscending (suc key) (suc top) tops (ground arith) a.1)
]

place_all-IsAscending :
    (bound : ℕ) (tops keys : List ℕ)
    → IsAscending bound tops
    → All (λ key. bound ≤ key) keys
    → IsAscending bound (place_all tops keys)
place_all-IsAscending bound tops [] a h = a
place_all-IsAscending bound tops (key ∷ keys) a h =
    place_all-IsAscending bound (place key tops) keys (place-IsAscending bound key tops h.0 a) h.1
