-- ===== src/PlaylistKeys/Assign.antt =====
-- The answers of assign in keys.rs.
use music_streaming.Base.{
  ℕ, suc, ◌+◌, ◌≤◌, ◌<◌, List, [], ◌∷◌, ◌++◌, Option, none, some, ◌≡◌, refl, inl, inr, Option-cases,
  length, get_elem?, All, arith, ◌==◌, if◌then◌else◌,
}
use music_streaming.Base.Positions.{IsAscending}
use music_streaming.PlaylistKeys.{origin, longest_increasing, assign_from, assign}
use music_streaming.PlaylistKeys.Tops.{Run, run-tops}
use music_streaming.PlaylistKeys.Assigned.{assign_from-Added}
use music_streaming.PlaylistKeys.Kept.{IsStored, Within, kept_count}
use music_streaming.PlaylistKeys.Longest.{longest_increasing-Keeps}

-- The number of items that keep their stored key.
abbrev pub unchanged : List (Option ℕ) → List ℕ → ℕ
unchanged [] keys = 0
unchanged (item ∷ stored) [] = 0
unchanged (none ∷ stored) (key ∷ keys) = unchanged stored keys
unchanged (some old ∷ stored) (key ∷ keys) =
    if key == old then suc (unchanged stored keys) else unchanged stored keys

-- A key for each item, all of them i64s and strictly ascending; at least so many items keep theirs.
pub record IsAssigned (stored : List (Option ℕ)) (n : ℕ) (keys : List ℕ) : Type 0 where
  pub counted : length keys ≡ length stored
  pub ascending : IsAscending 0 keys
  pub bounded : All (λ key. key < origin + origin) keys
  pub fewest : n ≤ unchanged stored keys

abbrev pub IsAnswer : List (Option ℕ) → ℕ → Option (List ℕ) → Type 0
IsAnswer stored n none = n < length stored
IsAnswer stored n (some keys) = IsAssigned stored n keys

unchanged-cons :
    (item : Option ℕ) (stored : List (Option ℕ)) (key : ℕ) (keys : List ℕ) {n : ℕ}
    → n ≤ unchanged stored keys
    → n ≤ unchanged (item ∷ stored) (key ∷ keys)
unchanged-cons none stored key keys l = l
unchanged-cons (some old) stored key keys l = ground arith

kept_count-unchanged :
    (stored kept : List (Option ℕ)) (keys : List ℕ)
    → length keys ≡ length stored
    → Within stored kept
    → ((i key : ℕ) → get_elem? kept i ≡ some (some key) → get_elem? keys i ≡ some key)
    → kept_count kept ≤ unchanged stored keys
kept_count-unchanged stored [] keys n w f = omega arith
kept_count-unchanged [] (none ∷ kept) keys n w f =
    kept_count-unchanged [] kept [] refl (λ i key e. absurd (cc (w (suc i) key e)))
      (λ i key e. absurd (cc (w (suc i) key e)))
kept_count-unchanged [] (some key ∷ kept) keys n w f = absurd (cc (w 0 key refl))
kept_count-unchanged (x ∷ stored) kept [] n w f = absurd (omega arith)
kept_count-unchanged (x ∷ stored) (none ∷ kept) (k ∷ keys) n w f =
    let rest =
      kept_count-unchanged stored kept keys (omega arith) (λ i. w (suc i)) (λ i. f (suc i)) in
    unchanged-cons x stored k keys rest
kept_count-unchanged (x ∷ stored) (some key ∷ kept) (k ∷ keys) n w f =
    let rest =
      kept_count-unchanged stored kept keys (omega arith) (λ i. w (suc i)) (λ i. f (suc i)) in
    let stays : k ≡ key = cc (f 0 key refl) in
    let old : x ≡ some key = cc (w 0 key refl) in rw old (ground arith)

kept_count-length : (kept : List (Option ℕ)) → kept_count kept ≤ length kept
kept_count-length [] = omega arith
kept_count-length (none ∷ kept) = omega (arith, kept_count-length kept)
kept_count-length (some key ∷ kept) = omega (arith, kept_count-length kept)

-- With no key to find, there is no gap to use up.
assign_from-none :
    (kept : List (Option ℕ)) (low : Option ℕ) (keys : List ℕ)
    → assign_from kept low 0 keys ≡ none
    → kept_count kept < length kept
unfolding assign_from
assign_from-none [] low keys e = absurd (cc e)
assign_from-none (none ∷ kept) low keys e = omega (arith, kept_count-length kept)
assign_from-none (some key ∷ kept) low keys e =
    omega (arith, assign_from-none kept (some key) (keys ++ (key ∷ [])) e)

-- Given the stored keys of the items in their new order, and any strictly increasing run of n of
-- them: the keys assigned are one for each item, i64s, strictly ascending, and at least n items
-- keep their stored key. Where none are assigned, the run leaves out an item.
pub assign-IsAnswer :
    (stored : List (Option ℕ)) (n : ℕ)
    → IsStored stored
    → Run 0 stored n
    → IsAnswer stored n (assign stored)
unfolding assign
assign-IsAnswer stored n s run =
    let kept = longest_increasing-Keeps stored s in
    let many = run-tops n stored run in
    elim (Option-cases (assign_from (longest_increasing stored) none 0 [])) [
      | inl e ↦ rw e (
          omega (
            arith,
            assign_from-none (longest_increasing stored) none [] e,
            kept.counted,
            kept.as_long,
          ))
      | inr (keys, e) ↦
          let (rest, a, filled) =
            assign_from-Added (longest_increasing stored) none 0 [] keys kept.ascending
              (omega arith) e in
          let n_keys : length rest ≡ length stored = omega (arith, a.counted, kept.as_long) in
          let fewest =
            kept_count-unchanged stored (longest_increasing stored) rest n_keys kept.within
              (λ i key f. let z : 0 + i ≡ i = omega arith in rw z at (filled i key f)) in
          rw e (
            rw a.joined (record {
              counted = n_keys;
              ascending = a.ascending;
              bounded = a.under;
              fewest = omega (arith, kept.counted);
            }))
    ]
