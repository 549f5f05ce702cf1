-- ===== src/PlaylistKeys/Longest.antt =====
-- What longest_increasing of keys.rs keeps of the stored keys.
use music_streaming.Base.{
  ℕ, zero, suc, ◌+◌, ◌-◌, ◌≤◌, List, [], ◌∷◌, Option, none, some, ◌≡◌, refl, sym, ap, subst, ◌∙◌,
  inl, inr, Option-cases, length, length-map, get_elem?, get_last?, replicate, arith,
}
use music_streaming.PlaylistKeys.{origin, key_of, present_from, link, follow, longest_increasing}
use music_streaming.PlaylistKeys.Tops.{place_all, keys_in, map-present}
use music_streaming.PlaylistKeys.Links.{
  Chain, Linked, link-Linked, link-place_all, get_elem?-get_or,
}
use music_streaming.PlaylistKeys.Assigned.{KeepsAscending}
use music_streaming.PlaylistKeys.Kept.{
  IsStored, IsBlank, Within, Keeps, Keeps-from, kept_count, stored-lt,
}
use music_streaming.PlaylistKeys.Followed.{follow-Keeps, follow-none, at_of, present-stored}

Chain-le :
    (present : List (ℕ × ℕ)) (before : List (Option ℕ)) (n t : ℕ) → Chain present before n t → n ≤ t
Chain-le present before zero t c = omega arith
Chain-le present before (suc n) t (s, e, less, lower, c) =
    omega (arith, Chain-le present before n s c)

get_last?-inv :
    (tails : List ℕ) (t : ℕ)
    → get_last? tails ≡ some t
    → (n : ℕ) × (length tails ≡ suc n) × (get_elem? tails n ≡ some t)
get_last?-inv [] t e = absurd (cc e)
get_last?-inv (x ∷ []) t e = (0, refl, e)
get_last?-inv (x ∷ (y ∷ tails)) t e =
    let (n, l, f) = get_last?-inv (y ∷ tails) t e in (suc n, ap suc l, f)

get_last?-none : (tails : List ℕ) → get_last? tails ≡ none → length tails ≡ 0
get_last?-none [] e = refl
get_last?-none (x ∷ []) e = absurd (cc e)
get_last?-none (x ∷ (y ∷ tails)) e = absurd (omega (arith, get_last?-none (y ∷ tails) e))

replicate-IsBlank : (n : ℕ) → IsBlank n (replicate n none)
replicate-IsBlank zero = tt
replicate-IsBlank (suc n) = replicate-IsBlank n

replicate-KeepsAscending : (n bound : ℕ) → KeepsAscending bound (replicate n none)
replicate-KeepsAscending zero bound = tt
replicate-KeepsAscending (suc n) bound = replicate-KeepsAscending n bound

replicate-kept_count : (n : ℕ) → kept_count (replicate n none) ≡ 0
replicate-kept_count zero = refl
replicate-kept_count (suc n) = replicate-kept_count n

length-replicate : (n : ℕ) → length (replicate {A = Option ℕ} n none) ≡ n
length-replicate zero = refl
length-replicate (suc n) = ap suc (length-replicate n)

replicate-Within : (n : ℕ) (stored : List (Option ℕ)) → Within stored (replicate n none)
replicate-Within zero stored i key e = absurd (cc e)
replicate-Within (suc n) stored zero key e = absurd (cc e)
replicate-Within (suc n) [] (suc i) key e = replicate-Within n [] i key e
replicate-Within (suc n) (x ∷ stored) (suc i) key e = replicate-Within n stored i key e

blank-Keeps :
    (stored : List (Option ℕ)) (bound : ℕ)
    → Keeps stored (length stored) bound 0 (replicate (length stored) none)
blank-Keeps stored bound = record {
  blank = replicate-IsBlank (length stored);
  ascending = replicate-KeepsAscending (length stored) bound;
  within = replicate-Within (length stored) stored;
  counted = replicate-kept_count (length stored);
  as_long = length-replicate (length stored);
}

-- From the last tail, if any, as many keys are kept as there are tails.
last-Keeps :
    (stored before : List (Option ℕ)) (tails : List ℕ)
    → IsStored stored
    → Linked (present_from 0 stored) (length (present_from 0 stored)) tails before
    → Keeps stored 0 0 (length tails) (
        follow
          (length (present_from 0 stored))
          (present_from 0 stored)
          before
          (get_last? tails)
          (replicate (length stored) none))
last-Keeps stored before tails s h =
    let present = present_from 0 stored in
    let blank = blank-Keeps stored (origin + origin) in
    let Kept = λ (run : Option ℕ).
      Keeps stored 0 0 (length tails)
        (follow (length present) present before run (replicate (length stored) none)) in
    elim (Option-cases (get_last? tails)) [
      | inl e ↦ subst Kept (sym e) (
          subst (Keeps stored 0 0 (length tails))
            (sym (follow-none (length present) present before (replicate (length stored) none)))
            (Keeps-from (sym (get_last?-none tails e)) blank))
      | inr (t, e) ↦
          let (n, l, at) = get_last?-inv tails t e in
          let (less, c) = h n t at in
          let there = get_elem?-get_or present t (0, 0) less in
          let found =
            (present-stored stored 0 t (at_of stored before s t) (key_of present t) there).1 in
          let (small, in_list) =
            stored-lt stored (at_of stored before s t - 0) (key_of present t) s found in
          subst Kept (sym e) (
            Keeps-from (omega arith) (
              follow-Keeps stored before s (length present) n t (length stored) (origin + origin) 0
                (replicate (length stored) none) (omega (arith, Chain-le present before n t c)) less
                c (omega arith) small blank))
    ]

-- As many keys are kept as there are tops.
pub longest_increasing-Keeps :
    (stored : List (Option ℕ))
    → IsStored stored
    → Keeps stored 0 0 (length (place_all [] (keys_in stored))) (longest_increasing stored)
unfolding longest_increasing
longest_increasing-Keeps stored s =
    let present = present_from 0 stored in
    let unlinked = replicate (length present) none in
    let linked =
      link-Linked present present 0 [] unlinked refl (omega arith)
        (length-replicate (length present)) (λ n t e. absurd (cc e)) in
    let same : length (link present present 0 [] unlinked).0
        ≡ length (place_all [] (keys_in stored)) =
      sym (length-map (key_of present) (link present present 0 [] unlinked).0)
      ∙ ap length (link-place_all present present 0 [] unlinked refl)
      ∙ ap (λ keys. length (place_all [] keys)) (map-present 0 stored) in
    Keeps-from same (
      last-Keeps stored (link present present 0 [] unlinked).1
        (link present present 0 [] unlinked).0 s linked)
