-- ===== src/PlaylistKeys/Followed.antt =====
-- The loop of longest_increasing in keys.rs that follows the links and fills `kept`.
use music_streaming.Base.{
  ℕ, zero, suc, ◌+◌, ◌-◌, ◌≤◌, ◌<◌, List, [], ◌∷◌, Option, none, some, ◌≡◌, refl, sym, ap, subst,
  ◌∙◌, length, set, get_or, get_elem?, arith,
}
use music_streaming.PlaylistKeys.{key_of, present_from, follow}
use music_streaming.PlaylistKeys.Links.{Chain, get_elem?-get_or}
use music_streaming.PlaylistKeys.Kept.{IsStored, Keeps, Keeps-from, Keeps-set}

pub present-stored :
    (stored : List (Option ℕ)) (from t at key : ℕ)
    → get_elem? (present_from from stored) t ≡ some (at, key)
    → (from ≤ at) × (get_elem? stored (at - from) ≡ some (some key))
unfolding present_from
present-stored [] from t at key e = absurd (cc e)
present-stored (none ∷ stored) from t at key e =
    let (l, f) = present-stored stored (suc from) t at key e in
    let same : at - from ≡ suc (at - suc from) = omega arith in (omega arith, rw same f)
present-stored (some other ∷ stored) from zero at key e =
    let same : from ≡ at = cc e in
    let least : at - from ≡ 0 = omega arith in (omega arith, rw least (cc e))
present-stored (some other ∷ stored) from (suc t) at key e =
    let (l, f) = present-stored stored (suc from) t at key e in
    let same : at - from ≡ suc (at - suc from) = omega arith in (omega arith, rw same f)

present-ascending :
    (stored : List (Option ℕ)) (from s t a k b j : ℕ)
    → s < t
    → get_elem? (present_from from stored) s ≡ some (a, k)
    → get_elem? (present_from from stored) t ≡ some (b, j)
    → a < b
unfolding present_from
present-ascending [] from s t a k b j l e f = absurd (cc e)
present-ascending (none ∷ stored) from s t a k b j l e f =
    present-ascending stored (suc from) s t a k b j l e f
present-ascending (some x ∷ stored) from s zero a k b j l e f = absurd (omega arith)
present-ascending (some x ∷ stored) from zero (suc t) a k b j l e f =
    let later = (present-stored stored (suc from) t b j f).0 in
    let same : from ≡ a = cc e in omega arith
present-ascending (some x ∷ stored) from (suc s) (suc t) a k b j l e f =
    present-ascending stored (suc from) s t a k b j (omega arith) e f

pub follow-none :
    (fuel : ℕ) (present : List (ℕ × ℕ)) (before kept : List (Option ℕ))
    → follow fuel present before none kept ≡ kept
unfolding follow
follow-none zero present before kept = refl
follow-none (suc fuel) present before kept = refl

module _ (stored before : List (Option ℕ)) (s : IsStored stored) where
  abbrev pub at_of : ℕ → ℕ
  at_of t = (get_or (present_from 0 stored) t (0, 0)).0

  abbrev with_key : List (Option ℕ) → ℕ → List (Option ℕ)
  with_key kept t = set kept (at_of t) (some (key_of (present_from 0 stored) t))

  -- One turn of the loop.
  turn-Keeps :
      (t next bound count : ℕ) (kept : List (Option ℕ))
      → t < length (present_from 0 stored)
      → at_of t < next
      → key_of (present_from 0 stored) t < bound
      → Keeps stored next bound count kept
      → Keeps stored (at_of t) (key_of (present_from 0 stored) t) (suc count) (with_key kept t)
  turn-Keeps t next bound count kept p a b k =
      let there = get_elem?-get_or (present_from 0 stored) t (0, 0) p in
      let (l, found) =
        present-stored stored 0 t (at_of t) (key_of (present_from 0 stored) t) there in
      let same : at_of t - 0 ≡ at_of t = omega arith in
      Keeps-set stored kept (at_of t) (key_of (present_from 0 stored) t) next bound count s
        (ap (get_elem? stored) (sym same) ∙ found) a b k

  -- From a tail that ends a run of n + 1 linked keys, all of them are kept.
  pub follow-Keeps :
      (fuel n t next bound count : ℕ) (kept : List (Option ℕ))
      → n < fuel
      → t < length (present_from 0 stored)
      → Chain (present_from 0 stored) before n t
      → at_of t < next
      → key_of (present_from 0 stored) t < bound
      → Keeps stored next bound count kept
      → Keeps stored 0 0 (suc n + count) (follow fuel (present_from 0 stored) before (some t) kept)
  unfolding follow
  follow-Keeps zero n t next bound count kept l p c a b k = absurd (omega arith)
  follow-Keeps (suc fuel) zero t next bound count kept l p c a b k =
      let e =
        ap (λ run. follow fuel (present_from 0 stored) before run (with_key kept t)) c
        ∙ follow-none fuel (present_from 0 stored) before (with_key kept t) in
      subst (Keeps stored 0 0 (1 + count)) (sym e)
        (Keeps-from (omega arith) (turn-Keeps t next bound count kept p a b k))
  follow-Keeps (suc fuel) (suc n) t next bound count kept l p (u, e, less, lower, c) a b k =
      let there = get_elem?-get_or (present_from 0 stored) t (0, 0) p in
      let before_it = get_elem?-get_or (present_from 0 stored) u (0, 0) (omega arith) in
      let earlier =
        present-ascending stored 0 u t (at_of u) (key_of (present_from 0 stored) u) (at_of t)
          (key_of (present_from 0 stored) t) less before_it there in
      subst
        (λ run.
          Keeps stored 0 0 (suc (suc n) + count)
            (follow fuel (present_from 0 stored) before run (with_key kept t)))
        (sym e)
        (Keeps-from (omega arith) (
          follow-Keeps fuel n u (at_of t) (key_of (present_from 0 stored) t) (suc count)
            (with_key kept t) (omega arith) (omega arith) c earlier lower
            (turn-Keeps t next bound count kept p a b k)))
