-- ===== src/PlaylistKeys/Links.antt =====
-- The loop of longest_increasing in keys.rs over the stored keys, with its tails and links.
use music_streaming.Base.{
  ℕ, zero, suc, ◌+◌, ◌≤◌, ◌<◌, Bool, true, List, [], ◌∷◌, Option, none, some, ◌≡◌, refl, sym, ap,
  subst, ◌∙◌, ◌⊎◌, inl, inr, Bool-cases, map, length, set, drop, drop-drop, length-drop, get_or,
  get_elem?, get_elem?-drop, partition_point, arith, ltb, ltb→lt,
}
use music_streaming.PlaylistKeys.{put_tail, link_to, key_of, link}
use music_streaming.PlaylistKeys.Tops.{place, place_all, map-put_tail}

module _ {ℓ} {A : Type ℓ} where
  get_or-set : (xs : List A) (i : ℕ) (v d : A) → i < length xs → get_or (set xs i v) i d ≡ v
  get_or-set [] i v d h = absurd (omega arith)
  get_or-set (x ∷ xs) zero v d h = refl
  get_or-set (x ∷ xs) (suc i) v d h = get_or-set xs i v d (omega arith)

  get_or-set_below :
      (xs : List A) (i j : ℕ) (v d : A) → j < i → get_or (set xs i v) j d ≡ get_or xs j d
  get_or-set_below [] i j v d h = refl
  get_or-set_below (x ∷ xs) zero j v d h = absurd (omega arith)
  get_or-set_below (x ∷ xs) (suc i) zero v d h = refl
  get_or-set_below (x ∷ xs) (suc i) (suc j) v d h = get_or-set_below xs i j v d (omega arith)

  pub length-set : (xs : List A) (i : ℕ) (v : A) → length (set xs i v) ≡ length xs
  length-set [] i v = refl
  length-set (x ∷ xs) zero v = refl
  length-set (x ∷ xs) (suc i) v = ap suc (length-set xs i v)

  pub get_elem?-get_or :
      (xs : List A) (i : ℕ) (d : A) → i < length xs → get_elem? xs i ≡ some (get_or xs i d)
  get_elem?-get_or [] i d h = absurd (omega arith)
  get_elem?-get_or (x ∷ xs) zero d h = refl
  get_elem?-get_or (x ∷ xs) (suc i) d h = get_elem?-get_or xs i d (omega arith)

  get_or-get_elem? : (xs : List A) (i : ℕ) (d a : A) → get_elem? xs i ≡ some a → get_or xs i d ≡ a
  get_or-get_elem? [] i d a e = absurd (cc e)
  get_or-get_elem? (x ∷ xs) zero d a e = cc e
  get_or-get_elem? (x ∷ xs) (suc i) d a e = get_or-get_elem? xs i d a e

  -- What stands before the partition point passes.
  partition_point-passes :
      (p : A → Bool) (xs : List A) (i : ℕ)
      → i < partition_point p xs
      → (a : A) × (get_elem? xs i ≡ some a) × (p a ≡ true)
  partition_point-passes p [] i h = absurd (omega arith)
  partition_point-passes p (x ∷ xs) zero h = elim (Bool-cases (p x)) [
    | inl e ↦ (x, refl, e)
    | inr e ↦ absurd (omega (arith, rw e at h))
  ]
  partition_point-passes p (x ∷ xs) (suc i) h = elim (Bool-cases (p x)) [
    | inl e ↦ partition_point-passes p xs i (omega (arith, rw e at h))
    | inr e ↦ absurd (omega (arith, rw e at h))
  ]

put_tail-cons :
    (t n i : ℕ) (tails : List ℕ) → put_tail (t ∷ tails) (suc n) i ≡ t ∷ put_tail tails n i
put_tail-cons t n i tails = ground arith

-- A tail is one that was there, or the new one.
put_tail-inv :
    (tails : List ℕ) (n i m t : ℕ)
    → get_elem? (put_tail tails n i) m ≡ some t
    → ((m ≡ n) × (t ≡ i)) ⊎ (get_elem? tails m ≡ some t)
put_tail-inv [] zero i zero t e = inl (refl, ground arith)
put_tail-inv [] zero i (suc m) t e = absurd (cc e)
put_tail-inv [] (suc n) i m t e = ground arith
put_tail-inv (x ∷ tails) zero i zero t e = inl (refl, ground arith)
put_tail-inv (x ∷ tails) zero i (suc m) t e = inr (ground arith)
put_tail-inv (x ∷ tails) (suc n) i zero t e = inr (rw (put_tail-cons x n i tails) at e)
put_tail-inv (x ∷ tails) (suc n) i (suc m) t e =
    elim (put_tail-inv tails n i m t (rw (put_tail-cons x n i tails) at e)) [
      | inl (at, same) ↦ inl (ap suc at, same)
      | inr old ↦ inr old
    ]

module _ (present : List (ℕ × ℕ)) where
  -- A run of n + 1 linked keys ends at the index.
  abbrev pub Chain : List (Option ℕ) → ℕ → ℕ → Type 0
  Chain before zero t = get_or before t none ≡ none
  Chain before (suc n) t =
      (s : ℕ) × (get_or before t none ≡ some s)
      × (s < t)
      × (key_of present s < key_of present t)
      × Chain before n s

  -- Before the index i, the n-th tail ends a run of n + 1 keys.
  abbrev pub Linked : ℕ → List ℕ → List (Option ℕ) → Type 0
  Linked i tails before = (n t : ℕ) → get_elem? tails n ≡ some t → (t < i) × Chain before n t

  set-Chain :
      (before : List (Option ℕ)) (i n t : ℕ) (v : Option ℕ)
      → t < i
      → Chain before n t
      → Chain (set before i v) n t
  set-Chain before i zero t v l c = get_or-set_below before i t v none l ∙ c
  set-Chain before i (suc n) t v l (s, e, less, lower, c) = (
    s,
    get_or-set_below before i t v none l ∙ e,
    less,
    lower,
    set-Chain before i n s v (omega arith) c,
  )

  new-Chain :
      (tails : List ℕ) (before : List (Option ℕ)) (i n : ℕ)
      → i < length before
      → n ≤ partition_point (λ t. ltb (key_of present t) (key_of present i)) tails
      → Linked i tails before
      → Chain (set before i (link_to tails n)) n i
  new-Chain tails before i zero l w h = get_or-set before i none none l
  new-Chain tails before i (suc n) l w h =
      let (s, e, lower) =
        partition_point-passes (λ t. ltb (key_of present t) (key_of present i)) tails n w in
      let (less, c) = h n s e in
      (
        s,
        get_or-set before i (get_elem? tails n) none l ∙ e,
        less,
        ltb→lt (key_of present s) (key_of present i) lower,
        set-Chain before i n s (get_elem? tails n) less c,
      )

  put-Linked :
      (tails : List ℕ) (before : List (Option ℕ)) (i n : ℕ)
      → i < length before
      → n ≡ partition_point (λ t. ltb (key_of present t) (key_of present i)) tails
      → Linked i tails before
      → Linked (suc i) (put_tail tails n i) (set before i (link_to tails n))
  put-Linked tails before i n l w h m t e = elim (put_tail-inv tails n i m t e) [
    | inl (at, same) ↦ (
      omega arith,
      subst (λ k. Chain (set before i (link_to tails n)) m k) (sym same)
          (subst (λ k. Chain (set before i (link_to tails n)) k i) (sym at)
            (new-Chain tails before i n l (omega arith) h)),
    )
    | inr old ↦
        let (less, c) = h m t old in (omega arith, set-Chain before i m t (link_to tails n) less c)
  ]

  -- The loop has come to an index.
  record At (i at key : ℕ) (rest : List (ℕ × ℕ)) : Type 0 where
    pub same : key_of present i ≡ key
    pub later : drop (suc i) present ≡ rest
    pub within : i < length present

  drop-At :
      (i at key : ℕ) (rest : List (ℕ × ℕ)) → drop i present ≡ (at, key) ∷ rest → At i at key rest
  drop-At i at key rest d =
      let e : i + 0 ≡ i = omega arith in
      let next : i + 1 ≡ suc i = omega arith in
      let found : get_elem? present i ≡ some (at, key) =
        ap (get_elem? present) (sym e)
        ∙ sym (get_elem?-drop i 0 present)
        ∙ ap (λ r. get_elem? r 0) d in
      record {
        same = ap (λ p. p.1) (get_or-get_elem? present i (0, 0) (at, key) found);
        later = ap (λ k. drop k present) (sym next) ∙ sym (drop-drop 1 i present) ∙ ap (drop 1) d;
        within = omega (arith, length-drop i present, ap length d);
      }

  -- The loop from the index i on.
  pub link-Linked :
      (rest : List (ℕ × ℕ)) (i : ℕ) (tails : List ℕ) (before : List (Option ℕ))
      → drop i present ≡ rest
      → i ≤ length present
      → length before ≡ length present
      → Linked i tails before
      → Linked
          (length present)
          (link present rest i tails before).0
          (link present rest i tails before).1
  unfolding link
  link-Linked [] i tails before d l b h = λ n t e. let (less, c) = h n t e in (omega arith, c)
  link-Linked ((at, key) ∷ rest) i tails before d l b h =
      let here = drop-At i at key rest d in
      let n = partition_point (λ t. ltb (key_of present t) key) tails in
      link-Linked rest (suc i) (put_tail tails n i) (set before i (link_to tails n)) here.later
        here.within (length-set before i (link_to tails n) ∙ b)
        (put-Linked tails before i n (omega (arith, here.within, b))
          (ap (λ k. partition_point (λ t. ltb (key_of present t) k) tails) (sym here.same)) h)

  -- The keys at the tails that the loop leaves.
  pub link-place_all :
      (rest : List (ℕ × ℕ)) (i : ℕ) (tails : List ℕ) (before : List (Option ℕ))
      → drop i present ≡ rest
      → map (key_of present) (link present rest i tails before).0
        ≡ place_all (map (key_of present) tails) (map (λ p. p.1) rest)
  unfolding link
  link-place_all [] i tails before d = refl
  link-place_all ((at, key) ∷ rest) i tails before d =
      let here = drop-At i at key rest d in
      let n = partition_point (λ t. ltb (key_of present t) key) tails in
      let put : map (key_of present) (put_tail tails n i) ≡ place key (map (key_of present) tails) =
        subst
          (λ k.
            map (key_of present)
              (put_tail tails (partition_point (λ t. ltb (key_of present t) k) tails) i)
            ≡ place k (map (key_of present) tails))
          here.same (map-put_tail (key_of present) tails i) in
      link-place_all rest (suc i) (put_tail tails n i) (set before i (link_to tails n)) here.later
      ∙ ap (λ tops. place_all tops (map (λ p. p.1) rest)) put
