-- ===== src/PlaylistKeys/Assigned.antt =====
-- The loops of assign in keys.rs, around the keys that are kept.
use music_streaming.Base.{
  ℕ, zero, suc, ◌+◌, ◌-◌, ◌≤◌, ◌<◌, List, [], ◌∷◌, ◌++◌, Option, none, some, ◌≡◌, ap, subst, ◌∙◌,
  append_assoc, length, length-append, get_elem?, get_elem?-append_right, All, arith,
}
use music_streaming.Base.Positions.{IsAscending}
use music_streaming.PlaylistKeys.{origin, spread, assign_from}
use music_streaming.PlaylistKeys.Spread.{
  after, bind-some, Added, Added-nil, Added-push, spread-Added,
}

-- The keys kept ascend from a bound on, and are keys.
abbrev pub KeepsAscending : ℕ → List (Option ℕ) → Type 0
KeepsAscending bound [] = Unit
KeepsAscending bound (none ∷ kept) = KeepsAscending bound kept
KeepsAscending bound (some key ∷ kept) =
    (bound ≤ key) × (key < origin + origin) × KeepsAscending (suc key) kept

-- After the first `count` keys that are added, each key that is kept stands at its item's place.
abbrev pub IsFilled : List (Option ℕ) → ℕ → List ℕ → Type 0
IsFilled kept count rest =
    (i key : ℕ) → get_elem? kept i ≡ some (some key) → get_elem? rest (count + i) ≡ some key

append-IsAscending :
    (bound high : ℕ) (xs ys : List ℕ)
    → bound ≤ high
    → IsAscending bound xs
    → All (λ key. key < high) xs
    → IsAscending (suc high) ys
    → IsAscending bound (xs ++ (high ∷ ys))
append-IsAscending bound high [] ys l a u more = (l, more)
append-IsAscending bound high (x ∷ xs) ys l a u more =
    (a.0, append-IsAscending (suc x) high xs ys u.0 a.1 u.1 more)

All-append : {A : Type 0} (P : A → Type 0) (xs ys : List A) → All P xs → All P ys → All P (xs ++ ys)
All-append P [] ys a b = b
All-append P (x ∷ xs) ys a b = (a.0, All-append P xs ys a.1 b)

All-mono :
    {A : Type 0} (P Q : A → Type 0) → ((x : A) → P x → Q x) → (xs : List A) → All P xs → All Q xs
All-mono P Q f [] a = tt
All-mono P Q f (x ∷ xs) a = (f x a.0, All-mono P Q f xs a.1)

-- Keys between two kept ones, the second of them, and what follows.
Added-join :
    (keys spread_keys added before rest : List ℕ) (count more low key : ℕ)
    → low ≤ key
    → key < origin + origin
    → Added keys spread_keys before count low key
    → Added (spread_keys ++ (key ∷ [])) added rest more (suc key) (origin + origin)
    → Added keys added (before ++ (key ∷ rest)) (count + suc more) low (origin + origin)
Added-join keys spread_keys added before rest count more low key l h a b = record {
  joined = cc (
    a.joined,
    b.joined,
    append_assoc (keys ++ before) (key ∷ []) rest,
    append_assoc keys before (key ∷ rest),
  );
  counted = omega (arith, length-append before (key ∷ rest), a.counted, b.counted);
  ascending = append-IsAscending low key before rest l a.ascending a.under b.ascending;
  under =
      All-append (λ x. x < origin + origin) before (key ∷ rest)
        (All-mono (λ x. x < key) (λ x. x < origin + origin) (λ x less. omega arith) before a.under)
        (h, b.under);
}

Added-counted :
    {keys added rest : List ℕ} {count count' low high : ℕ}
    → count ≡ count'
    → Added keys added rest count low high
    → Added keys added rest count' low high
Added-counted e a = record {
  joined = a.joined;
  counted = a.counted ∙ e;
  ascending = a.ascending;
  under = a.under;
}

IsFilled-none :
    (kept : List (Option ℕ)) (count : ℕ) (rest : List ℕ)
    → IsFilled kept (suc count) rest
    → IsFilled (none ∷ kept) count rest
IsFilled-none kept count rest filled zero key f = absurd (cc f)
IsFilled-none kept count rest filled (suc i) key f =
    let e : count + suc i ≡ suc count + i = omega arith in rw e (filled i key f)

IsFilled-some :
    (kept : List (Option ℕ)) (key : ℕ) (rest : List ℕ)
    → IsFilled kept 0 rest
    → IsFilled (some key ∷ kept) 0 (key ∷ rest)
IsFilled-some kept key rest filled zero key' f = ground (arith, f)
IsFilled-some kept key rest filled (suc i) key' f =
    let e : 0 + i ≡ i = omega arith in
    let e' : 0 + suc i ≡ suc i = omega arith in rw e' (rw e at (filled i key' f))

IsFilled-append :
    (kept : List (Option ℕ)) (count : ℕ) (spread_keys rest : List ℕ)
    → length spread_keys ≡ count
    → IsFilled kept 0 rest
    → IsFilled kept count (spread_keys ++ rest)
IsFilled-append kept count spread_keys rest n filled i key f =
    let e : count + i - length spread_keys ≡ 0 + i = omega arith in
    get_elem?-append_right spread_keys rest (count + i) (omega arith)
    ∙ ap (get_elem? rest) e
    ∙ filled i key f

pub assign_from-Added :
    (kept : List (Option ℕ)) (low : Option ℕ) (count : ℕ) (keys added : List ℕ)
    → KeepsAscending (after low) kept
    → after low ≤ origin + origin
    → assign_from kept low count keys ≡ some added
    → (rest : List ℕ) × Added keys added rest (count + length kept) (after low) (origin + origin)
      × IsFilled kept count rest
unfolding assign_from
assign_from-Added [] low zero keys added k l e =
    let same : keys ≡ added = cc e in
    let none_added = Added-nil keys (after low) (origin + origin) in
    (
      [],
      Added-counted (omega arith)
          (subst (λ a. Added keys a [] 0 (after low) (origin + origin)) (same) none_added),
      λ i key f. absurd (cc f),
    )
assign_from-Added [] low (suc count) keys added k l e =
    let (rest, a) = spread-Added low none (suc count) keys added l e in
    (rest, Added-counted (omega arith) a, λ i key f. absurd (cc f))
assign_from-Added (none ∷ kept) low count keys added k l e =
    let (rest, a, filled) = assign_from-Added kept low (suc count) keys added k l e in
    (rest, Added-counted (omega arith) a, IsFilled-none kept count rest filled)
assign_from-Added (some key ∷ kept) low zero keys added k l e =
    let (rest, a, filled) =
      assign_from-Added kept (some key) 0 (keys ++ (key ∷ [])) added k.2 k.1 e in
    (
      key ∷ rest,
      Added-push keys added rest key (0 + length kept) (0 + suc (length kept)) (after low)
          (origin + origin) k.0 k.1 (omega arith) a,
      IsFilled-some kept key rest filled,
    )
assign_from-Added (some key ∷ kept) low (suc count) keys added k l e =
    let (spread_keys, found, same) = bind-some (spread low (some key) (suc count) keys) _ e in
    let (before, first) = spread-Added low (some key) (suc count) keys spread_keys k.0 found in
    let (rest, a, filled) =
      assign_from-Added kept (some key) 0 (spread_keys ++ (key ∷ [])) added k.2 k.1 same in
    (
      before ++ (key ∷ rest),
      Added-counted (omega arith) (
          Added-join keys spread_keys added before rest (suc count) (0 + length kept) (after low)
            key k.0 k.1 first a),
      IsFilled-append (some key ∷ kept) (suc count) before (key ∷ rest) first.counted
          (IsFilled-some kept key rest filled),
    )
