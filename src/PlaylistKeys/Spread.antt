-- ===== src/PlaylistKeys/Spread.antt =====
-- The keys that spread of keys.rs adds, beside its bounds.
use native.Mathlib.Nat.{div-mul-le_self, mul-suc, mul-le-mul_left}
use music_streaming.Base.{
  ℕ, zero, suc, ◌+◌, ◌-◌, ◌*◌, ◌≤◌, ◌<◌, List, [], ◌∷◌, ◌++◌, Option, none, some, ◌≡◌, refl, ap,
  subst, ◌∙◌, append_assoc, append-nil, length, All, arith, Option-bind,
}
use music_streaming.Base.Positions.{IsAscending}
use music_streaming.PlaylistKeys.{
  key_gap, origin, gaps, above, below, step_between, spread_key, spread_from, spread,
}

-- The least key that may follow.
abbrev pub after : Option ℕ → ℕ
after none = 0
after (some low) = suc low

-- The least number over the keys that may come before.
abbrev pub until : Option ℕ → ℕ
until none = origin + origin
until (some high) = high

gaps-some : (n reach : ℕ) → gaps n ≡ some reach → (reach ≡ key_gap * n) × (reach < origin)
unfolding gaps
gaps-some n reach e = (ground arith, ground arith)

step_between-some :
    (low high count step : ℕ)
    → step_between low high count ≡ some step
    → (0 < step) × (low + step * count < high)
unfolding step_between
step_between-some low high count step e =
    let within : step * (count + 1) ≤ high - low =
      ground (arith, div-mul-le_self (high - low) (count + 1)) in
    let next : count + 1 ≡ suc count = omega arith in
    let positive : 0 < step = ground arith in
    (positive, omega (arith, mul-suc step count, rw next at within))

above-some : (low n key : ℕ) → above low n ≡ some key → (key ≡ low + n) × (key < origin + origin)
unfolding above
above-some low n key e = (ground arith, ground arith)

below-some : (high n key : ℕ) → below high n ≡ some key → key + n ≡ high
unfolding below
below-some high n key e = ground arith

pub bind-some :
    {A B : Type 0} (o : Option A) (f : A → Option B) {b : B}
    → Option-bind o f ≡ some b
    → (a : A) × (o ≡ some a) × (f a ≡ some b)
bind-some none f e = absurd (cc e)
bind-some (some a) f e = (a, refl, e)

-- A pushed key lies between the bounds.
spread_key-between :
    (low high : Option ℕ) (count n key : ℕ)
    → 0 < n
    → n ≤ count
    → after low ≤ until high
    → spread_key low high count n ≡ some key
    → (after low ≤ key) × (key < until high)
unfolding spread_key
spread_key-between (some low) (some high) count n key p q l e =
    let (step, found, same) = bind-some _ _ e in
    let bounds = step_between-some low high count step found in
    let some_step = mul-le-mul_left step p in
    let at_most = mul-le-mul_left step q in (ground arith, ground arith)
spread_key-between (some low) none count n key p q l e =
    let (reach, found, same) = bind-some _ _ e in
    let (span, small) = gaps-some n reach found in
    let (sum, fits) = above-some low reach key same in (omega arith, fits)
spread_key-between none (some high) count n key p q l e =
    let (reach, found, same) = bind-some _ _ e in
    let (span, small) = gaps-some (count + 1 - n) reach found in
    let sum = below-some high reach key same in (omega arith, omega arith)
spread_key-between none none count n key p q l e =
    let (reach, found, same) = bind-some _ _ e in
    let (span, small) = gaps-some n reach found in (omega arith, ground arith)

-- The next key that is pushed is above.
spread_key-lt :
    (low high : Option ℕ) (count n key next : ℕ)
    → n < count
    → spread_key low high count n ≡ some key
    → spread_key low high count (suc n) ≡ some next
    → key < next
unfolding spread_key
spread_key-lt (some low) (some high) count n key next p e f =
    let (step, found, same) = bind-some _ _ e in
    let (step', found', same') =
      bind-some (step_between low high count) (λ step. some (low + step * suc n)) f in
    let bounds = step_between-some low high count step found in ground (arith, mul-suc step n)
spread_key-lt (some low) none count n key next p e f =
    let (reach, found, same) = bind-some _ _ e in
    let (reach', found', same') = bind-some _ _ f in
    let span = gaps-some n reach found in
    let span' = gaps-some (suc n) reach' found' in
    let sum = above-some low reach key same in
    let sum' = above-some low reach' next same' in omega arith
spread_key-lt none (some high) count n key next p e f =
    let (reach, found, same) = bind-some _ _ e in
    let (reach', found', same') = bind-some _ _ f in
    let span = gaps-some (count + 1 - n) reach found in
    let span' = gaps-some (count + 1 - suc n) reach' found' in
    let sum = below-some high reach key same in
    let sum' = below-some high reach' next same' in omega arith
spread_key-lt none none count n key next p e f =
    let (reach, found, same) = bind-some _ _ e in
    let (reach', found', same') = bind-some _ _ f in
    let span = gaps-some n reach found in
    let span' = gaps-some (suc n) reach' found' in ground arith

-- `rest` is added to the keys at hand: so many keys, ascending from a bound and under another.
pub record Added (keys added rest : List ℕ) (count low high : ℕ) : Type 0 where
  pub joined : added ≡ keys ++ rest
  pub counted : length rest ≡ count
  pub ascending : IsAscending low rest
  pub under : All (λ key. key < high) rest

pub Added-nil : (keys : List ℕ) (low high : ℕ) → Added keys keys [] 0 low high
Added-nil keys low high = record {
  joined = cc (append-nil keys);
  counted = refl;
  ascending = tt;
  under = tt;
}

pub Added-push :
    (keys added rest : List ℕ) (key count count' low high : ℕ)
    → low ≤ key
    → key < high
    → suc count ≡ count'
    → Added (keys ++ (key ∷ [])) added rest count (suc key) high
    → Added keys added (key ∷ rest) count' low high
Added-push keys added rest key count count' low high l h n more = record {
  joined = more.joined ∙ append_assoc keys (key ∷ []) rest;
  counted = ap suc more.counted ∙ n;
  ascending = (l, more.ascending);
  under = (h, more.under);
}

-- From a bound that the next key keeps.
spread_from-Added :
    (low high : Option ℕ) (count left n bound : ℕ) (keys added : List ℕ)
    → 0 < n
    → n + left ≡ suc count
    → after low ≤ until high
    → ((key : ℕ) → n ≤ count → spread_key low high count n ≡ some key → bound ≤ key)
    → spread_from low high count left n keys ≡ some added
    → (rest : List ℕ) × Added keys added rest left bound (until high)
unfolding spread_from
spread_from-Added low high count zero n bound keys added p q l next e =
    let same : keys ≡ added = cc e in
    (
      [],
      subst (λ a. Added keys a [] 0 bound (until high)) (same) (Added-nil keys bound (until high)),
    )
spread_from-Added low high count (suc left) n bound keys added p q l next e =
    let (key, found, more) = bind-some (spread_key low high count n) _ e in
    let within : n ≤ count = omega arith in
    let (rest, a) =
      spread_from-Added low high count left (suc n) (suc key) (keys ++ (key ∷ [])) added
        (omega arith) (omega arith) l
        (λ key' within' found'. spread_key-lt low high count n key key' within' found found')
        more in
    (
      key ∷ rest,
      Added-push keys added rest key left (suc left) bound (until high) (next key within found)
          (spread_key-between low high count n key p within l found).1 refl a,
    )

pub spread-Added :
    (low high : Option ℕ) (count : ℕ) (keys added : List ℕ)
    → after low ≤ until high
    → spread low high count keys ≡ some added
    → (rest : List ℕ) × Added keys added rest count (after low) (until high)
unfolding spread
spread-Added low high count keys added l e =
    let taken : spread_from low high count count 1 keys ≡ some added = ground arith in
    spread_from-Added low high count count 1 (after low) keys added (omega arith) (omega arith) l
      (λ key within found. (spread_key-between low high count 1 key (omega arith) within l found).0)
      taken
