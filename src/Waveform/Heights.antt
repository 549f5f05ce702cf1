-- ===== src/Waveform/Heights.antt =====
-- crates/core/src/waveform.rs: the heights that shape_waveform draws for levels.
use mathlib.Core.List.{Mem, mem-cons_self, mem-cons_of_mem}
use mathlib.Core.List.Perm
use native.Mathlib.Nat.{div-lt_iff_lt-mul, le-div_iff_mul-le, div-mul-le_self, mod-eq_of_lt}
use music_streaming.Base.{
  ℕ, zero, suc, ◌+◌, ◌-◌, ◌*◌, ◌/◌, ◌%◌, ◌≤◌, ◌<◌, min, max, Option, List, [], ◌∷◌, map, ◌≡◌, refl,
  sym, ap, ◌∙◌, some, Option-cases, inl, inr, arith, length, length-map, get_elem?, retain,
  replicate, ltb, ltb→lt, ◌==◌, if◌then◌else◌,
}
use music_streaming.Base.Members.{mem-retain}
use music_streaming.Base.Sorting.{length-sort, sort-perm}
use music_streaming.Waveform.{
  checked_sub, shape_waveform, sounding_of, high_of, low_of, height, clamp, divide, map_all,
}

-- The height above the floor is at most the room above the floor.
above_floor : (above span : ℕ) → 0 < span → above ≤ span → (above * 231 + span / 2) / span < 232
above_floor above span p h = (div-lt_iff_lt-mul p).1 (omega arith)

div_mono : (a b n : ℕ) → 0 < n → a ≤ b → a / n ≤ b / n
div_mono a b n p h =
    let within : a / n * n ≤ b = omega (arith, div-mul-le_self a n) in
    (le-div_iff_mul-le p).1 within

abbrev between : ℕ → ℕ → ℕ → ℕ
between level low high = min (max level low) high

abbrev scaled : ℕ → ℕ → ℕ → ℕ
scaled low high level = ((between level low high - low) * 231 + (high - low) / 2) / (high - low)

-- The height, where no bound is above another.
drawn : ℕ → ℕ → ℕ → ℕ
drawn low high level = if level == 0 then 0 else (24 + scaled low high level) % 256

height-drawn :
    (low high level : ℕ)
    → low < high
    → height low high (high - low) level ≡ some (drawn low high level)
unfolding height drawn clamp divide
height-drawn low high level p = ground arith

drawn_sounding :
    (low high level : ℕ)
    → low < high
    → 0 < level
    → drawn low high level ≡ 24 + scaled low high level
unfolding drawn
drawn_sounding low high zero p h = elim h [ ]
drawn_sounding low high (suc level) p h =
    let small : scaled low high (suc level) < 232 =
      above_floor (between (suc level) low high - low) (high - low) (omega arith) (omega arith) in
    let kept : (24 + scaled low high (suc level)) % 256 ≡ 24 + scaled low high (suc level) =
      mod-eq_of_lt (omega arith) in
    ground (arith, kept)

drawn-bounds :
    (low high level : ℕ)
    → low < high
    → (drawn low high level ≤ 255) × ((0 < level) → 24 ≤ drawn low high level)
unfolding drawn
drawn-bounds low high zero p = (omega arith, λ h. absurd (omega arith))
drawn-bounds low high (suc level) p =
    let e = drawn_sounding low high (suc level) p (omega arith) in
    let small =
      above_floor (between (suc level) low high - low) (high - low) (omega arith) (omega arith) in
    (omega arith, λ h. omega arith)

drawn_mono : (low high a b : ℕ) → low < high → a ≤ b → drawn low high a ≤ drawn low high b
unfolding drawn
drawn_mono low high zero b p h = omega arith
drawn_mono low high (suc a) zero p h = absurd (omega arith)
drawn_mono low high (suc a) (suc b) p h =
    let more =
      div_mono ((between (suc a) low high - low) * 231 + (high - low) / 2)
        ((between (suc b) low high - low) * 231 + (high - low) / 2) (high - low) (omega arith)
        (omega arith) in
    omega (
      arith,
      drawn_sounding low high (suc a) p (omega arith),
      drawn_sounding low high (suc b) p (omega arith),
    )

-- Every level of a list sounds.
abbrev Sounding : List ℕ → Type 0
Sounding xs = (x : ℕ) → Mem x xs → 0 < x

get_elem?-mem :
    (xs : List ℕ) (i : ℕ) → i < length xs → (x : ℕ) × (get_elem? xs i ≡ some x) × Mem x xs
get_elem?-mem [] i h = elim h [ ]
get_elem?-mem (x ∷ xs) zero h = (x, refl, mem-cons_self)
get_elem?-mem (x ∷ xs) (suc i) h =
    let (y, e, m) = get_elem?-mem xs i (omega arith) in (y, e, mem-cons_of_mem x m)

sounding_of-Sounding : (rms : List ℕ) → Sounding (sounding_of rms)
unfolding sounding_of
sounding_of-Sounding rms x m =
    let kept = (Perm.mem_iff (sort-perm (retain (λ level. ltb 0 level) rms))).0 m in
    ltb→lt 0 x (mem-retain (λ level. ltb 0 level) rms x kept)

-- The percentiles stand in the list and apart, so the span that the heights divide by is not zero.
percentiles-lt :
    (rms : List ℕ) (last : ℕ)
    → length (sounding_of rms) ≡ suc last
    → (high : ℕ) × (low : ℕ) × (high_of (sounding_of rms) last ≡ some high)
      × (low_of (sounding_of rms) last high ≡ some low)
      × (low < high)
unfolding low_of high_of
percentiles-lt rms last e =
    let (high, at, m) = get_elem?-mem (sounding_of rms) (last * 95 / 100) (omega arith) in
    let (level, at', m') = get_elem?-mem (sounding_of rms) (last * 5 / 100) (omega arith) in
    let positive = sounding_of-Sounding rms high m in
    (high, min level (high - 12), at, rw at' refl, omega arith)

get_elem?-map :
    (f : ℕ → ℕ) (xs : List ℕ) (i : ℕ) {x : ℕ}
    → get_elem? xs i ≡ some x
    → get_elem? (map f xs) i ≡ some (f x)
get_elem?-map f [] i e = absurd (cc e)
get_elem?-map f (y ∷ xs) zero e = ground arith
get_elem?-map f (y ∷ xs) (suc i) e = get_elem?-map f xs i e

-- One function of the level draws every bin, within the bounds and never lower for a louder one.
record Draws (draw : ℕ → ℕ) : Type 0 where
  pub bounded : (level : ℕ) → draw level ≤ 255
  pub silent : draw 0 ≡ 0
  pub visible : (level : ℕ) → 0 < level → 24 ≤ draw level
  pub monotone : (a b : ℕ) → a ≤ b → draw a ≤ draw b

Draws-range :
    (draw : ℕ → ℕ)
    → Draws draw
    → (level : ℕ) → (24 * min level 1 ≤ draw level) × (draw level ≤ 255 * min level 1)
Draws-range draw d zero = (omega arith, omega (arith, d.silent))
Draws-range draw d (suc level) =
    (omega (arith, d.visible (suc level) (omega arith)), omega (arith, d.bounded (suc level)))

drawn-Draws : (low high : ℕ) → low < high → Draws (drawn low high)
unfolding drawn
drawn-Draws low high p = record {
  bounded = λ level. (drawn-bounds low high level p).0;
  silent = refl;
  visible = λ level h. (drawn-bounds low high level p).1 h;
  monotone = λ a b h. drawn_mono low high a b p h;
}

-- With nothing that sounds, any such function gives the zeros.
quiet-Draws : Draws (λ level. if level == 0 then 0 else 24)
quiet-Draws = record {
  bounded = λ level. ground arith;
  silent = refl;
  visible = λ level h. ground arith;
  monotone = λ a b h. ground arith;
}

map_quiet :
    (rms : List ℕ)
    → length (sounding_of rms) ≡ 0
    → replicate {A = ℕ} (length rms) 0 ≡ map (λ level. if level == 0 then 0 else 24) rms
unfolding sounding_of
map_quiet rms e = go rms (sym (length-sort (retain (λ level. ltb 0 level) rms)) ∙ e)
  where
    go :
        (xs : List ℕ)
        → length (retain (λ level. ltb 0 level) xs) ≡ 0
        → replicate {A = ℕ} (length xs) 0 ≡ map (λ level. if level == 0 then 0 else 24) xs
    go [] e = refl
    go (zero ∷ xs) e = ap (λ r. 0 ∷ r) (go xs e)
    go (suc l ∷ xs) e = grind arith

map_all-some :
    (f : ℕ → Option ℕ) (g : ℕ → ℕ) (xs : List ℕ)
    → ((x : ℕ) → f x ≡ some (g x))
    → map_all f xs ≡ some (map g xs)
map_all-some f g [] h = refl
map_all-some f g (x ∷ xs) h = rw (h x, map_all-some f g xs h) refl

shape_waveform-Draws :
    (rms : List ℕ) → (draw : ℕ → ℕ) × Draws draw × (shape_waveform rms ≡ some (map draw rms))
unfolding shape_waveform
shape_waveform-Draws rms = elim (Option-cases (checked_sub (length (sounding_of rms)) 1)) [
  | inl e ↦ (
    (λ level. if level == 0 then 0 else 24),
    quiet-Draws,
    rw (e, shape_waveform) (ap some (map_quiet rms (ground arith))),
  )
  | inr (last, e) ↦
      let (high, low, at_high, at_low, less) = percentiles-lt rms last (ground arith) in
      let span : checked_sub high low ≡ some (high - low) = ground arith in
      (
        drawn low high,
        drawn-Draws low high less,
        rw (e, shape_waveform)
            (rw (at_high, at_low, span)
              (map_all-some (height low high (high - low)) (drawn low high) rms
                (λ level. height-drawn low high level less))),
      )
]

-- Shaping gives heights, without an index past the end, bounds that cross or a division by zero,
-- and as many as there are levels: 0 for level 0, and for any other a height of 24 to 255.
pub shape_waveform-bounds :
    (rms : List ℕ) (i level : ℕ)
    → get_elem? rms i ≡ some level
    → (heights : List ℕ) × (h : ℕ) × (shape_waveform rms ≡ some heights)
      × (length heights ≡ length rms)
      × (get_elem? heights i ≡ some h)
      × (24 * min level 1 ≤ h)
      × (h ≤ 255 * min level 1)
shape_waveform-bounds rms i level e =
    let (draw, d, same) = shape_waveform-Draws rms in
    (
      map draw rms,
      draw level,
      same,
      length-map draw rms,
      get_elem?-map draw rms i e,
      (Draws-range draw d level).0,
      (Draws-range draw d level).1,
    )

-- Shaping gives heights, and a louder bin is never drawn lower than a quieter one.
pub shape_waveform-monotone :
    (rms : List ℕ) (i j a b : ℕ)
    → get_elem? rms i ≡ some a
    → get_elem? rms j ≡ some b
    → a ≤ b
    → (heights : List ℕ) × (h : ℕ) × (k : ℕ) × (shape_waveform rms ≡ some heights)
      × (get_elem? heights i ≡ some h)
      × (get_elem? heights j ≡ some k)
      × (h ≤ k)
shape_waveform-monotone rms i j a b ea eb l =
    let (draw, d, same) = shape_waveform-Draws rms in
    (
      map draw rms,
      draw a,
      draw b,
      same,
      get_elem?-map draw rms i ea,
      get_elem?-map draw rms j eb,
      d.monotone a b l,
    )
