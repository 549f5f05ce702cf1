-- ===== src/Waveform.antt =====
-- crates/core/src/waveform.rs: the heights that the seek bar draws for a track's loudness levels.
-- waveform_level, which turns an amplitude into a level with floating-point numbers, is not modelled.
pub mod Heights
mod Tests
use music_streaming.Base.{
  ℕ, ◌+◌, ◌-◌, ◌*◌, ◌/◌, ◌%◌, min, max, List, Option, none, some, [], ◌∷◌, length, get_elem?,
  retain, Option-bind, replicate, ltb, leb, ◌==◌, if◌then◌else◌,
}
use music_streaming.Base.Sorting.{sort}

abbrev pub floor_height : ℕ
floor_height = 24

abbrev pub min_span : ℕ
min_span = 6 * 2

abbrev pub low_percentile : ℕ
low_percentile = 5

abbrev pub high_percentile : ℕ
high_percentile = 95

abbrev pub checked_sub : ℕ → ℕ → Option ℕ
checked_sub a b = if leb b a then some (a - b) else none

-- `Ord::clamp`, which panics where the lower bound is above the upper one.
unfoldable pub clamp : ℕ → ℕ → ℕ → Option ℕ
clamp level low high = if leb low high then some (min (max level low) high) else none

-- Division, which panics on a divisor of 0.
unfoldable pub divide : ℕ → ℕ → Option ℕ
divide a b = if b == 0 then none else some (a / b)

-- `map` and `collect`, up to a panic.
abbrev pub map_all : (ℕ → Option ℕ) → List ℕ → Option (List ℕ)
map_all f [] = some []
map_all f (x ∷ xs) = Option-bind (f x) (λ y. Option-bind (map_all f xs) (λ ys. some (y ∷ ys)))

-- The levels that sound, ascending.
unfoldable pub sounding_of : List ℕ → List ℕ
sounding_of rms = sort (retain (λ level. ltb 0 level) rms)

-- An index past the end panics.
unfoldable pub high_of : List ℕ → ℕ → Option ℕ
high_of sounding last = get_elem? sounding (last * high_percentile / 100)

unfoldable pub low_of : List ℕ → ℕ → ℕ → Option ℕ
low_of sounding last high =
    Option-bind (get_elem? sounding (last * low_percentile / 100))
      (λ level. some (min level (high - min_span)))

-- The closure that draws one bin; the cast to u8 keeps the low byte.
unfoldable pub height : ℕ → ℕ → ℕ → ℕ → Option ℕ
height low high span level =
    if level == 0
    then some 0
    else Option-bind (clamp level low high) (λ clamped.
      Option-bind (checked_sub clamped low) (λ above.
        Option-bind (divide (above * (255 - floor_height) + span / 2) span)
          (λ part. some ((floor_height + part) % 256))))

-- None is a panic.
unfoldable pub shape_waveform : List ℕ → Option (List ℕ)
shape_waveform rms =
    let sounding = sounding_of rms in
    elim (checked_sub (length sounding) 1) [
      | none ↦ some (replicate (length rms) 0)
      | some last ↦ Option-bind (high_of sounding last) (λ high.
          Option-bind (low_of sounding last high) (λ low.
            Option-bind (checked_sub high low) (λ span. map_all (height low high span) rms)))
    ]
