-- ===== src/Waveform/Tests.antt =====
-- The theorems on waveform.rs at the levels of its own test.
use music_streaming.Base.{
  ℕ, ◌≤◌, ◌*◌, min, List, [], ◌∷◌, some, ◌≡◌, refl, arith, length, get_elem?,
}
use music_streaming.Base.Sorting.{sort}
use music_streaming.Waveform.{shape_waveform, sounding_of, high_of, low_of, height, clamp, divide}
use music_streaming.Waveform.Heights.{shape_waveform-bounds, shape_waveform-monotone}

abbrev levels : List ℕ
levels = 0 ∷ 200 ∷ 210 ∷ 220 ∷ 230 ∷ 240 ∷ 250 ∷ []

abbrev loud : ℕ
loud = 200

shape_waveform_test : shape_waveform levels ≡ some (0 ∷ 24 ∷ 82 ∷ 140 ∷ 197 ∷ 255 ∷ 255 ∷ [])
unfolding shape_waveform sounding_of high_of low_of height clamp divide sort
shape_waveform_test = refl

shape_waveform-bounds_example :
    (heights : List ℕ) × (h : ℕ) × (shape_waveform levels ≡ some heights)
    × (length heights ≡ length levels)
    × (get_elem? heights 1 ≡ some h)
    × (24 * min loud 1 ≤ h)
    × (h ≤ 255 * min loud 1)
shape_waveform-bounds_example = shape_waveform-bounds levels 1 loud refl

shape_waveform-monotone_example :
    (heights : List ℕ) × (h : ℕ) × (k : ℕ) × (shape_waveform levels ≡ some heights)
    × (get_elem? heights 1 ≡ some h)
    × (get_elem? heights 3 ≡ some k)
    × (h ≤ k)
shape_waveform-monotone_example = shape_waveform-monotone levels 1 3 200 220 refl refl (omega arith)
