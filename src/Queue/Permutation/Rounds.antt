-- ===== src/Queue/Permutation/Rounds.antt =====
-- permutation.rs, `rounds`: the count that the module's documentation gives, R = 6⌈log₂ m⌉ + 6.
use native.Mathlib.Nat.{pow-suc}
use music_streaming.Base.{ℕ, zero, suc, ◌+◌, ◌-◌, ◌*◌, ◌/◌, ◌^◌, ◌≤◌, ◌<◌, ◌≡◌, refl, ap, arith}
use music_streaming.Queue.Permutation.{bit_length, leading_zeros, rounds}

bit_length_zero : (fuel : ℕ) → bit_length fuel 0 ≡ 0
unfolding bit_length
bit_length_zero zero = refl
bit_length_zero (suc fuel) = refl

bit_length_lem : (fuel k x : ℕ) → k < fuel → 2 ^ k ≤ x → x < 2 ^ suc k → bit_length fuel x ≡ suc k
unfolding bit_length
bit_length_lem zero k x f l h = elim f [ ]
bit_length_lem (suc fuel) zero x f l h =
    let halved : x / 2 ≡ 0 = omega arith in
    ground (arith, ap (bit_length fuel) halved, bit_length_zero fuel)
bit_length_lem (suc fuel) (suc k) x f l h =
    ground (arith, pow-suc 2 k, pow-suc 2 (suc k), bit_length_lem fuel k (x / 2))

bit_length-le : (fuel x : ℕ) → bit_length fuel x ≤ fuel
unfolding bit_length
bit_length-le zero x = omega arith
bit_length-le (suc fuel) x = ground (arith, bit_length-le fuel (x / 2))

-- For k < 64 and m above 2^k and at most 2^(k+1), the count of rounds is 6(k+1) + 6.
pub rounds-log2 : (k m : ℕ) → k < 64 → 2 ^ k < m → m ≤ 2 ^ suc k → rounds m ≡ 6 * suc k + 6
unfolding rounds leading_zeros
rounds-log2 k m f l h =
    let e : bit_length 64 (m - 1) ≡ suc k =
      bit_length_lem 64 k (m - 1) f (omega arith) (omega arith) in
    rw e (omega arith)

-- No count overflows the `u32` that holds it, nor the `2 i + 1` that a round computes.
pub rounds-le : (m : ℕ) → rounds m ≤ 390
unfolding rounds leading_zeros
rounds-le m = omega (arith, bit_length-le 64 (m - 1))
