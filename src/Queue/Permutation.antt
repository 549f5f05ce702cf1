-- ===== src/Queue/Permutation.antt =====
-- crates/core/src/queue/permutation.rs: the seeded swap-or-not shuffle. `u64` arithmetic that wraps in
-- the source is written out; the bit operations are those of the native numbers.
pub mod Inverse
pub mod Rounds
pub mod Shuffled
mod Tests
use Prim.Native.Nat.{bit_xor}
use music_streaming.Base.Positions.{range_from}
use music_streaming.Base.{
  Bool, ℕ, zero, suc, ◌+◌, ◌-◌, ◌*◌, ◌/◌, ◌%◌, ◌^◌, max, List, [], ◌∷◌, reverse, if◌then◌else◌, ltb,
  leb, ◌==◌,
}

abbrev pub u64_mod : ℕ
u64_mod = 2 ^ 64

abbrev gamma : ℕ
gamma = 0x9E37_79B9_7F4A_7C15

abbrev shr : ℕ → ℕ → ℕ
shr x k = x / 2 ^ k

abbrev wrapping_mul : ℕ → ℕ → ℕ
wrapping_mul a b = a * b % u64_mod

abbrev wrapping_add : ℕ → ℕ → ℕ
wrapping_add a b = (a + b) % u64_mod

unfoldable pub mix : ℕ → ℕ
mix z =
    let z1 = wrapping_mul (bit_xor z (shr z 30)) 0xBF58_476D_1CE4_E5B9 in
    let z2 = wrapping_mul (bit_xor z1 (shr z1 27)) 0x94D0_49BB_1331_11EB in bit_xor z2 (shr z2 31)

unfoldable pub splitmix : ℕ → ℕ → ℕ
splitmix seed n = mix (wrapping_add seed (wrapping_mul (wrapping_add n 1) gamma))

-- How many bits a number below `2 ^ fuel` takes: `u64::BITS - x.leading_zeros()` at fuel 64.
unfoldable pub bit_length : ℕ → ℕ → ℕ
bit_length zero x = 0
bit_length (suc fuel) x = let more = bit_length fuel (x / 2) in if x == 0 then 0 else suc more

unfoldable pub leading_zeros : ℕ → ℕ
leading_zeros x = 64 - bit_length 64 x

unfoldable pub rounds : ℕ → ℕ
rounds m = 6 * (64 - leading_zeros (m - 1)) + 6

-- The value that `x` pairs with in a round of pivot `pivot`.
unfoldable pub partner_of : ℕ → ℕ → ℕ → ℕ
partner_of m pivot x = if leb x pivot then pivot - x else pivot + (m - x)

-- The pivot of round `i`, and its coin for a pair whose larger member is `high`.
unfoldable pub pivot_of : ℕ → ℕ → ℕ → ℕ
pivot_of seed m i = splitmix seed (2 * i) % m

unfoldable pub coin : ℕ → ℕ → ℕ → Bool
coin seed i high = shr (mix (bit_xor (splitmix seed (2 * i + 1)) high)) 63 == 1

unfoldable pub round : ℕ → ℕ → ℕ → ℕ → ℕ
round seed m i x =
    let partner = partner_of m (pivot_of seed m i) x in
    if coin seed i (max x partner) then partner else x

-- A loop that applies the rounds of a list, first to last.
unfoldable pub apply_rounds : ℕ → ℕ → List ℕ → ℕ → ℕ
apply_rounds seed m [] x = x
apply_rounds seed m (i ∷ is) x = apply_rounds seed m is (round seed m i x)

unfoldable pub permute_with : ℕ → ℕ → ℕ → ℕ → ℕ
permute_with seed m rounds x = if ltb m 2 then x else apply_rounds seed m (range_from 0 rounds) x

unfoldable pub unpermute_with : ℕ → ℕ → ℕ → ℕ → ℕ
unpermute_with seed m rounds y =
    if ltb m 2 then y else apply_rounds seed m (reverse (range_from 0 rounds)) y

unfoldable pub permute : ℕ → ℕ → ℕ → ℕ
permute seed m x = permute_with seed m (rounds m) x

unfoldable pub unpermute : ℕ → ℕ → ℕ → ℕ
unpermute seed m y = unpermute_with seed m (rounds m) y
