-- ===== src/Queue/Permutation/Tests.antt =====
-- The permutation against the golden vectors of parity.json, and its theorems at inputs.
use music_streaming.Base.{ℕ, ◌≡◌, ◌<◌, refl, arith, List, [], ◌∷◌, map}
use music_streaming.Queue.Permutation.{
  permute, unpermute, permute_with, apply_rounds, round, coin, pivot_of, partner_of, splitmix, mix,
  rounds, leading_zeros, bit_length,
}
use music_streaming.Queue.Permutation.Inverse.{unpermute-permute, permute-unpermute}

-- (seed, m, x) of each vector, and where x lands.
abbrev inputs : List (ℕ × ℕ × ℕ)
inputs =
    (0, 1, 0)
    ∷ (0, 8, 3)
    ∷ (1, 16, 5)
    ∷ (1, 2, 0)
    ∷ (1, 2, 1)
    ∷ (0, 3, 0)
    ∷ (0, 3, 2)
    ∷ (7, 3, 1)
    ∷ (0, 10, 0)
    ∷ (0, 10, 9)
    ∷ (42, 10, 4)
    ∷ (1, 12, 5)
    ∷ (4294967295, 12, 11)
    ∷ (0, 500000, 0)
    ∷ (42, 500000, 123456)
    ∷ (4294967295, 500000, 499999)
    ∷ (3, 4294967301, 4294967300)
    ∷ (9, 1099511627779, 12345)
    ∷ []

abbrev landings : List ℕ
landings =
    0 ∷ 6 ∷ 10 ∷ 0 ∷ 1 ∷ 1 ∷ 0 ∷ 1 ∷ 3 ∷ 2 ∷ 8 ∷ 6 ∷ 10 ∷ 168416 ∷ 491515 ∷ 446286 ∷ 2336714214
    ∷ 343340338295 ∷ []

golden_vectors : map (λ (v : ℕ × ℕ × ℕ). permute v.0 v.1 v.2) inputs ≡ landings
unfolding permute permute_with apply_rounds round coin pivot_of partner_of splitmix mix rounds
    leading_zeros bit_length
golden_vectors = refl

unpermute-permute_example : (permute 42 10 4 < 10) × (unpermute 42 10 (permute 42 10 4) ≡ 4)
unpermute-permute_example = unpermute-permute 42 10 4 (omega arith)

permute-unpermute_example : (unpermute 42 10 8 < 10) × (permute 42 10 (unpermute 42 10 8) ≡ 8)
permute-unpermute_example = permute-unpermute 42 10 8 (omega arith)
