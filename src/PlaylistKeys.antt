-- ===== src/PlaylistKeys.antt =====
-- crates/server/src/api/playlists/keys.rs: sparse keys for an edited playlist. A key, an i64, is the
-- number of i64s below it, from 0 for the least: the key k is the number k + 2^63.
mod Tops
mod Links
mod Followed
mod Kept
pub mod Assign
mod Longest
mod Spread
mod Assigned
mod Tests
use music_streaming.Base.{
  ℕ, zero, suc, ◌+◌, ◌-◌, ◌*◌, ◌/◌, ◌&&◌, List, [], ◌∷◌, ◌++◌, Option, none, some, length, get_or,
  set, get_last?, get_elem?, replicate, partition_point, Option-bind, ltb, leb, ◌==◌, if◌then◌else◌,
}

abbrev pub key_gap : ℕ
key_gap = 1048576

-- 2^63: the key 0, and the first number over those that an i64 counts to.
abbrev pub origin : ℕ
origin = 9223372036854775808

-- `KEY_GAP.checked_mul(n)`, on plain numbers.
unfoldable pub gaps : ℕ → Option ℕ
gaps n = if ltb (key_gap * n) origin then some (key_gap * n) else none

-- `checked_add` of a plain number to a key.
unfoldable pub above : ℕ → ℕ → Option ℕ
above low n = if ltb (low + n) (origin + origin) then some (low + n) else none

-- `checked_sub` of a plain number from a key.
unfoldable pub below : ℕ → ℕ → Option ℕ
below high n = if leb n high then some (high - n) else none

-- The step between two keys; none also where it would be under 1, as of a high key that is not above
-- the low one.
unfoldable pub step_between : ℕ → ℕ → ℕ → Option ℕ
step_between low high count =
    if leb low high && ltb (high - low) origin
    then if ltb ((high - low) / (count + 1)) 1 then none else some ((high - low) / (count + 1))
    else none

-- The n-th key that spread pushes.
unfoldable pub spread_key : Option ℕ → Option ℕ → ℕ → ℕ → Option ℕ
spread_key (some low) (some high) count n =
    Option-bind (step_between low high count) (λ step. some (low + step * n))
spread_key (some low) none count n = Option-bind (gaps n) (λ reach. above low reach)
spread_key none (some high) count n = Option-bind (gaps (count + 1 - n)) (λ reach. below high reach)
spread_key none none count n = Option-bind (gaps n) (λ reach. some (origin + reach))

-- The loop of spread: as many keys as are left, from the n-th on.
unfoldable pub spread_from : Option ℕ → Option ℕ → ℕ → ℕ → ℕ → List ℕ → Option (List ℕ)
spread_from low high count zero n keys = some keys
spread_from low high count (suc left) n keys =
    Option-bind (spread_key low high count n)
      (λ key. spread_from low high count left (suc n) (keys ++ (key ∷ [])))

unfoldable pub spread : Option ℕ → Option ℕ → ℕ → List ℕ → Option (List ℕ)
spread low high count keys =
    if ltb count origin then spread_from low high count count 1 keys else none

-- The loops of assign over what is kept from `at` on; `count` is `at - start` in the inner loop, and 0
-- in the outer one.
unfoldable pub assign_from : List (Option ℕ) → Option ℕ → ℕ → List ℕ → Option (List ℕ)
assign_from [] low zero keys = some keys
assign_from [] low (suc count) keys = spread low none (suc count) keys
assign_from (none ∷ kept) low count keys = assign_from kept low (suc count) keys
assign_from (some key ∷ kept) low zero keys = assign_from kept (some key) 0 (keys ++ (key ∷ []))
assign_from (some key ∷ kept) low (suc count) keys =
    Option-bind (spread low (some key) (suc count) keys)
      (λ spread_keys. assign_from kept (some key) 0 (spread_keys ++ (key ∷ [])))

-- `present`, from a position on.
unfoldable pub present_from : ℕ → List (Option ℕ) → List (ℕ × ℕ)
present_from at [] = []
present_from at (none ∷ stored) = present_from (suc at) stored
present_from at (some key ∷ stored) = (at, key) ∷ present_from (suc at) stored

abbrev pub key_of : List (ℕ × ℕ) → ℕ → ℕ
key_of present t = (get_or present t (0, 0)).1

-- What a key is linked to: the last of the tails with smaller keys.
abbrev pub link_to : List ℕ → ℕ → Option ℕ
link_to tails zero = none
link_to tails (suc n) = get_elem? tails n

abbrev pub put_tail : List ℕ → ℕ → ℕ → List ℕ
put_tail tails n i = if n == length tails then tails ++ (i ∷ []) else set tails n i

-- The loop over `present` from the index i on, with `tails` and `before`.
unfoldable pub link :
    List (ℕ × ℕ) → List (ℕ × ℕ) → ℕ → List ℕ → List (Option ℕ) → List ℕ × List (Option ℕ)
link present [] i tails before = (tails, before)
link present ((at, key) ∷ rest) i tails before =
    let n = partition_point (λ t. ltb (key_of present t) key) tails in
    link present rest (suc i) (put_tail tails n i) (set before i (link_to tails n))

-- The loop that fills `kept`; each turn goes to an earlier index.
unfoldable pub follow :
    ℕ → List (ℕ × ℕ) → List (Option ℕ) → Option ℕ → List (Option ℕ) → List (Option ℕ)
follow zero present before run kept = kept
follow (suc fuel) present before none kept = kept
follow (suc fuel) present before (some i) kept =
    follow fuel present before (get_or before i none)
      (set kept (get_or present i (0, 0)).0 (some (key_of present i)))

unfoldable pub longest_increasing : List (Option ℕ) → List (Option ℕ)
longest_increasing stored =
    let present = present_from 0 stored in
    let (tails, before) = link present present 0 [] (replicate (length present) none) in
    follow (length present) present before (get_last? tails) (replicate (length stored) none)

unfoldable pub assign : List (Option ℕ) → Option (List ℕ)
assign stored = assign_from (longest_increasing stored) none 0 []
