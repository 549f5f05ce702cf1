-- ===== src/Plugins/Limits.antt =====
-- crates/plugins/src/network/limits.rs: how often each destination is asked. Instants and durations are
-- counts of nanoseconds. Parameters: the parser of HTTP dates, and the product of a duration with a random
-- fraction below 1.
pub mod Spaced
pub mod Runs
pub mod Bounds
use music_streaming.Base.{
  ℕ, ◌+◌, ◌-◌, ◌*◌, ◌^◌, min, max, Bool, true, false, not, ◌&&◌, ◌||◌, List, [], ◌∷◌, Option, none,
  some, leb, ltb, ◌==◌, if◌then◌else◌, retain,
}
use music_streaming.Base.Equality.{equal, list_equality, nat_equality, pair_equality}
use music_streaming.Base.KeyMap.{get, put, remove}
use music_streaming.Plugins.Scopes.{Scope, scope_equality}
use music_streaming.Plugins.Texts.{Text, trim, parse_u64}

abbrev pub second : ℕ
second = 1000000000

abbrev pub max_wait : ℕ
max_wait = 60 * second

abbrev pub max_pause : ℕ
max_pause = 60 * 60 * second

abbrev pub base_pause : ℕ
base_pause = 1 * second

abbrev pub u32_max : ℕ
u32_max = 2 ^ 32 - 1

abbrev pub Key : Type 0
Key = Text × Scope

pub record Queue : Type 0 where
  pub next : ℕ
  pub throttled : ℕ

-- The map of `Limits`.
abbrev pub Limits : Type 0
Limits = List (Key × Queue)

unfoldable pub idle : Queue → ℕ → Bool
idle queue now = leb queue.next now && (queue.throttled == 0 || leb (queue.next + max_pause) now)

-- The instant or, of a turn that is too far off, the wait.
pub data Answer : Type 0 where
  ok err : ℕ → Answer

abbrev pub or_insert : Option Queue → ℕ → Queue
or_insert none now = record { next = now; throttled = 0 }
or_insert (some queue) now = queue

abbrev pub later_of : Option Queue → ℕ → ℕ
later_of none start = start
later_of (some queue) start = max start queue.next

-- The fold over the queues that are kept, from `now` on.
unfoldable pub latest : Limits → Text → List (Scope × ℕ) → ℕ → ℕ
latest kept host [] start = start
latest kept host ((scope, gap) ∷ queues) start =
    latest kept host queues (later_of (get (host, scope) kept) start)

-- The body of the loop.
unfoldable pub take_turn : Limits → Text → Scope → ℕ → ℕ → ℕ → Limits
take_turn kept host scope gap start now =
    let key : Key = (host, scope) in
    let old = or_insert (get key kept) now in
    let queue : Queue = record old { next = start + gap } in
    if idle queue now then remove key (put key queue kept) else put key queue kept

unfoldable pub take_turns : Limits → Text → List (Scope × ℕ) → ℕ → ℕ → Limits
take_turns kept host [] start now = kept
take_turns kept host ((scope, gap) ∷ queues) start now =
    take_turns (take_turn kept host scope gap start now) host queues start now

unfoldable pub turn : Limits → Text → List (Scope × ℕ) → ℕ → Limits × Answer
turn kept host queues now =
    let start = latest kept host queues now in
    if ltb (now + max_wait) start
    then (kept, err (start - now))
    else (take_turns kept host queues start now, ok start)

-- Any other status: the run of throttles is over.
unfoldable pub settled : Limits → Key → ℕ → Option Queue → Limits
settled kept key now none = kept
settled kept key now (some queue) =
    let calm = record queue { throttled = 0 } in
    if idle calm now then remove key (put key calm kept) else put key calm kept

-- `saturating_pow` on u32; the product with the first pause cannot saturate.
unfoldable pub reach_of : ℕ → ℕ
reach_of throttled = base_pause * min (2 ^ throttled) u32_max

module _ (http_date : Text → Option ℕ) (mul_fraction : ℕ → ℕ) where
  unfoldable pub pause : Option ℕ → ℕ → ℕ
  pause none throttled = min (mul_fraction (min (reach_of throttled) max_pause)) max_pause
  pause (some asked) throttled = min asked max_pause

  abbrev pub date_wait : Option ℕ → ℕ → Option ℕ
  date_wait none clock = none
  date_wait (some at) clock = some (at - clock)

  abbrev pub seconds_or_date : Option ℕ → Text → ℕ → Option ℕ
  seconds_or_date none value clock = date_wait (http_date value) clock
  seconds_or_date (some seconds) value clock = some (seconds * second)

  unfoldable pub parse_retry_after : Text → ℕ → Option ℕ
  parse_retry_after value clock =
      let trimmed = trim value in seconds_or_date (parse_u64 trimmed) trimmed clock

  abbrev pub asked_wait : Option Text → ℕ → Option ℕ
  asked_wait none clock = none
  asked_wait (some value) clock = parse_retry_after value clock

  -- A 429 or 503, from the forgetting of idle queues on.
  unfoldable pub throttle : Limits → Key → Option Text → ℕ → ℕ → Limits
  throttle kept key retry_after now clock =
      let busy = retain (λ entry. not (idle entry.1 now)) kept in
      let queue = or_insert (get key busy) now in
      let until = now + pause (asked_wait retry_after clock) queue.throttled in
      put key
        (record { next = max queue.next until; throttled = min (queue.throttled + 1) u32_max }) busy

  unfoldable pub answered : Limits → Text → Scope → ℕ → Option Text → ℕ → ℕ → Limits
  answered kept host scope status retry_after now clock =
      let key : Key = (host, scope) in
      if status == 429 || status == 503
      then throttle kept key retry_after now clock
      else settled kept key now (get key kept)
