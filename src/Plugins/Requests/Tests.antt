-- ===== src/Plugins/Requests/Tests.antt =====
-- The theorems on limits.rs for a plugin that asks a service once a second.
use mathlib.Core.List.{Mem, mem-cons_self}
use music_streaming.Base.{
  ℕ, ◌+◌, ◌*◌, ◌≤◌, min, ◌≡◌, refl, true, false, [], ◌∷◌, Option, none, some, any,
}
use music_streaming.Base.Equality.{equal, list_equality, nat_equality, pair_equality}
use music_streaming.Base.KeyMap.{get}
use music_streaming.Plugins.Scopes.{plugin, scope_equality}
use music_streaming.Plugins.Texts.{Text, parse_u64, trim, trim_start, digits_from, is_whitespace}
use music_streaming.Plugins.Limits.{
  ok, idle, latest, take_turn, take_turns, turn, answered, throttle, pause, parse_retry_after,
  second, max_pause,
}
use music_streaming.Plugins.Limits.Bounds.{Bounded, turn-Bounded}
use music_streaming.Plugins.Limits.Runs.{run, answered-pause}
use music_streaming.Plugins.Requests.{Grants, queues, own, host_limit, per_plugin}
use music_streaming.Plugins.Requests.Spaced.{request-spaced}

abbrev site : Text
site = 109 ∷ (98 ∷ [])

abbrev no_dates : Text → Option ℕ
no_dates text = none

abbrev no_jitter : ℕ → ℕ
no_jitter reach = 0

abbrev paced : Grants
paced = record {
  plugin = 97 ∷ [];
  user = none;
  host_rate_limits = false;
  rate_limits = record { host = site; gap = second; per = per_plugin } ∷ [];
  host_limits = [];
}

queues-paced : queues paced site ≡ (plugin (97 ∷ []), second) ∷ []
unfolding queues own host_limit
queues-paced = refl

first_turn : (turn [] site (queues paced site) 5).1 ≡ ok 5
unfolding turn latest take_turns take_turn queues own host_limit get
first_turn = refl

queued-turn :
    (turn (turn [] site (queues paced site) 5).0 site (queues paced site) 5).1 ≡ ok (5 + second)
unfolding turn latest take_turns take_turn queues own host_limit get idle
queued-turn = refl

names_scope : any (λ q. equal q.0 (plugin (97 ∷ []))) (queues paced site) ≡ true
unfolding queues own host_limit
names_scope = refl

in_queues : Mem (plugin (97 ∷ []), second) (queues paced site)
unfolding queues own host_limit
in_queues = mem-cons_self

request-spaced_example : 5 + second ≤ 5 + second
unfolding run
request-spaced_example =
    request-spaced no_dates [] site paced paced (plugin (97 ∷ [])) second 5 5 [] (5 + second)
      in_queues first_turn names_scope queued-turn

turn-Bounded_example : Bounded [] site (queues paced site) 5 (turn [] site (queues paced site) 5)
turn-Bounded_example = turn-Bounded [] site (queues paced site) 5

-- "30".
abbrev thirty : Text
thirty = 51 ∷ (48 ∷ [])

thirty_seconds : parse_retry_after no_dates no_jitter thirty 0 ≡ some (30 * second)
unfolding parse_retry_after parse_u64 digits_from trim trim_start is_whitespace
thirty_seconds = refl

waits_thirty :
    (turn
      (answered no_dates no_jitter [] site (plugin (97 ∷ [])) 429 (some thirty) 5 0)
      site
      (queues paced site)
      5).1
    ≡ ok (5 + 30 * second)
unfolding answered turn latest queues host_limit get throttle own pause parse_retry_after parse_u64
    digits_from trim trim_start is_whitespace idle take_turns take_turn
waits_thirty = refl

answered-pause_example : 5 + min (30 * second) max_pause ≤ 5 + 30 * second
unfolding run
answered-pause_example =
    answered-pause no_dates [] no_jitter site (plugin (97 ∷ [])) 429 thirty (30 * second) 5 0 []
      (queues paced site) (5 + 30 * second) refl thirty_seconds names_scope waits_thirty
