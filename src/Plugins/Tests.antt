-- ===== src/Plugins/Tests.antt =====
-- The theorems on rules.rs and cache.rs at concrete addresses, replies and requests.
use music_streaming.Base.{
  ℕ, ◌+◌, ◌-◌, ◌≤◌, ◌<◌, pos, ◌≡◌, refl, true, false, List, [], ◌∷◌, Option, none, some, ◌⊎◌, ◌*◌,
}
use music_streaming.Base.KeyMap.{get}
use music_streaming.Plugins.Cache.Entries.{
  Key, Visible, Reply, header, header_in, age, aged, second, key_size, reply_size,
}
use music_streaming.Plugins.Cache.Lifetime.{
  lifetime, directives, has, seconds, is_unkept, is_private, allowed_for, max_lifetime,
}
use music_streaming.Plugins.Cache.{lookup, fresh, store, forget, keep, evict, insert_used, Entry}
use music_streaming.Plugins.Cache.Runs.{Operation, stored, run, apply, Fits, run-Fits}
use music_streaming.Plugins.Cache.Kept.{Kept, lookup-Kept}
use music_streaming.Plugins.Rules.{
  IpAddr, v4, v6, reach, reach_v4, to_canonical, public, private, never, Url, ok, allowed, names,
  bare, destination_allowed, may_reach,
}
use music_streaming.Plugins.Rules.Local.{IsLocal, IsPrivate, allowed-IsLocal}
use music_streaming.Plugins.Texts.{
  Text, codes, ascii_lower, trim, trim_start, is_whitespace, split, split_once, trim_matches,
  trim_start_matches, parse_u64, digits_from,
}

abbrev no_dates : Text → Option ℕ
no_dates text = none

abbrev site_url : Url
site_url = record { scheme = codes "https"; host_str = some (codes "1.1.1.1") }

abbrev read_url : Text → Option Url
read_url text = some site_url

abbrev read_ip : Text → Option IpAddr
read_ip text = some (v4 1 1 1 1)

mapped_loopback : reach (v6 0 0 0 0 0 65535 32512 1) ≡ never
unfolding reach to_canonical reach_v4
mapped_loopback = refl

shared_space : reach (v4 100 64 0 1) ≡ private
unfolding reach to_canonical reach_v4
shared_space = refl

site_allowed : allowed read_url read_ip [] (codes "*" ∷ []) reach ≡ ok site_url
unfolding allowed destination_allowed names may_reach reach to_canonical reach_v4 bare ascii_lower
site_allowed = refl

allowed-IsLocal_example :
    (¬ IsLocal (v4 1 1 1 1))
    × (((reach (v4 1 1 1 1) ≡ public) × (¬ IsPrivate (v4 1 1 1 1)))
        ⊎ (names (codes "1.1.1.1") (codes "*" ∷ []) ≡ true))
allowed-IsLocal_example =
    allowed-IsLocal read_url read_ip [] site_url (codes "1.1.1.1") (v4 1 1 1 1) (codes "*" ∷ [])
      site_allowed refl refl

abbrev sees : Visible
sees = record {
  library = pos 1;
  user = none;
  library_read = false;
  listening_activity = false;
  search_activity = false;
}

abbrev page : Key
page = record { visible = sees; url = codes "https://a"; headers = [] }

abbrev minute : Reply
minute = record {
  status = 200;
  headers = (codes "cache-control", codes "public, max-age=60") ∷ [];
  body = [];
  url = codes "https://a";
  addr = none;
}

lifetime-minute : lifetime no_dates minute 0 ≡ some (60 * second)
unfolding lifetime allowed_for directives has seconds is_unkept is_private header header_in age
    split split_once trim trim_start is_whitespace trim_matches trim_start_matches parse_u64
    digits_from ascii_lower
lifetime-minute = refl

abbrev history : List Operation
history = stored page minute 7 0 ∷ []

run-Fits_example : Fits (run no_dates history)
run-Fits_example = run-Fits no_dates history

reused : (lookup (run no_dates history) page 8).1 ≡ fresh (aged minute 1)
unfolding lookup run apply store forget get key_size reply_size keep evict insert_used lifetime
    allowed_for directives has seconds is_unkept is_private header header_in age split split_once
    trim trim_start is_whitespace trim_matches trim_start_matches parse_u64 digits_from ascii_lower
reused = refl

lookup-Kept_example :
    (entry : Entry) × Kept no_dates history page entry
    × (aged minute 1 ≡ aged entry.reply (8 - entry.stored))
    × (8 < entry.fresh_until)
    × (entry.fresh_until ≤ entry.stored + max_lifetime)
    × (is_private entry.reply ≡ false)
lookup-Kept_example = lookup-Kept no_dates history page 8 (aged minute 1) reused
