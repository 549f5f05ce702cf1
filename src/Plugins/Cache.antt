-- ===== src/Plugins/Cache.antt =====
-- crates/plugins/src/network/cache.rs: replies kept for reuse. Instants and durations are counts of
-- nanoseconds; a header's date is read by a parameter.
pub mod Entries
pub mod Lifetime
pub mod Sound
pub mod Runs
mod Origins
pub mod Kept
use music_streaming.Base.{
  ℕ, suc, ◌+◌, ◌-◌, ◌*◌, ◌^◌, Bool, true, false, not, ◌&&◌, List, [], ◌∷◌, ◌++◌, Option, none, some,
  map, retain, any, ltb, ◌==◌, if◌then◌else◌,
}
use music_streaming.Base.Equality.{equal, list_equality, nat_equality}
use music_streaming.Base.KeyMap.{get, put, remove}
use music_streaming.Plugins.Cache.Entries.{
  Key, Headers, key_equality, key_size, Reply, reply_size, aged, conditions,
}
use music_streaming.Plugins.Cache.Lifetime.{lifetime}
use music_streaming.Plugins.Texts.{Text, codes}

abbrev pub max_size : ℕ
max_size = 32 * 2 ^ 20

pub record Entry : Type 0 where
  pub reply : Reply
  pub stored : ℕ
  pub fresh_until : ℕ
  pub used : ℕ
  pub size : ℕ

-- `used` is a BTreeMap: its entries ascend.
pub record Inner : Type 0 where
  pub entries : List (Key × Entry)
  pub used : List (ℕ × Key)
  pub tick : ℕ
  pub size : ℕ

abbrev pub empty : Inner
empty = record { entries = []; used = []; tick = 0; size = 0 }

pub data Lookup : Type 0 where
  fresh stale : Reply → Lookup
  miss : Lookup

-- `BTreeMap::insert`.
unfoldable pub insert_used : ℕ → Key → List (ℕ × Key) → List (ℕ × Key)
insert_used t k [] = (t, k) ∷ []
insert_used t k ((u, j) ∷ m) =
    let later = insert_used t k m in
    if ltb t u then (t, k) ∷ ((u, j) ∷ m) else if t == u then (t, k) ∷ m else (u, j) ∷ later

-- `Inner::remove`.
abbrev pub without : Inner → Key → Option Entry → Inner
without inner key none = inner
without inner key (some entry) = record inner {
  entries = remove key inner.entries;
  used = remove entry.used inner.used;
  size = inner.size - entry.size;
}

unfoldable pub forget : Inner → Key → Inner
forget inner key = without inner key (get key inner.entries)

abbrev pub used_at : Inner → Key → Option Entry → Inner
used_at inner key none = inner
used_at inner key (some entry) = record inner {
  entries = put key (record entry { used = inner.tick }) inner.entries;
  used = insert_used inner.tick key (remove entry.used inner.used);
}

unfoldable pub touch : Inner → Key → Inner
touch inner key =
    let ticked : Inner = record inner { tick = suc inner.tick } in
    used_at ticked key (get key ticked.entries)

-- From the entry of the key on.
abbrev pub is_empty : Headers → Bool
is_empty [] = true
is_empty (h ∷ headers) = false

abbrev pub found : Inner → Key → ℕ → Option Entry → Inner × Lookup
found inner key now none = (inner, miss)
found inner key now (some entry) =
    let is_fresh = ltb now entry.fresh_until in
    if not is_fresh && is_empty (conditions entry.reply) then (forget inner key, miss) else (
      touch inner key,
      (if is_fresh then fresh (aged entry.reply (now - entry.stored)) else stale entry.reply),
    )

unfoldable pub lookup : Inner → Key → ℕ → Inner × Lookup
lookup inner key now = found inner key now (get key inner.entries)

abbrev pub size_of : Option Entry → ℕ
size_of none = 0
size_of (some entry) = entry.size

-- The loop of `store`, which takes the oldest off `used`.
unfoldable pub evict : List (ℕ × Key) → Inner → Inner
evict [] inner = record inner { used = [] }
evict ((t, oldest) ∷ used) inner =
    let next = evict used (record inner {
      entries = remove oldest inner.entries;
      size = inner.size - size_of (get oldest inner.entries);
    }) in
    if ltb max_size inner.size then next else record inner { used = (t, oldest) ∷ used }

abbrev pub new_entry : Inner → Key → Reply → ℕ → ℕ → Entry
new_entry inner key reply now life = record {
  reply = reply;
  stored = now;
  fresh_until = now + life;
  used = suc inner.tick;
  size = 2 * key_size key + reply_size reply;
}

-- The reply kept, before the loop.
unfoldable pub keep : Inner → Key → Reply → ℕ → ℕ → Inner
keep inner key reply now life = record {
  entries = put key (new_entry inner key reply now life) inner.entries;
  used = insert_used (suc inner.tick) key inner.used;
  tick = suc inner.tick;
  size = inner.size + (2 * key_size key + reply_size reply);
}

abbrev pub kept_for : Inner → Key → Reply → ℕ → Option ℕ → Inner
kept_for inner key reply now none = inner
kept_for inner key reply now (some life) =
    let kept = keep inner key reply now life in evict kept.used kept

module _ (http_date : Text → Option ℕ) where
  unfoldable pub store : Inner → Key → Reply → ℕ → ℕ → Inner
  store inner key reply now clock =
      kept_for (forget inner key) key reply now (lifetime http_date reply clock)

  -- The stale reply with the headers that a 304 updated.
  unfoldable pub merged : Reply → Headers → Reply
  merged reply updated = record reply {
    headers =
        retain (λ h. not (equal h.0 (codes "age")) && not (any (λ u. equal u.0 h.0) updated))
          reply.headers
        ++ retain (λ h. not (equal h.0 (codes "content-length"))) updated;
  }

  unfoldable pub refresh : Inner → Key → Reply → Headers → ℕ → ℕ → Inner × Reply
  refresh inner key reply updated now clock =
      let again = merged reply updated in (store inner key again now clock, aged again 0)

unfoldable pub forget_each : List (Key × Entry) → Inner → Inner
forget_each [] inner = inner
forget_each ((key, entry) ∷ entries) inner = forget_each entries (forget inner key)

unfoldable pub invalidate : Inner → Text → Inner
invalidate inner url = forget_each (retain (λ e. equal e.0.url url) inner.entries) inner
