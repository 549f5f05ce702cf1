-- ===== src/Plugins/Cache/Runs.antt =====
-- Runs of the operations of cache.rs, and the bookkeeping that they keep.
use music_streaming.Base.{
  ℕ, suc, ◌≤◌, ◌≡◌, not, ◌&&◌, List, [], ◌∷◌, Option, none, some, ltb, retain, Bool-cases,
  Option-cases, inl, inr, arith,
}
use music_streaming.Base.Equality.{equal, list_equality, nat_equality}
use music_streaming.Base.KeyMap.{get, get-remove}
use music_streaming.Plugins.Cache.Entries.{Key, Headers, key_equality, Reply, conditions}
use music_streaming.Plugins.Cache.Lifetime.{lifetime}
use music_streaming.Plugins.Cache.{
  Entry, Inner, empty, without, forget, used_at, touch, found, lookup, is_empty, keep, kept_for,
  store, merged, refresh, forget_each, invalidate, max_size,
}
use music_streaming.Plugins.Cache.Sound.{
  Sound, empty-Sound, forget-Sound, touch-Sound, keep-Sound, evict-Sound,
}
use music_streaming.Plugins.Texts.{Text}

pub data Operation : Type 0 where
  looked : Key → ℕ → Operation
  stored : Key → Reply → ℕ → ℕ → Operation
  refreshed : Key → Reply → Headers → ℕ → ℕ → Operation
  invalidated : Text → Operation

-- The bookkeeping is right, and what is kept takes no more than it may.
abbrev pub Fits : Inner → Type 0
Fits inner = Sound inner × (inner.size ≤ max_size)

forget-Fits : (inner : Inner) (key : Key) → Fits inner → Fits (forget inner key)
unfolding forget
forget-Fits inner key (s, f) = (forget-Sound inner key s, size-le (get key inner.entries))
  where
    size-le : (o : Option Entry) → (without inner key o).size ≤ max_size
    size-le none = f
    size-le (some entry) = omega arith

touch-Fits : (inner : Inner) (key : Key) → Fits inner → Fits (touch inner key)
unfolding touch
touch-Fits inner key (s, f) = (touch-Sound inner key s, size-le (get key inner.entries))
  where
    size-le :
        (o : Option Entry)
        → (used_at (record inner { tick = suc inner.tick }) key o).size ≤ max_size
    size-le none = f
    size-le (some entry) = f

found-Fits :
    (inner : Inner) (key : Key) (now : ℕ) (o : Option Entry)
    → Fits inner
    → Fits (found inner key now o).0
found-Fits inner key now none f = f
found-Fits inner key now (some entry) f =
    elim (Bool-cases (not (ltb now entry.fresh_until) && is_empty (conditions entry.reply))) [
      | inl gone ↦ rw gone (forget-Fits inner key f)
      | inr used ↦ rw used (touch-Fits inner key f)
    ]

get-forget : (inner : Inner) (key : Key) → get key (forget inner key).entries ≡ none
unfolding forget
get-forget inner key = elim (Option-cases (get key inner.entries)) [
  | inl e ↦ rw (e, forget) e
  | inr (entry, e) ↦ rw (e, forget) (get-remove key inner.entries)
]

kept_for-Fits :
    (inner : Inner) (key : Key) (reply : Reply) (now : ℕ) (life : Option ℕ)
    → Fits inner
    → get key inner.entries ≡ none
    → Fits (kept_for inner key reply now life)
kept_for-Fits inner key reply now none f e = f
kept_for-Fits inner key reply now (some life) f e =
    let kept = keep inner key reply now life in
    evict-Sound kept.used kept (keep-Sound inner key reply now life f.0 e)

forget_each-Fits :
    (entries : List (Key × Entry)) (inner : Inner) → Fits inner → Fits (forget_each entries inner)
unfolding forget_each
forget_each-Fits [] inner f = f
forget_each-Fits ((key, entry) ∷ entries) inner f =
    forget_each-Fits entries (forget inner key) (forget-Fits inner key f)

module _ (http_date : Text → Option ℕ) where
  unfoldable pub apply : Operation → Inner → Inner
  apply (looked key now) inner = (lookup inner key now).0
  apply (stored key reply now clock) inner = store http_date inner key reply now clock
  apply (refreshed key reply updated now clock) inner =
      (refresh http_date inner key reply updated now clock).0
  apply (invalidated url) inner = invalidate inner url

  -- The operations, the latest first.
  unfoldable pub run : List Operation → Inner
  run [] = empty
  run (operation ∷ operations) = apply operation (run operations)

  store-Fits :
      (inner : Inner) (key : Key) (reply : Reply) (now clock : ℕ)
      → Fits inner
      → Fits (store http_date inner key reply now clock)
  unfolding store
  store-Fits inner key reply now clock f =
      kept_for-Fits (forget inner key) key reply now (lifetime http_date reply clock)
        (forget-Fits inner key f) (get-forget inner key)

  apply-Fits : (operation : Operation) (inner : Inner) → Fits inner → Fits (apply operation inner)
  unfolding apply lookup refresh invalidate
  apply-Fits (looked key now) inner f = found-Fits inner key now (get key inner.entries) f
  apply-Fits (stored key reply now clock) inner f = store-Fits inner key reply now clock f
  apply-Fits (refreshed key reply updated now clock) inner f =
      store-Fits inner key (merged http_date reply updated) now clock f
  apply-Fits (invalidated url) inner f =
      forget_each-Fits (retain (λ e. equal e.0.url url) inner.entries) inner f

  -- After any operations on an empty cache, its size is what its entries take, no key is twice,
  -- the index of uses knows every entry under its time, no use is later than the tick, and the
  -- size is at most 32 MiB.
  pub run-Fits : (operations : List Operation) → Fits (run operations)
  unfolding run
  run-Fits [] = (empty-Sound, omega arith)
  run-Fits (operation ∷ operations) = apply-Fits operation (run operations) (run-Fits operations)
