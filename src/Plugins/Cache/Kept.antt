-- ===== src/Plugins/Cache/Kept.antt =====
-- The replies of cache.rs through runs of its operations: where each was stored, and since when.
use mathlib.Core.Option.{some-injective}
use music_streaming.Base.{
  ℕ, ◌+◌, ◌-◌, ◌≤◌, ◌<◌, ◌≡◌, refl, sym, ap, subst, false, ◌||◌, List, [], ◌∷◌, Option, none, some,
  ltb, ltb→lt, min, is_some, ◌*◌, retain, Bool-cases, inl, inr, ◌⊎◌, arith,
}
use music_streaming.Base.Equality.{equal, list_equality, nat_equality}
use music_streaming.Base.KeyMap.{get, get-put_inv}
use music_streaming.Plugins.Cache.Entries.{
  Key, Headers, key_equality, Reply, aged, age, header, second, conditions,
}
use music_streaming.Plugins.Cache.Lifetime.{
  lifetime, is_private, is_unkept, max_lifetime, allowed_for,
}
use music_streaming.Plugins.Cache.{
  Entry, Inner, Lookup, fresh, stale, miss, forget, found, lookup, is_empty, keep, new_entry,
  kept_for, store, merged, refresh, invalidate,
}
use music_streaming.Plugins.Cache.Runs.{
  Operation, looked, stored, refreshed, invalidated, apply, run,
}
use music_streaming.Plugins.Texts.{Text, codes}
use music_streaming.Plugins.Cache.Origins.{
  Same, forget-From, found-From, evict-get, forget_each-From, From,
}

module _ (http_date : Text → Option ℕ) where
  -- The reply was stored at the time, for the life that it allows itself.
  pub record StoredAs (reply : Reply) (now clock : ℕ) (entry : Entry) : Type 0 where
    pub life : ℕ
    pub allows : lifetime http_date reply clock ≡ some life
    pub same_reply : entry.reply ≡ reply
    pub at : entry.stored ≡ now
    pub until : entry.fresh_until ≡ now + life

  -- One of the operations stored the entry's reply under this key.
  pub data Kept : List Operation → Key → Entry → Type 0 where
    by_store :
        (operations : List Operation) (key : Key) (reply : Reply) (now clock : ℕ) (entry : Entry)
        → StoredAs reply now clock entry
        → Kept (stored key reply now clock ∷ operations) key entry
    by_refresh :
        (operations : List Operation) (key : Key) (reply : Reply) (updated : Headers)
        (now clock : ℕ) (entry : Entry)
        → StoredAs (merged http_date reply updated) now clock entry
        → Kept (refreshed key reply updated now clock ∷ operations) key entry
    before :
        (operation : Operation) (operations : List Operation) (key : Key) (entry old : Entry)
        → Same entry old
        → Kept operations key old
        → Kept (operation ∷ operations) key entry

  kept_for-From :
      (inner : Inner) (key k : Key) (reply : Reply) (now clock : ℕ) (life : Option ℕ)
      (entry : Entry)
      → lifetime http_date reply clock ≡ life
      → get k (kept_for inner key reply now life).entries ≡ some entry
      → ((key ≡ k) × StoredAs reply now clock entry) ⊎ (get k inner.entries ≡ some entry)
  unfolding keep
  kept_for-From inner key k reply now clock none entry e h = inr h
  kept_for-From inner key k reply now clock (some life) entry e h =
      let kept = keep inner key reply now life in
      let held = evict-get kept.used kept k entry h in
      elim (get-put_inv key k (new_entry inner key reply now life) entry inner.entries held) [
        | inl (same, is) ↦ inl (
          same,
          record {
            life = life;
            allows = e;
            same_reply = ap (λ x. x.reply) (sym is);
            at = ap (λ x. x.stored) (sym is);
            until = ap (λ x. x.fresh_until) (sym is);
          },
        )
        | inr (apart, old) ↦ inr old
      ]

  store-From :
      (inner : Inner) (key k : Key) (reply : Reply) (now clock : ℕ) (entry : Entry)
      → get k (store http_date inner key reply now clock).entries ≡ some entry
      → ((key ≡ k) × StoredAs reply now clock entry) ⊎ From inner k entry
  unfolding store
  store-From inner key k reply now clock entry h =
      elim (kept_for-From (forget inner key) key k reply now clock (lifetime http_date reply clock)
        entry refl h) [ inl new ↦ inl new | inr old ↦ inr (forget-From inner key k entry old) ]

  -- Every entry was stored by an operation of the run, under its own key.
  run-Kept :
      (operations : List Operation) (k : Key) (entry : Entry)
      → get k (run http_date operations).entries ≡ some entry
      → Kept operations k entry
  unfolding run apply lookup refresh invalidate get
  run-Kept [] k entry h = absurd (cc h)
  run-Kept (looked key now ∷ operations) k entry h =
      let (old, held, same) =
        found-From (run http_date operations) key k now (get key (run http_date operations).entries)
          entry h in
      before (looked key now) operations k entry old same (run-Kept operations k old held)
  run-Kept (stored key reply now clock ∷ operations) k entry h =
      elim (store-From (run http_date operations) key k reply now clock entry h) [
        | inl (same, new) ↦
            subst (λ j. Kept (stored key reply now clock ∷ operations) j entry) same
              (by_store operations key reply now clock entry new)
        | inr (old, held, same) ↦
            before (stored key reply now clock) operations k entry old same
              (run-Kept operations k old held)
      ]
  run-Kept (refreshed key reply updated now clock ∷ operations) k entry h =
      elim (store-From (run http_date operations) key k (merged http_date reply updated) now clock
        entry h) [
          | inl (same, new) ↦
              subst (λ j. Kept (refreshed key reply updated now clock ∷ operations) j entry) same
                (by_refresh operations key reply updated now clock entry new)
          | inr (old, held, same) ↦
              before (refreshed key reply updated now clock) operations k entry old same
                (run-Kept operations k old held)
        ]
  run-Kept (invalidated url ∷ operations) k entry h =
      let (old, held, same) =
        forget_each-From (retain (λ e. equal e.0.url url) (run http_date operations).entries)
          (run http_date operations) k entry h in
      before (invalidated url) operations k entry old same (run-Kept operations k old held)

  -- What lets a reply be kept at all.
  abbrev Lasts : Entry → Type 0
  Lasts entry =
      (is_private entry.reply ≡ false)
      × (is_unkept entry.reply ≡ false)
      × (entry.fresh_until ≤ entry.stored + max_lifetime)

  lifetime-some :
      (reply : Reply) (clock life : ℕ)
      → lifetime http_date reply clock ≡ some life
      → (is_private reply ≡ false) × (is_unkept reply ≡ false) × (life ≤ max_lifetime)
  unfolding lifetime
  lifetime-some reply clock life h =
      let left = min (allowed_for http_date reply clock - age reply * second) max_lifetime in
      let validated =
        is_some (header reply (codes "etag")) || is_some (header reply (codes "last-modified")) in
      elim (Bool-cases (is_unkept reply)) [
        | inl u ↦ absurd (cc (rw (u, lifetime) at h))
        | inr u ↦ elim (Bool-cases (is_private reply)) [
          | inl p ↦ absurd (cc (rw (u, p, lifetime) at h))
          | inr p ↦ elim (Bool-cases (ltb 0 left || validated)) [
            | inl some_left ↦
                let is = some-injective left life (rw (u, p, some_left, lifetime) at h) in
                (p, u, omega (arith, is))
            | inr nothing ↦ absurd (cc (rw (u, p, nothing, lifetime) at h))
          ]
        ]
      ]

  StoredAs-Lasts :
      (reply : Reply) (now clock : ℕ) (entry : Entry) → StoredAs reply now clock entry → Lasts entry
  StoredAs-Lasts reply now clock entry s =
      let (open_reply, fit, short) = lifetime-some reply clock s.life s.allows in
      (rw s.same_reply open_reply, rw s.same_reply fit, omega (arith, s.at, s.until, short))

  Kept-Lasts :
      (operations : List Operation) (key : Key) (entry : Entry)
      → Kept operations key entry
      → Lasts entry
  Kept-Lasts operations key entry (by_store rest k reply now clock e s) =
      StoredAs-Lasts reply now clock entry s
  Kept-Lasts operations key entry (by_refresh rest k reply updated now clock e s) =
      StoredAs-Lasts (merged http_date reply updated) now clock entry s
  Kept-Lasts operations key entry (before operation rest k e old same kept) =
      let (open_reply, fit, short) = Kept-Lasts rest key old kept in
      (
        rw same.reply open_reply,
        rw same.reply fit,
        omega (arith, same.stored, same.fresh_until, short),
      )

  abbrev answer_or : Reply → Lookup → Reply
  answer_or other (fresh reply) = reply
  answer_or other (stale reply) = reply
  answer_or other miss = other

  found-fresh :
      (inner : Inner) (key : Key) (now : ℕ) (o : Option Entry) (reply : Reply)
      → (found inner key now o).1 ≡ fresh reply
      → (entry : Entry) × (o ≡ some entry)
        × (reply ≡ aged entry.reply (now - entry.stored))
        × (now < entry.fresh_until)
  found-fresh inner key now none reply h = absurd (cc h)
  found-fresh inner key now (some entry) reply h = elim (Bool-cases (ltb now entry.fresh_until)) [
    | inl soon ↦
        let is : aged entry.reply (now - entry.stored) ≡ reply =
          ap (answer_or reply) (rw soon at h) in
        (entry, refl, sym is, ltb→lt now entry.fresh_until soon)
    | inr late ↦ elim (Bool-cases (is_empty (conditions entry.reply))) [
      | inl gone ↦ absurd (cc (rw (late, gone) at h))
      | inr checked ↦ absurd (cc (rw (late, checked) at h))
    ]
  ]

  -- A fresh answer, after any operations, is the reply that one of them stored under the very same
  -- key, aged by the time since; it is not private and not yet past the end of the life it allows
  -- itself, which is at most a day.
  pub lookup-Kept :
      (operations : List Operation) (key : Key) (now : ℕ) (reply : Reply)
      → (lookup (run http_date operations) key now).1 ≡ fresh reply
      → (entry : Entry) × Kept operations key entry
        × (reply ≡ aged entry.reply (now - entry.stored))
        × (now < entry.fresh_until)
        × (entry.fresh_until ≤ entry.stored + max_lifetime)
        × (is_private entry.reply ≡ false)
  unfolding lookup
  lookup-Kept operations key now reply h =
      let (entry, held, is, soon) =
        found-fresh (run http_date operations) key now (get key (run http_date operations).entries)
          reply h in
      let kept = run-Kept operations key entry held in
      let (open_reply, fit, short) = Kept-Lasts operations key entry kept in
      (entry, kept, is, soon, short, open_reply)
