-- ===== src/Plugins/Cache/Origins.antt =====
-- Where the entries come from that an operation of cache.rs leaves.
use music_streaming.Base.{
  ℕ, suc, ◌≡◌, refl, sym, ap, ◌∙◌, not, ◌&&◌, List, [], ◌∷◌, Option, none, some, ltb, Bool-cases,
  inl, inr,
}
use music_streaming.Base.Equality.{list_equality, nat_equality}
use music_streaming.Base.KeyMap.{get, get-remove_inv, get-put_inv}
use music_streaming.Plugins.Cache.Entries.{Key, key_equality, conditions}
use music_streaming.Plugins.Cache.{
  Entry, Inner, without, forget, used_at, touch, found, is_empty, evict, forget_each, max_size,
}

-- The same reply with the same times, used at another.
pub record Same (entry old : Entry) : Type 0 where
  pub reply : entry.reply ≡ old.reply
  pub stored : entry.stored ≡ old.stored
  pub fresh_until : entry.fresh_until ≡ old.fresh_until

-- The entry is an old one, or the new one.
abbrev pub From : Inner → Key → Entry → Type 0
From inner k entry = (old : Entry) × (get k inner.entries ≡ some old) × Same entry old

pub Same-self : (entry : Entry) → Same entry entry
Same-self entry = record { reply = refl; stored = refl; fresh_until = refl }

pub forget-From :
    (inner : Inner) (key k : Key) (entry : Entry)
    → get k (forget inner key).entries ≡ some entry
    → From inner k entry
unfolding forget
forget-From inner key k entry h = go (get key inner.entries) h
  where
    go : (o : Option Entry) → get k (without inner key o).entries ≡ some entry → From inner k entry
    go none h = (entry, h, Same-self entry)
    go (some old) h = (entry, (get-remove_inv key k entry inner.entries h).1, Same-self entry)

pub touch-From :
    (inner : Inner) (key k : Key) (entry : Entry)
    → get k (touch inner key).entries ≡ some entry
    → From inner k entry
unfolding touch
touch-From inner key k entry h = go (get key inner.entries) refl h
  where
    go :
        (o : Option Entry)
        → get key inner.entries ≡ o
        → get k (used_at (record inner { tick = suc inner.tick }) key o).entries ≡ some entry
        → From inner k entry
    go none e h = (entry, h, Same-self entry)
    go (some old) e h =
        elim (get-put_inv key k (record old { used = suc inner.tick }) entry inner.entries h) [
          | inl (same, is) ↦ (
            old,
            ap (λ j. get j inner.entries) (sym same) ∙ e,
            record {
              reply = ap (λ x. x.reply) (sym is);
              stored = ap (λ x. x.stored) (sym is);
              fresh_until = ap (λ x. x.fresh_until) (sym is);
            },
          )
          | inr (apart, kept) ↦ (entry, kept, Same-self entry)
        ]

pub found-From :
    (inner : Inner) (key k : Key) (now : ℕ) (o : Option Entry) (entry : Entry)
    → get k (found inner key now o).0.entries ≡ some entry
    → From inner k entry
found-From inner key k now none entry h = (entry, h, Same-self entry)
found-From inner key k now (some at) entry h =
    elim (Bool-cases (not (ltb now at.fresh_until) && is_empty (conditions at.reply))) [
      | inl gone ↦ forget-From inner key k entry (rw gone at h)
      | inr used ↦ touch-From inner key k entry (rw used at h)
    ]

pub evict-get :
    (used : List (ℕ × Key)) (inner : Inner) (k : Key) (entry : Entry)
    → get k (evict used inner).entries ≡ some entry
    → get k inner.entries ≡ some entry
unfolding evict
evict-get [] inner k entry h = h
evict-get ((t, oldest) ∷ used) inner k entry h = elim (Bool-cases (ltb max_size inner.size)) [
  | inl over ↦
      (get-remove_inv oldest k entry inner.entries
        (evict-get used _ k entry (rw (over, evict) at h))).1
  | inr fits ↦ rw (fits, evict) at h
]

pub forget_each-From :
    (entries : List (Key × Entry)) (inner : Inner) (k : Key) (entry : Entry)
    → get k (forget_each entries inner).entries ≡ some entry
    → From inner k entry
unfolding forget_each
forget_each-From [] inner k entry h = (entry, h, Same-self entry)
forget_each-From ((key, at) ∷ entries) inner k entry h =
    let (old, held, same) = forget_each-From entries (forget inner key) k entry h in
    let (older, had, alike) = forget-From inner key k old held in
    (
      older,
      had,
      record {
        reply = same.reply ∙ alike.reply;
        stored = same.stored ∙ alike.stored;
        fresh_until = same.fresh_until ∙ alike.fresh_until;
      },
    )
