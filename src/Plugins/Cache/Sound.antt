-- ===== src/Plugins/Cache/Sound.antt =====
-- crates/plugins/src/network/cache.rs: the bookkeeping of the cache, its size and its index of uses.
use mathlib.Core.Option.{some-injective}
use music_streaming.Base.{
  ℕ, suc, ◌-◌, ◌≤◌, ◌≡◌, refl, sym, ap, ◌∙◌, true, false, List, [], ◌∷◌, Option, none, some, ltb,
  ◌==◌, Bool-cases, Option-cases, inl, inr, arith,
}
use music_streaming.Base.Equality.{equal, list_equality, nat_equality, ==_self, ==_to}
use music_streaming.Base.KeyMap.{get, put, remove, get-remove_other, get-remove_inv, get-put_inv}
use music_streaming.Base.Totals.{
  Distinct, remove-Distinct, put-Distinct, total, total-remove, total-remove_absent,
}
use music_streaming.Plugins.Cache.Entries.{Key, key_equality, Reply}
use music_streaming.Plugins.Cache.{
  Entry, Inner, empty, insert_used, without, forget, used_at, touch, evict, keep, new_entry,
  size_of, max_size,
}

abbrev pub weight : Entry → ℕ
weight entry = entry.size

pub record Sound (inner : Inner) : Type 0 where
  pub sized : inner.size ≡ total weight inner.entries
  pub distinct : Distinct inner.entries
  pub tracked :
      (k : Key) (entry : Entry)
      → get k inner.entries ≡ some entry
      → get entry.used inner.used ≡ some k
  pub bounded : (t : ℕ) (k : Key) → get t inner.used ≡ some k → t ≤ inner.tick

pub empty-Sound : Sound empty
unfolding get
empty-Sound = record {
  sized = refl;
  distinct = tt;
  tracked = λ k entry h. absurd (cc h);
  bounded = λ t k h. absurd (cc h);
}

-- Entries under two keys were used at two times.
used_apart :
    (inner : Inner) (k j : Key) (entry other : Entry)
    → Sound inner
    → get k inner.entries ≡ some entry
    → get j inner.entries ≡ some other
    → equal k j ≡ false
    → equal entry.used other.used ≡ false
used_apart inner k j entry other s h h' apart = elim (Bool-cases (equal entry.used other.used)) [
  | inl same ↦
      let one : entry.used ≡ other.used = ==_to entry.used other.used same in
      let first = s.tracked k entry h in
      let second : get entry.used inner.used ≡ some j =
        ap (λ t. get t inner.used) one ∙ s.tracked j other h' in
      let is = some-injective k j (sym first ∙ second) in
      let self : equal k j ≡ true = rw is (key_equality.equal_self j) in absurd (cc (self, apart))
  | inr other ↦ other
]

without-Sound :
    (inner : Inner) (key : Key) (entry : Entry)
    → Sound inner
    → get key inner.entries ≡ some entry
    → Sound (without inner key (some entry))
without-Sound inner key entry s h = record {
  sized = omega (arith, s.sized, total-remove weight key entry inner.entries s.distinct h);
  distinct = remove-Distinct key inner.entries s.distinct;
  tracked = λ k e f.
      let (apart, kept) = get-remove_inv key k e inner.entries f in
      let times = used_apart inner key k entry e s h kept apart in
      get-remove_other entry.used e.used inner.used times ∙ s.tracked k e kept;
  bounded = λ t k f. s.bounded t k (get-remove_inv entry.used t k inner.used f).1;
}

pub forget-Sound : (inner : Inner) (key : Key) → Sound inner → Sound (forget inner key)
unfolding forget
forget-Sound inner key s = elim (Option-cases (get key inner.entries)) [
  | inl e ↦ rw (e, forget) s
  | inr (entry, e) ↦ rw (e, forget) (without-Sound inner key entry s e)
]

pub get-insert_used : (t : ℕ) (k : Key) (m : List (ℕ × Key)) → get t (insert_used t k m) ≡ some k
unfolding get insert_used
get-insert_used t k [] = rw (==_self t) refl
get-insert_used t k ((u, j) ∷ m) = elim (Bool-cases (ltb t u)) [
  | inl e ↦ rw e (rw (==_self t) refl)
  | inr e ↦ elim (Bool-cases (t == u)) [
    | inl f ↦ rw (e, f) (rw (==_self t) refl)
    | inr f ↦
        let apart : (u == t) ≡ false = ground arith in rw (e, f) (rw apart (get-insert_used t k m))
  ]
]

pub get-insert_used_other :
    (t j : ℕ) (k : Key) (m : List (ℕ × Key))
    → equal t j ≡ false
    → get j (insert_used t k m) ≡ get j m
unfolding get insert_used
get-insert_used_other t j k [] h = rw h refl
get-insert_used_other t j k ((u, i) ∷ m) h = elim (Bool-cases (ltb t u)) [
  | inl e ↦ rw e (rw h refl)
  | inr e ↦ elim (Bool-cases (t == u)) [
    | inl f ↦ let apart : (u == j) ≡ false = rw (==_to t u f) at h in rw (e, f) (rw (h, apart) refl)
    | inr f ↦ elim (Bool-cases (u == j)) [
      | inl g ↦ rw (e, f) (rw g refl)
      | inr g ↦ rw (e, f) (rw g (get-insert_used_other t j k m h))
    ]
  ]
]

-- The keys and times of a map after the key is put at the next tick.
used_next :
    (inner : Inner) (key : Key) (entries : List (Key × Entry)) (used : List (ℕ × Key))
    (entry : Entry)
    → entry.used ≡ suc inner.tick
    → ((t : ℕ) (k : Key) → get t used ≡ some k → t ≤ inner.tick)
    → ((k : Key) (e : Entry)
        → equal key k ≡ false
        → get k entries ≡ some e
        → get e.used used ≡ some k)
    → (k : Key) (e : Entry) → get k (put key entry entries) ≡ some e
    → get e.used (insert_used (suc inner.tick) key used) ≡ some k
used_next inner key entries used entry at bound known k e h =
    elim (get-put_inv key k entry e entries h) [
      | inl (same, is) ↦
          let time : e.used ≡ suc inner.tick = ap (λ x. x.used) (sym is) ∙ at in
          rw (time, ← same) (get-insert_used (suc inner.tick) key used)
      | inr (apart, kept) ↦
          let old = known k e apart kept in
          let low = bound e.used k old in
          let other : (suc inner.tick == e.used) ≡ false = ground arith in
          get-insert_used_other (suc inner.tick) e.used key used other ∙ old
    ]

used_bound :
    (tick : ℕ) (key : Key) (used : List (ℕ × Key))
    → ((t : ℕ) (k : Key) → get t used ≡ some k → t ≤ tick)
    → (t : ℕ) (k : Key) → get t (insert_used (suc tick) key used) ≡ some k
    → t ≤ suc tick
used_bound tick key used bound t k h = elim (Bool-cases (suc tick == t)) [
  | inl same ↦ let is = ==_to (suc tick) t same in omega (arith, is)
  | inr other ↦
      let low = bound t k (sym (get-insert_used_other (suc tick) t key used other) ∙ h) in
      omega (arith, low)
]

used_at-Sound :
    (inner : Inner) (key : Key) (entry : Entry)
    → Sound inner
    → get key inner.entries ≡ some entry
    → Sound (used_at (record inner { tick = suc inner.tick }) key (some entry))
used_at-Sound inner key entry s h =
    let rest = without-Sound inner key entry s h in
    record {
      sized = omega (arith, s.sized, total-remove weight key entry inner.entries s.distinct h);
      distinct = put-Distinct key (record entry { used = suc inner.tick }) inner.entries s.distinct;
      tracked =
          used_next inner key inner.entries (remove entry.used inner.used)
            (record entry { used = suc inner.tick }) refl rest.bounded
            (λ k e apart f. rest.tracked k e (get-remove_other key k inner.entries apart ∙ f));
      bounded = used_bound inner.tick key (remove entry.used inner.used) rest.bounded;
    }

ticked-Sound : (inner : Inner) → Sound inner → Sound (record inner { tick = suc inner.tick })
ticked-Sound inner s = record {
  sized = s.sized;
  distinct = s.distinct;
  tracked = s.tracked;
  bounded = λ t k h. let low = s.bounded t k h in omega (arith, low);
}

pub touch-Sound : (inner : Inner) (key : Key) → Sound inner → Sound (touch inner key)
unfolding touch
touch-Sound inner key s = elim (Option-cases (get key inner.entries)) [
  | inl e ↦ rw (e, touch) (ticked-Sound inner s)
  | inr (entry, e) ↦ rw (e, touch) (used_at-Sound inner key entry s e)
]

pub keep-Sound :
    (inner : Inner) (key : Key) (reply : Reply) (now life : ℕ)
    → Sound inner
    → get key inner.entries ≡ none
    → Sound (keep inner key reply now life)
unfolding keep
keep-Sound inner key reply now life s e = record {
  sized = omega (arith, s.sized, total-remove_absent weight key inner.entries e);
  distinct = put-Distinct key (new_entry inner key reply now life) inner.entries s.distinct;
  tracked =
      used_next inner key inner.entries inner.used (new_entry inner key reply now life) refl
        s.bounded (λ k e apart f. s.tracked k e f);
  bounded = used_bound inner.tick key inner.used s.bounded;
}

remove_sized :
    (entries : List (Key × Entry)) (key : Key) (size : ℕ) (o : Option Entry)
    → Distinct entries
    → size ≡ total weight entries
    → get key entries ≡ o
    → size - size_of o ≡ total weight (remove key entries)
remove_sized entries key size none d e h =
    omega (arith, e, total-remove_absent weight key entries h)
remove_sized entries key size (some entry) d e h =
    omega (arith, e, total-remove weight key entry entries d h)

-- The rest of the index after its first entry.
tail-get :
    (t : ℕ) (oldest : Key) (used : List (ℕ × Key)) (j : ℕ) (k : Key)
    → get j ((t, oldest) ∷ used) ≡ some k
    → equal oldest k ≡ false
    → get j used ≡ some k
unfolding get
tail-get t oldest used j k h apart = elim (Bool-cases (t == j)) [
  | inl same ↦
      let is = some-injective oldest k (rw same at h) in
      let self : equal oldest k ≡ true = rw is (key_equality.equal_self k) in
      absurd (cc (self, apart))
  | inr other ↦ rw other at h
]

tail_bound :
    (t tick : ℕ) (oldest : Key) (used : List (ℕ × Key))
    → ((j : ℕ) (k : Key) → get j ((t, oldest) ∷ used) ≡ some k → j ≤ tick)
    → (j : ℕ) (k : Key) → get j used ≡ some k
    → j ≤ tick
unfolding get
tail_bound t tick oldest used bound j k h = elim (Bool-cases (t == j)) [
  | inl same ↦ bound j oldest (rw same refl)
  | inr other ↦ bound j k (rw other h)
]

evicted-Sound :
    (inner : Inner) (t : ℕ) (oldest : Key) (used : List (ℕ × Key))
    → Sound (record inner { used = (t, oldest) ∷ used })
    → Sound (record inner {
      entries = remove oldest inner.entries;
      used = used;
      size = inner.size - size_of (get oldest inner.entries);
    })
evicted-Sound inner t oldest used s = record {
  sized =
      remove_sized inner.entries oldest inner.size (get oldest inner.entries) s.distinct s.sized
        refl;
  distinct = remove-Distinct oldest inner.entries s.distinct;
  tracked = λ k e f.
      let (apart, kept) = get-remove_inv oldest k e inner.entries f in
      tail-get t oldest used e.used k (s.tracked k e kept) apart;
  bounded = tail_bound t inner.tick oldest used s.bounded;
}

-- No index, no entry.
untracked_total :
    (entries : List (Key × Entry))
    → ((k : Key) (entry : Entry)
        → get k entries ≡ some entry
        → get {V = Key} entry.used [] ≡ some k)
    → total weight entries ≡ 0
unfolding get
untracked_total [] h = refl
untracked_total ((k, entry) ∷ entries) h =
    absurd (cc (h k entry (rw (key_equality.equal_self k) refl)))

pub evict-Sound :
    (used : List (ℕ × Key)) (inner : Inner)
    → Sound (record inner { used = used })
    → Sound (evict used inner) × ((evict used inner).size ≤ max_size)
unfolding evict
evict-Sound [] inner s = (s, omega (arith, s.sized, untracked_total inner.entries s.tracked))
evict-Sound ((t, oldest) ∷ used) inner s = elim (Bool-cases (ltb max_size inner.size)) [
  | inl over ↦ rw (over, evict) (evict-Sound used _ (evicted-Sound inner t oldest used s))
  | inr fits ↦ rw (fits, evict) (s, ground arith)
]
