-- ===== src/Plugins/Limits/Spaced.antt =====
-- crates/plugins/src/network/limits.rs: how long a queue holds up the requests that name it.
use music_streaming.Base.{
  ℕ, ◌+◌, ◌≤◌, max, ◌≡◌, refl, sym, ap, ◌∙◌, Bool, true, false, not, ◌||◌, List, [], ◌∷◌, Option,
  none, some, ltb, ◌==◌, if◌then◌else◌, retain, any, Bool-cases, inl, inr, ◌⊎◌, arith,
}
use mathlib.Core.Option.{some-injective}
use music_streaming.Base.Equality.{equal, list_equality, nat_equality, pair_equality}
use music_streaming.Base.KeyMap.{
  get, put, remove, get-put, get-put_other, get-remove_other, get-retain,
}
use music_streaming.Plugins.Scopes.{Scope, scope_equality}
use music_streaming.Plugins.Texts.{Text}
use music_streaming.Plugins.Limits.{
  Key, Queue, Limits, idle, or_insert, later_of, latest, take_turn, take_turns, turn, settled,
  throttle, answered, pause, asked_wait, max_wait,
}

-- Requests under the key are held up until the instant, or it has come.
abbrev pub Holds : Limits → Key → ℕ → ℕ → Type 0
Holds kept key until now =
    (until ≤ now) ⊎ ((queue : Queue) × (get key kept ≡ some queue) × (until ≤ queue.next))

idle-next : (queue : Queue) (now : ℕ) → idle queue now ≡ true → queue.next ≤ now
unfolding idle
idle-next queue now h = ground arith

pub Holds-put :
    (kept : Limits) (key : Key) (queue : Queue) (until now : ℕ)
    → until ≤ queue.next
    → Holds (put key queue kept) key until now
Holds-put kept key queue until now h = inr (queue, get-put key queue kept, h)

-- What is put or removed under another key leaves it.
Holds-other :
    (kept kept' : Limits) (key : Key) (until now : ℕ)
    → get key kept' ≡ get key kept
    → Holds kept key until now
    → Holds kept' key until now
Holds-other kept kept' key until now e (inl h) = inl h
Holds-other kept kept' key until now e (inr (queue, f, h)) = inr (queue, e ∙ f, h)

-- Putting a queue, and forgetting it again if it is idle.
pub put_unless_idle-Holds :
    (kept : Limits) (key' key : Key) (queue : Queue) (until now : ℕ)
    → (equal key' key ≡ true → until ≤ queue.next)
    → (equal key' key ≡ false → Holds kept key until now)
    → Holds
        (if idle queue now then remove key' (put key' queue kept) else put key' queue kept)
        key
        until
        now
put_unless_idle-Holds kept key' key queue until now h k = elim (Bool-cases (equal key' key)) [
  | inl same ↦ elim (Bool-cases (idle queue now)) [
    | inl quiet ↦ let b = h same in let c = idle-next queue now quiet in inl (omega (arith, b, c))
    | inr busy ↦
        let one = pair_equality.equal_to key' key same in
        rw (busy, one) (Holds-put kept key queue until now (h same))
  ]
  | inr apart ↦ elim (Bool-cases (idle queue now)) [
    | inl quiet ↦ rw quiet (
        Holds-other kept _ key until now
          (get-remove_other key' key (put key' queue kept) apart
            ∙ get-put_other key' key queue kept apart)
          (k apart))
    | inr busy ↦
        rw busy
          (Holds-other kept _ key until now (get-put_other key' key queue kept apart) (k apart))
  ]
]

pub take_turn-Holds :
    (kept : Limits) (host : Text) (scope : Scope) (gap start now : ℕ) (key : Key) (until : ℕ)
    → (equal (host, scope) key ≡ true → until ≤ start + gap)
    → (equal (host, scope) key ≡ false → Holds kept key until now)
    → Holds (take_turn kept host scope gap start now) key until now
unfolding take_turn
take_turn-Holds kept host scope gap start now key until h k =
    put_unless_idle-Holds kept (host, scope) key _ until now h k

any_first {ℓ} :
    {A : Type ℓ} (p : A → Bool) (x : A) (xs : List A) → p x ≡ true → any p (x ∷ xs) ≡ true
any_first p x xs e = rw e refl

any_later {ℓ} :
    {A : Type ℓ} (p : A → Bool) (x : A) (xs : List A) → any p xs ≡ true → any p (x ∷ xs) ≡ true
any_later p x xs e = elim (Bool-cases (p x)) [ inl h ↦ rw h refl | inr h ↦ rw h e ]

abbrev pub names : Text → Key → Scope × ℕ → Bool
names host key queue = equal (host, queue.0) key

pub take_turns-Holds :
    (kept : Limits) (host : Text) (queues : List (Scope × ℕ)) (start now : ℕ) (key : Key)
    (until : ℕ)
    → (any (names host key) queues ≡ true → until ≤ start)
    → Holds kept key until now
    → Holds (take_turns kept host queues start now) key until now
unfolding take_turns
take_turns-Holds kept host [] start now key until h w = w
take_turns-Holds kept host ((scope, gap) ∷ queues) start now key until h w =
    take_turns-Holds (take_turn kept host scope gap start now) host queues start now key until
      (λ e. h (any_later (names host key) (scope, gap) queues e))
      (take_turn-Holds kept host scope gap start now key until
        (λ e. let b = h (any_first (names host key) (scope, gap) queues e) in omega (arith, b))
        (λ e. w))

later_of-ge : (o : Option Queue) (start : ℕ) → start ≤ later_of o start
later_of-ge none start = omega arith
later_of-ge (some queue) start = omega arith

pub latest-ge :
    (kept : Limits) (host : Text) (queues : List (Scope × ℕ)) (start : ℕ)
    → start ≤ latest kept host queues start
unfolding latest
latest-ge kept host [] start = omega arith
latest-ge kept host ((scope, gap) ∷ queues) start =
    let next = later_of (get (host, scope) kept) start in
    omega (arith, later_of-ge (get (host, scope) kept) start, latest-ge kept host queues next)

latest-kept :
    (kept : Limits) (host : Text) (queues : List (Scope × ℕ)) (start : ℕ) (key : Key)
    (queue : Queue)
    → any (names host key) queues ≡ true
    → get key kept ≡ some queue
    → queue.next ≤ latest kept host queues start
unfolding latest
latest-kept kept host [] start key queue h e = absurd (cc h)
latest-kept kept host ((scope, gap) ∷ queues) start key queue h e =
    elim (Bool-cases (equal (host, scope) key)) [
      | inl same ↦
          let found : get (host, scope) kept ≡ some queue =
            rw (pair_equality.equal_to (host, scope) key same) e in
          let first : queue.next ≤ later_of (get (host, scope) kept) start =
            rw found (omega arith) in
          omega (arith, first, latest-ge kept host queues (later_of (get (host, scope) kept) start))
      | inr apart ↦
          latest-kept kept host queues (later_of (get (host, scope) kept) start) key queue
            (rw apart at h) e
    ]

-- A turn that names the key waits for it.
pub latest-Holds :
    (kept : Limits) (host : Text) (queues : List (Scope × ℕ)) (now : ℕ) (key : Key) (until : ℕ)
    → any (names host key) queues ≡ true
    → Holds kept key until now
    → until ≤ latest kept host queues now
latest-Holds kept host queues now key until h (inl come) =
    omega (arith, latest-ge kept host queues now)
latest-Holds kept host queues now key until h (inr (queue, e, k)) =
    omega (arith, latest-kept kept host queues now key queue h e)

pub turn-Holds :
    (kept : Limits) (host : Text) (queues : List (Scope × ℕ)) (now : ℕ) (key : Key) (until : ℕ)
    → Holds kept key until now
    → Holds (turn kept host queues now).0 key until now
unfolding turn
turn-Holds kept host queues now key until w =
    elim (Bool-cases (ltb (now + max_wait) (latest kept host queues now))) [
      | inl far ↦ rw (far, turn) w
      | inr near ↦
          rw (near, turn)
            (take_turns-Holds kept host queues (latest kept host queues now) now key until
              (λ h. latest-Holds kept host queues now key until h w) w)
    ]

settled-Holds :
    (kept : Limits) (key' key : Key) (until now : ℕ) (found : Option Queue)
    → get key' kept ≡ found
    → Holds kept key until now
    → Holds (settled kept key' now found) key until now
unfolding settled
settled-Holds kept key' key until now none e w = w
settled-Holds kept key' key until now (some queue) e (inl come) = inl come
settled-Holds kept key' key until now (some queue) e (inr (old, f, h)) =
    put_unless_idle-Holds kept key' key (record queue { throttled = 0 }) until now
      (λ same.
        let one = pair_equality.equal_to key' key same in
        let is = some-injective queue old (sym e ∙ (ap (λ k. get k kept) one ∙ f)) in rw is h)
      (λ apart. inr (old, f, h))

retain-Holds :
    (kept : Limits) (key : Key) (until now : ℕ)
    → Holds kept key until now
    → Holds (retain (λ entry. not (idle entry.1 now)) kept) key until now
retain-Holds kept key until now (inl come) = inl come
retain-Holds kept key until now (inr (queue, e, h)) = elim (Bool-cases (idle queue now)) [
  | inl quiet ↦ let b = idle-next queue now quiet in inl (omega (arith, h, b))
  | inr busy ↦
      let found =
        get-retain (λ entry. not (idle entry.1 now)) key queue kept e (λ j same. rw busy refl) in
      inr (queue, found, h)
]

put-Holds :
    (kept : Limits) (key' key : Key) (queue : Queue) (until now : ℕ)
    → (equal key' key ≡ true → (until ≤ now) ⊎ (until ≤ queue.next))
    → (equal key' key ≡ false → Holds kept key until now)
    → Holds (put key' queue kept) key until now
put-Holds kept key' key queue until now h k = elim (Bool-cases (equal key' key)) [
  | inl same ↦ elim (h same) [
    | inl come ↦ inl come
    | inr held ↦ inr (
      queue,
      ap (λ k. get k (put key' queue kept)) (sym (pair_equality.equal_to key' key same))
          ∙ get-put key' queue kept,
      held,
    )
  ]
  | inr apart ↦ Holds-other kept _ key until now (get-put_other key' key queue kept apart) (k apart)
]

next-or_insert :
    (o : Option Queue) (queue : Queue) (until now pause_end : ℕ)
    → o ≡ some queue
    → until ≤ queue.next
    → until ≤ max (or_insert o now).next pause_end
next-or_insert o queue until now pause_end e h = rw e (omega arith)

-- The pause only moves on the next turn of what is kept.
throttled-next :
    (kept : Limits) (key' key : Key) (until now pause_end : ℕ)
    → equal key' key ≡ true
    → Holds kept key until now
    → (until ≤ now) ⊎ (until ≤ max (or_insert (get key' kept) now).next pause_end)
throttled-next kept key' key until now pause_end same (inl come) = inl come
throttled-next kept key' key until now pause_end same (inr (queue, e, h)) =
    let one : key' ≡ key = pair_equality.equal_to key' key same in
    let found : get key' kept ≡ some queue = ap (λ k. get k kept) one ∙ e in
    inr (next-or_insert (get key' kept) queue until now pause_end found h)

module _ (http_date : Text → Option ℕ) (mul_fraction : ℕ → ℕ) where
  throttle-Holds :
      (kept : Limits) (key' key : Key) (retry_after : Option Text) (until now clock : ℕ)
      → Holds kept key until now
      → Holds (throttle http_date mul_fraction kept key' retry_after now clock) key until now
  unfolding throttle
  throttle-Holds kept key' key retry_after until now clock w =
      let busy = retain (λ entry. not (idle entry.1 now)) kept in
      let held = retain-Holds kept key until now w in
      put-Holds busy key' key _ until now
        (λ same. throttled-next busy key' key until now _ same held) (λ apart. held)

  -- The pause that the answer asks for.
  pub throttle-pause :
      (kept : Limits) (key : Key) (retry_after : Option Text) (now clock : ℕ)
      → (throttled : ℕ) × Holds
          (throttle http_date mul_fraction kept key retry_after now clock)
          key
          (now
            + pause http_date mul_fraction
                (asked_wait http_date mul_fraction retry_after clock)
                throttled)
          now
  unfolding throttle
  throttle-pause kept key retry_after now clock =
      let busy = retain (λ entry. not (idle entry.1 now)) kept in
      ((or_insert (get key busy) now).throttled, Holds-put busy key _ _ now (omega arith))

  pub answered-Holds :
      (kept : Limits) (host : Text) (scope : Scope) (status : ℕ) (retry_after : Option Text)
      (key : Key) (until now clock : ℕ)
      → Holds kept key until now
      → Holds
          (answered http_date mul_fraction kept host scope status retry_after now clock)
          key
          until
          now
  unfolding answered
  answered-Holds kept host scope status retry_after key until now clock w =
      elim (Bool-cases (status == 429 || status == 503)) [
        | inl busy ↦
            rw (busy, answered)
              (throttle-Holds kept (host, scope) key retry_after until now clock w)
        | inr calm ↦
            rw (calm, answered)
              (settled-Holds kept (host, scope) key until now (get (host, scope) kept) refl w)
      ]

pub later-Holds :
    (kept : Limits) (key : Key) (until now now' : ℕ)
    → now ≤ now'
    → Holds kept key until now
    → Holds kept key until now'
later-Holds kept key until now now' l (inl come) = inl (omega arith)
later-Holds kept key until now now' l (inr held) = inr held
