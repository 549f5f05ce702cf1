-- ===== src/Plugins/Limits/Bounds.antt =====
-- How long a turn of limits.rs may be off, and what a refused request is told.
use music_streaming.Base.{
  ℕ, ◌+◌, ◌-◌, ◌≤◌, ◌<◌, ◌≡◌, refl, ap, ◌∙◌, false, List, [], ◌∷◌, Option, none, some, ltb,
  Bool-cases, inl, inr, arith,
}
use music_streaming.Base.Equality.{list_equality, nat_equality, pair_equality}
use music_streaming.Base.KeyMap.{get}
use music_streaming.Plugins.Scopes.{Scope, scope_equality}
use music_streaming.Plugins.Texts.{Text}
use music_streaming.Plugins.Limits.{
  Limits, Queue, Answer, ok, err, later_of, latest, turn, max_wait,
}
use music_streaming.Plugins.Limits.Spaced.{latest-ge}

later_of_fixed : (o : Option Queue) (start t : ℕ) → later_of o start ≤ t → later_of o t ≡ t
later_of_fixed none start t h = refl
later_of_fixed (some queue) start t h = omega arith

-- At the instant that a request may go, it may go at once.
latest_fixed :
    (kept : Limits) (host : Text) (queues : List (Scope × ℕ)) (start t : ℕ)
    → latest kept host queues start ≡ t
    → latest kept host queues t ≡ t
unfolding latest
latest_fixed kept host [] start t e = refl
latest_fixed kept host ((scope, gap) ∷ queues) start t e =
    let o = get (host, scope) kept in
    let bound : later_of o start ≤ t =
      omega (arith, latest-ge kept host queues (later_of o start), e) in
    ap (latest kept host queues) (later_of_fixed o start t bound)
    ∙ latest_fixed kept host queues (later_of o start) t e

-- A turn within the longest wait; or a refusal that leaves the queues, after a longer wait, which once
-- over lets the request go at once.
pub Bounded : Limits → Text → List (Scope × ℕ) → ℕ → Limits × Answer → Type 0
Bounded kept host queues now (kept', ok start) = (now ≤ start) × (start ≤ now + max_wait)
Bounded kept host queues now (kept', err wait) =
    (max_wait < wait) × (kept' ≡ kept) × ((turn kept host queues (now + wait)).1 ≡ ok (now + wait))

turn_at :
    (kept : Limits) (host : Text) (queues : List (Scope × ℕ)) (t : ℕ)
    → latest kept host queues t ≡ t
    → (turn kept host queues t).1 ≡ ok t
unfolding turn
turn_at kept host queues t e =
    let near : ltb (t + max_wait) (latest kept host queues t) ≡ false = rw e (ground arith) in
    rw (near, turn) (ap ok e)

-- A turn that is given is not before now and at most a minute after it; one refused is over a
-- minute off, leaves the queues as they are, and would be given at once when the wait it answers
-- with is over.
pub turn-Bounded :
    (kept : Limits) (host : Text) (queues : List (Scope × ℕ)) (now : ℕ)
    → Bounded kept host queues now (turn kept host queues now)
unfolding Bounded turn
turn-Bounded kept host queues now =
    elim (Bool-cases (ltb (now + max_wait) (latest kept host queues now))) [
      | inl far ↦
          let over = latest_fixed kept host queues now (latest kept host queues now) refl in
          let t : now + (latest kept host queues now - now) ≡ latest kept host queues now =
            ground arith in
          rw (far, turn)
            (ground arith, refl, rw t (turn_at kept host queues (latest kept host queues now) over))
      | inr near ↦ rw (near, turn) (latest-ge kept host queues now, ground arith)
    ]
