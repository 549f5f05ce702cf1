-- ===== src/Plugins/Limits/Runs.antt =====
-- Runs of limits.rs: turns and answers in any order, at instants that do not go back.
use music_streaming.Base.{
  ℕ, ◌+◌, ◌≤◌, min, ◌≡◌, refl, sym, ap, subst, ◌∙◌, true, false, List, [], ◌∷◌, ◌++◌, Option, some,
  ltb, ◌==◌, ◌||◌, any, Bool-cases, inl, inr, arith,
}
use music_streaming.Base.Equality.{equal, list_equality, nat_equality, pair_equality}
use music_streaming.Plugins.Scopes.{Scope, scope_equality}
use music_streaming.Plugins.Texts.{Text}
use music_streaming.Plugins.Limits.{
  Key, Limits, Answer, ok, err, latest, take_turn, take_turns, turn, answered, throttle, pause,
  asked_wait, parse_retry_after, max_wait, max_pause,
}
use music_streaming.Plugins.Limits.Spaced.{
  Holds, names, turn-Holds, take_turns-Holds, take_turn-Holds, latest-Holds, later-Holds,
  answered-Holds, throttle-pause,
}

pub data Event : Type 0 where
  asks : Text → List (Scope × ℕ) → Event
  answers : (ℕ → ℕ) → Text → Scope → ℕ → Option Text → ℕ → Event

module _ (http_date : Text → Option ℕ) where
  unfoldable pub step : Limits → ℕ → Event → Limits
  step kept now (asks host queues) = (turn kept host queues now).0
  step kept now (answers mul_fraction host scope status retry_after clock) =
      answered http_date mul_fraction kept host scope status retry_after now clock

  -- Events, each with the time since the one before.
  unfoldable pub run : Limits → ℕ → List (ℕ × Event) → Limits
  run kept now [] = kept
  run kept now ((wait, event) ∷ events) = run (step kept (now + wait) event) (now + wait) events

  abbrev pub end_of : ℕ → List (ℕ × Event) → ℕ
  end_of now [] = now
  end_of now ((wait, event) ∷ events) = end_of (now + wait) events

  step-Holds :
      (kept : Limits) (now : ℕ) (event : Event) (key : Key) (until : ℕ)
      → Holds kept key until now
      → Holds (step kept now event) key until now
  unfolding step
  step-Holds kept now (asks host queues) key until w = turn-Holds kept host queues now key until w
  step-Holds kept now (answers mul_fraction host scope status retry_after clock) key until w =
      answered-Holds http_date mul_fraction kept host scope status retry_after key until now clock w

  run-Holds :
      (kept : Limits) (now : ℕ) (events : List (ℕ × Event)) (key : Key) (until : ℕ)
      → Holds kept key until now
      → Holds (run kept now events) key until (end_of now events)
  unfolding run
  run-Holds kept now [] key until w = w
  run-Holds kept now ((wait, event) ∷ events) key until w =
      let later = later-Holds kept key until now (now + wait) (omega arith) w in
      run-Holds (step kept (now + wait) event) (now + wait) events key until
        (step-Holds kept (now + wait) event key until later)

abbrev instant : Answer → ℕ
instant (ok start) = start
instant (err wait) = wait

-- A turn that is given, is given at the latest turn of its queues.
turn-latest :
    (kept : Limits) (host : Text) (queues : List (Scope × ℕ)) (now start : ℕ)
    → (turn kept host queues now).1 ≡ ok start
    → (latest kept host queues now ≡ start)
      × (start ≤ now + max_wait)
      × ((turn kept host queues now).0 ≡ take_turns kept host queues start now)
unfolding turn
turn-latest kept host queues now start e =
    elim (Bool-cases (ltb (now + max_wait) (latest kept host queues now))) [
      | inl far ↦ absurd (cc (rw (far, turn) at e))
      | inr near ↦
          let given : ok (latest kept host queues now) ≡ ok start = rw (near, turn) at e in
          let same = ap instant given in
          let left : (turn kept host queues now).0
              ≡ take_turns kept host queues (latest kept host queues now) now =
            rw (near, turn) refl in
          (same, ground arith, left ∙ ap (λ t. take_turns kept host queues t now) same)
    ]

names_scope :
    (host : Text) (scope : Scope) (queues : List (Scope × ℕ))
    → any (λ q. equal q.0 scope) queues ≡ any (names host (host, scope)) queues
names_scope host scope [] = refl
names_scope host scope (q ∷ queues) =
    let same : names host (host, scope) q ≡ equal q.0 scope =
      rw (list_equality.equal_self host) refl in
    rw (same, names_scope host scope queues) refl

-- The last queue of the scope keeps its gap.
take_turns-gap :
    (kept : Limits) (host : Text) (earlier later : List (Scope × ℕ)) (scope : Scope)
    (gap start now : ℕ)
    → any (λ q. equal q.0 scope) later ≡ false
    → Holds
        (take_turns kept host (earlier ++ ((scope, gap) ∷ later)) start now)
        (host, scope)
        (start + gap)
        now
unfolding take_turns
take_turns-gap kept host [] later scope gap start now h =
    take_turns-Holds (take_turn kept host scope gap start now) host later start now (host, scope)
      (start + gap) (λ e. absurd (cc (e, sym (names_scope host scope later), h)))
      (take_turn-Holds kept host scope gap start now (host, scope) (start + gap) (λ e. omega arith)
        (λ e. absurd (cc (e, pair_equality.equal_self (host, scope)))))
take_turns-gap kept host ((other, space) ∷ earlier) later scope gap start now h =
    take_turns-gap (take_turn kept host other space start now) host earlier later scope gap start
      now h

module _ (http_date : Text → Option ℕ) where
  -- What holds a queue up, holds up the turns given later.
  held-turn :
      (kept : Limits) (now : ℕ) (host : Text) (scope : Scope) (until : ℕ)
      (events : List (ℕ × Event)) (queues : List (Scope × ℕ)) (start : ℕ)
      → Holds kept (host, scope) until now
      → any (λ q. equal q.0 scope) queues ≡ true
      → (turn (run http_date kept now events) host queues (end_of http_date now events)).1
        ≡ ok start
      → until ≤ start
  held-turn kept now host scope until events queues start w named e =
      let then_held = run-Holds http_date kept now events (host, scope) until w in
      let named' : any (names host (host, scope)) queues ≡ true =
        sym (names_scope host scope queues) ∙ named in
      let after =
        latest-Holds (run http_date kept now events) host queues (end_of http_date now events)
          (host, scope) until named' then_held in
      let (same, bound, left) =
        turn-latest (run http_date kept now events) host queues (end_of http_date now events) start
          e in
      omega (arith, after, same)

  pub turn-spaced :
      (kept : Limits) (host : Text) (earlier later : List (Scope × ℕ)) (scope : Scope)
      (gap now start : ℕ) (events : List (ℕ × Event)) (queues : List (Scope × ℕ)) (start' : ℕ)
      → any (λ q. equal q.0 scope) later ≡ false
      → (turn kept host (earlier ++ ((scope, gap) ∷ later)) now).1 ≡ ok start
      → any (λ q. equal q.0 scope) queues ≡ true
      → (turn
          (run http_date (turn kept host (earlier ++ ((scope, gap) ∷ later)) now).0 now events)
          host
          queues
          (end_of http_date now events)).1
        ≡ ok start'
      → start + gap ≤ start'
  turn-spaced kept host earlier later scope gap now start events queues start' once given named
        given' =
      let (same, bound, left) =
        turn-latest kept host (earlier ++ ((scope, gap) ∷ later)) now start given in
      let held = take_turns-gap kept host earlier later scope gap start now once in
      held-turn (turn kept host (earlier ++ ((scope, gap) ∷ later)) now).0 now host scope
        (start + gap) events queues start' (rw left held) named given'

  -- After a 429 or 503 whose Retry-After is read as a wait, a turn given later in the scope that
  -- it answered is at least that wait, or an hour if it is longer, after the answer, whatever
  -- comes between.
  pub answered-pause :
      (kept : Limits) (mul_fraction : ℕ → ℕ) (host : Text) (scope : Scope) (status : ℕ)
      (retry_after : Text) (asked now clock : ℕ) (events : List (ℕ × Event))
      (queues : List (Scope × ℕ)) (start : ℕ)
      → (status == 429 || status == 503) ≡ true
      → parse_retry_after http_date mul_fraction retry_after clock ≡ some asked
      → any (λ q. equal q.0 scope) queues ≡ true
      → (turn
          (run http_date
            (answered http_date mul_fraction kept host scope status (some retry_after) now clock)
            now
            events)
          host
          queues
          (end_of http_date now events)).1
        ≡ ok start
      → now + min asked max_pause ≤ start
  unfolding answered pause
  answered-pause kept mul_fraction host scope status retry_after asked now clock events queues start
        busy says named given =
      let (throttled, held) =
        throttle-pause http_date mul_fraction kept (host, scope) (some retry_after) now clock in
      let amount : pause http_date mul_fraction
            (asked_wait http_date mul_fraction (some retry_after) clock) throttled
          ≡ min asked max_pause =
        ap (λ o. pause http_date mul_fraction o throttled) says in
      let paused : answered http_date mul_fraction kept host scope status (some retry_after) now
            clock
          ≡ throttle http_date mul_fraction kept (host, scope) (some retry_after) now clock =
        rw (busy, answered) refl in
      held-turn (throttle http_date mul_fraction kept (host, scope) (some retry_after) now clock)
        now host scope (now + min asked max_pause) events queues start
        (subst
          (λ n.
            Holds (throttle http_date mul_fraction kept (host, scope) (some retry_after) now clock)
              (host, scope) (now + n) now)
          amount held)
        named (rw paused at given)
