-- ===== src/Plugins/Requests/Spaced.antt =====
-- The requests of runs under limits.rs, with the queues of http.rs.
use mathlib.Core.List.{Mem, mem-cons, not-mem-nil}
use mathlib.Core.Logic.Or
use native.Mathlib.Bridge.{le_prop}
use music_streaming.Base.{
  ℕ, ◌+◌, ◌≤◌, ◌≡◌, refl, ap, true, false, List, [], ◌∷◌, Option, none, some, any, Bool-cases, inl,
  inr,
}
use music_streaming.Base.Equality.{equal}
use music_streaming.Plugins.Scopes.{Scope, host as the_host, scope_equality}
use music_streaming.Plugins.Texts.{Text}
use music_streaming.Plugins.Limits.{Limits, ok, turn}
use music_streaming.Plugins.Limits.Runs.{Event, run, end_of, turn-spaced}
use music_streaming.Plugins.Requests.{Grants, queues, own, host_limit, shared}

-- No queue after the first is of its scope.
shared_apart :
    (scope : Scope) (limit : Option ℕ) → any (λ q. equal q.0 scope) (shared scope limit) ≡ false
shared_apart scope none = refl
shared_apart scope (some gap) = elim (Bool-cases (equal the_host scope)) [
  | inl same ↦ rw same refl
  | inr apart ↦ rw apart (rw apart refl)
]

module _ (http_date : Text → Option ℕ) where
  -- The host's queue, where it stands after the run's own.
  second-spaced :
      (kept : Limits) (host : Text) (first : Scope × ℕ) (rest : List (Scope × ℕ)) (space : ℕ)
      (scope : Scope) (gap now start : ℕ) (events : List (ℕ × Event)) (later : List (Scope × ℕ))
      (start' : ℕ)
      → rest ≡ (the_host, space) ∷ []
      → Mem (scope, gap) rest
      → (turn kept host (first ∷ rest) now).1 ≡ ok start
      → any (λ q. equal q.0 scope) later ≡ true
      → (turn
          (run http_date (turn kept host (first ∷ rest) now).0 now events)
          host
          later
          (end_of http_date now events)).1
        ≡ ok start'
      → start + gap ≤ start'
  second-spaced kept host first rest space scope gap now start events later start' e m given named
        given' =
      let m' : Mem (scope, gap) ((the_host, space) ∷ []) = rw e at m in
      Or.elim le_prop (mem-cons.0 m')
        (λ same.
          let is : gap ≡ space = ap (λ q. q.1) same in
          let at : scope ≡ the_host = ap (λ q. q.0) same in
          rw is (
            turn-spaced http_date kept host (first ∷ []) [] the_host space now start events later
              start' refl (rw e at given) (rw at at named) (rw e at given')))
        (λ r. absurd (not-mem-nil r))

  later-spaced :
      (kept : Limits) (host : Text) (first : Scope × ℕ) (limit : Option ℕ) (scope : Scope)
      (gap now start : ℕ) (events : List (ℕ × Event)) (later : List (Scope × ℕ)) (start' : ℕ)
      → Mem (scope, gap) (shared first.0 limit)
      → (turn kept host (first ∷ shared first.0 limit) now).1 ≡ ok start
      → any (λ q. equal q.0 scope) later ≡ true
      → (turn
          (run http_date (turn kept host (first ∷ shared first.0 limit) now).0 now events)
          host
          later
          (end_of http_date now events)).1
        ≡ ok start'
      → start + gap ≤ start'
  later-spaced kept host first none scope gap now start events later start' m given named given' =
      absurd (not-mem-nil m)
  later-spaced kept host first (some space) scope gap now start events later start' m given named
        given' =
      elim (Bool-cases (equal the_host first.0)) [
        | inl same ↦ absurd (not-mem-nil (rw same at m))
        | inr apart ↦
            second-spaced kept host first (shared first.0 (some space)) space scope gap now start
              events later start' (rw apart refl) m given named given'
      ]

  shared-spaced :
      (kept : Limits) (host : Text) (first : Scope × ℕ) (limit : Option ℕ) (scope : Scope)
      (gap now start : ℕ) (events : List (ℕ × Event)) (later : List (Scope × ℕ)) (start' : ℕ)
      → Mem (scope, gap) (first ∷ shared first.0 limit)
      → (turn kept host (first ∷ shared first.0 limit) now).1 ≡ ok start
      → any (λ q. equal q.0 scope) later ≡ true
      → (turn
          (run http_date (turn kept host (first ∷ shared first.0 limit) now).0 now events)
          host
          later
          (end_of http_date now events)).1
        ≡ ok start'
      → start + gap ≤ start'
  shared-spaced kept host (one, space) limit scope gap now start events later start' m given named
        given' =
      Or.elim le_prop (mem-cons.0 m)
        (λ same.
          let is : gap ≡ space = ap (λ q. q.1) same in
          let at : scope ≡ one = ap (λ q. q.0) same in
          rw is (
            turn-spaced http_date kept host [] (shared one limit) one space now start events later
              start' (shared_apart one limit) given (rw at at named) given'))
        (λ r.
          later-spaced kept host (one, space) limit scope gap now start events later start' r given
            named given')

  -- Where a turn is given to a request at start, a later turn given to any plugin whose request
  -- waits in one of the same queues is at least that queue's gap after start, whatever turns are
  -- taken and answers come between.
  pub request-spaced :
      (kept : Limits) (host : Text) (grants other : Grants) (scope : Scope) (gap now start : ℕ)
      (events : List (ℕ × Event)) (start' : ℕ)
      → Mem (scope, gap) (queues grants host)
      → (turn kept host (queues grants host) now).1 ≡ ok start
      → any (λ q. equal q.0 scope) (queues other host) ≡ true
      → (turn
          (run http_date (turn kept host (queues grants host) now).0 now events)
          host
          (queues other host)
          (end_of http_date now events)).1
        ≡ ok start'
      → start + gap ≤ start'
  unfolding queues
  request-spaced kept host grants other scope gap now start events start' m given named given' =
      shared-spaced kept host (own grants host) (host_limit grants host) scope gap now start events
        (queues other host) start' m given named given'
