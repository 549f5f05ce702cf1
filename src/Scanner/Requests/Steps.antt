-- ===== src/Scanner/Requests/Steps.antt =====
-- The queue of queue.rs as a system: requests from any thread and what the scanner's thread does under
-- each hold of the lock, in any order. The store is in any state at each step.
use mathlib.Core.List.{mem-append_left, mem-append_right}
use mathlib.Core.Option.{some-injective}
use music_streaming.Base.{
  ℕ, ℤ, ◌≡◌, refl, sym, ◌∙◌, List, [], ◌∷◌, ◌++◌, true, Option, none, some, leb, Bool-cases,
  Option-cases, inl, inr,
}
use music_streaming.Base.Members.{any_found, any_of}
use music_streaming.Scanner.Paths.{PathBuf}
use music_streaming.Scanner.Scope.{Scope, contains_file}
use music_streaming.Scanner.Coalesce.{coalesce_scopes}
use music_streaming.Scanner.Scan.{Trigger, Scan}
use music_streaming.Scanner.Requests.{
  Queue, Retry, Store, Creates, Turn, took, began, waits, request, run_turn, begin_first, due_retry,
  finish, retry_later, joined_retry, created, covering, enqueue,
}
use music_streaming.Scanner.Requests.Awaited.{
  visits, is_queued, Pending-is_queued, request-Pending, request-is_queued, coalesce-visits,
  request_joined, request_new,
}

-- The queue, and the retry that the scanner's thread has taken off it and not yet requested.
abbrev pub System : Type 0
System = Queue × Option Retry

-- A queued scan, the running one, the retry or the one in hand visits the file.
pub data IsAwaited (x : System) (path : PathBuf) : Type 0 where
  in_queue : is_queued x.0 path ≡ true → IsAwaited x path
  in_scan :
      (scan : Scan) → x.0.running ≡ some scan → visits scan.scopes path ≡ true → IsAwaited x path
  in_retry :
      (retry : Retry) → x.0.retry ≡ some retry → visits retry.scopes path ≡ true → IsAwaited x path
  in_hand : (retry : Retry) → x.1 ≡ some retry → visits retry.scopes path ≡ true → IsAwaited x path

-- The system after a turn.
unfoldable pub after : Queue → Turn → System
after q (took retry q') = (q', some retry)
after q (began scan q') = (q', none)
after q waits = (q, none)

module _ {S : Type 0} where
  module _ (store : Store S) (library : ℤ) where
    -- The steps in which the file is not scanned: a request, a turn of the thread, the request of the
    -- retry in hand, which the store records, and the end of a scan that did not visit the file or
    -- gives its scope back.
    pub data Step (path : PathBuf) : System → System → Type 0 where
      requested :
          (q : Queue) (hand : Option Retry) (s : S) (trigger : Trigger) (scopes : List Scope)
          → Step path (q, hand) ((request store library q s trigger scopes).0.0, hand)
      turned :
          (q : Queue) (now : ℕ) → q.running ≡ none → Step path (q, none) (after q (run_turn q now))
      retried :
          (q : Queue) (retry : Retry) (s : S) (id : ℤ)
          → (request store library q s retry.trigger retry.scopes).1 ≡ some id
          → Step path
              (q, some retry)
              ((request store library q s retry.trigger retry.scopes).0.0, none)
      finished :
          (q : Queue) (scan : Scan) (unanswered : List Scope) (due : ℕ)
          → q.running ≡ some scan
          → (visits scan.scopes path ≡ true → visits unanswered path ≡ true)
          → Step path (q, none) (finish q scan unanswered due, none)

    pub data Steps (path : PathBuf) : System → System → Type 0 where
      stays : (x : System) → Steps path x x
      follows : {x y z : System} → Steps path x y → Step path y z → Steps path x z

    created-rest :
        (q : Queue) (made : S × Option Scan)
        → ((created store library q made).0.0.running ≡ q.running)
          × ((created store library q made).0.0.retry ≡ q.retry)
    unfolding created enqueue
    created-rest q (s, none) = (refl, refl)
    created-rest q (s, some scan) = (refl, refl)

    -- A request changes neither the running scan nor the retry.
    request-rest :
        (q : Queue) (s : S) (trigger : Trigger) (scopes : List Scope)
        → ((request store library q s trigger scopes).0.0.running ≡ q.running)
          × ((request store library q s trigger scopes).0.0.retry ≡ q.retry)
    request-rest q s trigger scopes = elim (Option-cases (covering q (coalesce_scopes scopes))) [
      | inl new ↦
          rw (request_new store library q s trigger scopes new)
            (created-rest q (store.create_scan s library trigger (coalesce_scopes scopes)))
      | inr (id, joined) ↦
          rw (request_joined store library q s trigger scopes id joined) (refl, refl)
    ]

    request-IsAwaited :
        (q : Queue) (hand : Option Retry) (s : S) (trigger : Trigger) (scopes : List Scope)
        (path : PathBuf)
        → IsAwaited (q, hand) path
        → IsAwaited ((request store library q s trigger scopes).0.0, hand) path
    request-IsAwaited q hand s trigger scopes path (in_queue h) =
        in_queue (request-is_queued store library q s trigger scopes path h)
    request-IsAwaited q hand s trigger scopes path (in_scan scan r h) =
        in_scan scan ((request-rest q s trigger scopes).0 ∙ r) h
    request-IsAwaited q hand s trigger scopes path (in_retry retry r h) =
        in_retry retry ((request-rest q s trigger scopes).1 ∙ r) h
    request-IsAwaited q hand s trigger scopes path (in_hand retry r h) = in_hand retry r h

begin_first-IsAwaited :
    (q : Queue) (scans : List Scan) (path : PathBuf)
    → q.running ≡ none
    → q.queued ≡ scans
    → IsAwaited (q, none) path
    → IsAwaited (after q (begin_first q scans)) path
unfolding begin_first after
begin_first-IsAwaited q [] path r e w = w
begin_first-IsAwaited q (scan ∷ rest) path r e (in_queue h) =
    elim (Bool-cases (visits scan.scopes path)) [
      | inl first ↦ in_scan _ refl first
      | inr later ↦ in_queue (rw (e, later) at h)
    ]
begin_first-IsAwaited q (scan ∷ rest) path r e (in_scan other r' h) = absurd (cc (r, r'))
begin_first-IsAwaited q (scan ∷ rest) path r e (in_retry retry r' h) = in_retry retry r' h
begin_first-IsAwaited q (scan ∷ rest) path r e (in_hand retry r' h) = absurd (cc r')

visits-append_left :
    (left right : List Scope) (path : PathBuf)
    → visits left path ≡ true
    → visits (left ++ right) path ≡ true
visits-append_left left right path h =
    let (scope, m, found) = any_found (λ scope. contains_file scope path) left h in
    any_of (λ scope. contains_file scope path) (left ++ right) scope (mem-append_left right m) found

visits-append_right :
    (left right : List Scope) (path : PathBuf)
    → visits right path ≡ true
    → visits (left ++ right) path ≡ true
visits-append_right left right path h =
    let (scope, m, found) = any_found (λ scope. contains_file scope path) right h in
    any_of (λ scope. contains_file scope path) (left ++ right) scope (mem-append_right left m) found

joined-visits :
    (old : Option Retry) (trigger : Trigger) (scopes : List Scope) (due : ℕ) (path : PathBuf)
    → visits scopes path ≡ true
    → visits (joined_retry old trigger scopes due).scopes path ≡ true
joined-visits none trigger scopes due path h = coalesce-visits scopes path h
joined-visits (some retry) trigger scopes due path h =
    coalesce-visits (retry.scopes ++ scopes) path (visits-append_right retry.scopes scopes path h)

joined-visits_old :
    (old : Option Retry) (retry : Retry) (trigger : Trigger) (scopes : List Scope) (due : ℕ)
    (path : PathBuf)
    → old ≡ some retry
    → visits retry.scopes path ≡ true
    → visits (joined_retry old trigger scopes due).scopes path ≡ true
joined-visits_old none retry trigger scopes due path e h = absurd (cc e)
joined-visits_old (some old) retry trigger scopes due path e h =
    let same = some-injective old retry e in
    coalesce-visits (old.scopes ++ scopes) path
      (visits-append_left old.scopes scopes path (rw same h))

finish-IsAwaited :
    (q : Queue) (scan : Scan) (unanswered : List Scope) (due : ℕ) (path : PathBuf)
    → q.running ≡ some scan
    → (visits scan.scopes path ≡ true → visits unanswered path ≡ true)
    → IsAwaited (q, none) path
    → IsAwaited (finish q scan unanswered due, none) path
unfolding finish retry_later
finish-IsAwaited q scan [] due path r back (in_queue h) = in_queue h
finish-IsAwaited q scan [] due path r back (in_scan other r' h) =
    let same = some-injective other scan (sym r' ∙ r) in absurd (cc (back (rw (← same) h)))
finish-IsAwaited q scan [] due path r back (in_retry retry r' h) = in_retry retry r' h
finish-IsAwaited q scan (scope ∷ scopes) due path r back (in_queue h) = in_queue h
finish-IsAwaited q scan (scope ∷ scopes) due path r back (in_scan other r' h) =
    let same = some-injective other scan (sym r' ∙ r) in
    in_retry _ refl
      (joined-visits q.retry scan.trigger (scope ∷ scopes) due path (back (rw (← same) h)))
finish-IsAwaited q scan (scope ∷ scopes) due path r back (in_retry retry r' h) =
    in_retry _ refl (joined-visits_old q.retry retry scan.trigger (scope ∷ scopes) due path r' h)
finish-IsAwaited q scan [] due path r back (in_hand retry r' h) = absurd (cc r')
finish-IsAwaited q scan (scope ∷ scopes) due path r back (in_hand retry r' h) = absurd (cc r')

due_retry-some :
    (o : Option Retry) (now : ℕ) (retry : Retry) → due_retry o now ≡ some retry → o ≡ some retry
due_retry-some none now retry e = e
due_retry-some (some r) now retry e = elim (Bool-cases (leb r.due now)) [
  | inl k ↦ rw k at e
  | inr k ↦ absurd (cc (rw k at e))
]

took-IsAwaited :
    (q : Queue) (retry : Retry) (path : PathBuf)
    → q.retry ≡ some retry
    → IsAwaited (q, none) path
    → IsAwaited (record q { retry = none }, some retry) path
took-IsAwaited q retry path r (in_queue h) = in_queue h
took-IsAwaited q retry path r (in_scan scan r' h) = in_scan scan r' h
took-IsAwaited q retry path r (in_retry old r' h) =
    let same = some-injective old retry (sym r' ∙ r) in in_hand retry refl (rw (← same) h)
took-IsAwaited q retry path r (in_hand old r' h) = absurd (cc r')

turned-IsAwaited :
    (q : Queue) (now : ℕ) (path : PathBuf)
    → q.running ≡ none
    → IsAwaited (q, none) path
    → IsAwaited (after q (run_turn q now)) path
unfolding run_turn after
turned-IsAwaited q now path r w = elim (Option-cases (due_retry q.retry now)) [
  | inl e ↦ rw (e, run_turn) (begin_first-IsAwaited q q.queued path r refl w)
  | inr (retry, e) ↦
      rw (e, run_turn) (took-IsAwaited q retry path (due_retry-some q.retry now retry e) w)
]

module _ {S : Type 0} (store : Store S) (library : ℤ) (made : Creates store) where
  retried-IsAwaited :
      (q : Queue) (retry : Retry) (s : S) (id : ℤ) (path : PathBuf)
      → (request store library q s retry.trigger retry.scopes).1 ≡ some id
      → IsAwaited (q, some retry) path
      → IsAwaited ((request store library q s retry.trigger retry.scopes).0.0, none) path
  retried-IsAwaited q retry s id path e (in_queue h) =
      request-IsAwaited store library q none s retry.trigger retry.scopes path (in_queue h)
  retried-IsAwaited q retry s id path e (in_scan scan r h) =
      request-IsAwaited store library q none s retry.trigger retry.scopes path (in_scan scan r h)
  retried-IsAwaited q retry s id path e (in_retry old r h) =
      request-IsAwaited store library q none s retry.trigger retry.scopes path (in_retry old r h)
  retried-IsAwaited q retry s id path e (in_hand old r h) =
      let same = some-injective old retry (sym r) in
      in_queue (
        Pending-is_queued _ id path (
          request-Pending store library made q s retry.trigger retry.scopes id path e
            (rw (← same) h)))

  step-IsAwaited :
      (path : PathBuf) (x y : System)
      → Step store library path x y
      → IsAwaited x path
      → IsAwaited y path
  step-IsAwaited path x y (requested q hand s trigger scopes) w =
      request-IsAwaited store library q hand s trigger scopes path w
  step-IsAwaited path x y (turned q now r) w = turned-IsAwaited q now path r w
  step-IsAwaited path x y (retried q retry s id e) w = retried-IsAwaited q retry s id path e w
  step-IsAwaited path x y (finished q scan unanswered due r back) w =
      finish-IsAwaited q scan unanswered due path r back w

  -- With a store that creates scans as documented, in whatever state it is at each step: through
  -- requests, turns of the thread that take a due retry in hand or start a scan, requests of the
  -- retry in hand that the store records, and ends of scans that did not visit a file or give its
  -- scope back for a retry, in any order, a file that a queued scan, the running scan, the retry
  -- or the retry in hand visits stays visited by one of them.
  pub Steps-IsAwaited :
      (path : PathBuf) {x y : System}
      → Steps store library path x y
      → IsAwaited x path
      → IsAwaited y path
  Steps-IsAwaited path (stays x) w = w
  Steps-IsAwaited path {y = z} (follows {x} {y} steps step) w =
      step-IsAwaited path y z step (Steps-IsAwaited path steps w)
