-- ===== src/Scanner/Requests.antt =====
-- crates/scanner/src/queue.rs, queue/request.rs and queue/worker.rs: one library's queue of scans.
-- The store and the clock of the scans' times are parameters. `request` holds the queue's lock until the
-- queue is as it leaves it, and saves the rows of the scans that it replaces after. `run_turn` is what
-- the scanner's thread does under one hold of the lock: it lets go of it with a due retry in hand, which
-- it requests next. A walk of the file system only returns its scopes.
pub mod Awaited
pub mod Steps
use music_streaming.Base.{
  ℕ, ◌+◌, ℤ, Bool, true, false, not, ◌&&◌, List, [], ◌∷◌, ◌++◌, map, Option, none, some, retain,
  find, leb, if◌then◌else◌, ◌≡◌,
}
use music_streaming.Scanner.Coalesce.{coalesce_scopes}
use music_streaming.Scanner.Scan.{
  Trigger, Scan, Cursor, covers, ScanState, queued, running, cancelled as ended_cancelled, new_scan,
}
use music_streaming.Scanner.Scope.{Scope, root_scope}
use music_streaming.Scanner.Paths.{PathBuf, starts_with}

pub record Retry : Type 0 where
  pub due : ℕ
  pub trigger : Trigger
  pub scopes : List Scope

pub record Queue : Type 0 where
  pub queued : List Scan
  pub running : Option Scan
  pub retry : Option Retry

-- The retry that waits for the scopes, with one already waiting.
abbrev pub joined_retry : Option Retry → Trigger → List Scope → ℕ → Retry
joined_retry none trigger scopes due = record {
  due = due;
  trigger = trigger;
  scopes = coalesce_scopes scopes;
}
joined_retry (some retry) trigger scopes due = record {
  due = retry.due;
  trigger = retry.trigger;
  scopes = coalesce_scopes (retry.scopes ++ scopes);
}

unfoldable pub retry_later : Queue → Trigger → List Scope → ℕ → Queue
retry_later q trigger scopes due = record q {
  retry = some (joined_retry q.retry trigger scopes due);
}

abbrev pub not_started : Option Cursor → Bool
not_started none = true
not_started (some cursor) = false

abbrev pub joins : List Scope → Scan → Bool
joins scopes scan = not_started scan.cursor && covers scan scopes

abbrev pub id_of : Option Scan → Option ℤ
id_of none = none
id_of (some scan) = some scan.id

unfoldable pub covering : Queue → List Scope → Option ℤ
covering q scopes = id_of (find (joins scopes) q.queued)

-- What the queue calls of the store, on the state that the store keeps; a write that fails returns
-- none or false. `now_ms` reads the clock.
pub record Store (S : Type 0) : Type 0 where
  pub create_scan : S → ℤ → Trigger → List Scope → S × Option Scan
  pub update_scan : S → Scan → S × Bool
  pub now_ms : S → ℤ

-- The documented result of `Store::create_scan`.
abbrev pub Creates : {S : Type 0} → Store S → Type 0
Creates {S} store =
    (s : S) (library : ℤ) (trigger : Trigger) (scopes : List Scope) (scan : Scan)
    → (store.create_scan s library trigger scopes).1 ≡ some scan
    → scan ≡ new_scan scan.id library trigger scopes

-- A retry in hand, a scan to run, or nothing to do yet; and the queue.
pub data Turn : Type 0 where
  took : Retry → Queue → Turn
  began : Scan → Queue → Turn
  waits : Turn

-- The queue with the new scan in place of those that it covers.
unfoldable pub enqueue : Queue → Scan → Queue
enqueue q scan = record q {
  queued = retain (λ other. not (covers scan other.scopes)) q.queued ++ (scan ∷ []);
}

unfoldable pub replaced : Queue → Scan → List Scan
replaced q scan = retain (λ other. covers scan other.scopes) q.queued

-- `take_if` on a retry that is due.
abbrev pub due_retry : Option Retry → ℕ → Option Retry
due_retry none now = none
due_retry (some retry) now = if leb retry.due now then some retry else none

-- `pop_front`: the first scan, running from then on.
unfoldable pub begin_first : Queue → List Scan → Turn
begin_first q [] = waits
begin_first q (scan ∷ rest) =
    let started = record scan { state = running } in
    began started (record q { queued = rest; running = some started })

-- One turn of the inner loop of `run` from the lock on, at a reading of the clock.
unfoldable pub run_turn : Queue → ℕ → Turn
run_turn q now = elim (due_retry q.retry now) [
  | some retry ↦ took retry (record q { retry = none })
  | none ↦ begin_first q q.queued
]

module _ {S : Type 0} (store : Store S) (library : ℤ) where
  -- A failed write is logged only.
  unfoldable pub cancelled : S → Scan → S
  cancelled s scan =
      (store.update_scan s
        (record scan { state = ended_cancelled; finished_at = some (store.now_ms s) })).0

  pub cancel_each : S → List Scan → S
  unfolding cancelled
  cancel_each s [] = s
  cancel_each s (scan ∷ scans) = cancel_each (cancelled s scan) scans

  -- From the new scan's row on.
  unfoldable pub created : Queue → S × Option Scan → (Queue × S) × Option ℤ
  created q (s, none) = ((q, s), none)
  created q (s, some scan) = ((enqueue q scan, cancel_each s (replaced q scan)), some scan.id)

  unfoldable pub request : Queue → S → Trigger → List Scope → (Queue × S) × Option ℤ
  request q s trigger scopes =
      let wanted = coalesce_scopes scopes in
      elim (covering q wanted) [
        | some id ↦ ((q, s), some id)
        | none ↦ created q (store.create_scan s library trigger wanted)
      ]

module _ {S : Type 0} (store : Store S) (library : ℤ) where
  unfoldable pub scan_library : List PathBuf → Queue → S → Trigger → (Queue × S) × Option ℤ
  scan_library roots q s trigger = request store library q s trigger (map root_scope roots)

unfoldable pub root_for : List PathBuf → PathBuf → Option PathBuf
root_for roots path = find (starts_with path) roots

-- `Scanner::start`: the queue of the scans that a process before left.
abbrev pub requeue_scan : Scan → Scan
requeue_scan scan = record scan { state = queued }

unfoldable pub start : List Scan → Queue
start interrupted = record { queued = map requeue_scan interrupted; running = none; retry = none }

-- The rest of the loop of `run`, after the scan.
unfoldable pub finish : Queue → Scan → List Scope → ℕ → Queue
finish q scan [] due = record q { running = none }
finish q scan (scope ∷ scopes) due =
    retry_later (record q { running = none }) scan.trigger (scope ∷ scopes) due
