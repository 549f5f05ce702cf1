-- ===== src/Scanner/Requests/Awaited.antt =====
-- The files that the queued scans of queue.rs visit, and what a request adds to them.
use mathlib.Core.List.{Mem, mem-cons_self, mem-append_left, mem-append_right}
use mathlib.Core.Option.{some-injective}
use music_streaming.Base.{
  ℤ, ◌≡◌, refl, ap, ◌∙◌, List, [], ◌∷◌, Bool, true, false, not, ◌&&◌, Option, none, some,
  Bool-cases, Option-cases, inl, inr, any, find,
}
use music_streaming.Base.Members.{mem-retain_of, any_found, any_of, all_at, find_found}
use music_streaming.Scanner.Paths.{PathBuf}
use music_streaming.Scanner.Scope as Scopes
use music_streaming.Scanner.Scope.{Scope, contains_file}
use music_streaming.Scanner.Scope.Covers.{covers_iff}
use music_streaming.Scanner.Coalesce.{coalesce_scopes}
use music_streaming.Scanner.Coalesce.Kept.{coalesce_scopes-covers}
use music_streaming.Scanner.Scan.{Trigger, Scan, covers, new_scan}
use music_streaming.Scanner.Requests.{
  Queue, Store, Creates, covering, joins, not_started, enqueue, created, request,
}

-- A scope of the list visits the file.
abbrev pub visits : List Scope → PathBuf → Bool
visits scopes path = any (λ scope. contains_file scope path) scopes

-- A queued scan visits the file.
abbrev pub is_queued : Queue → PathBuf → Bool
is_queued q path = any (λ scan. visits scan.scopes path) q.queued

-- A scan that covers the scopes visits their files.
covers-visits :
    (scan : Scan) (scopes : List Scope) (path : PathBuf)
    → covers scan scopes ≡ true
    → visits scopes path ≡ true
    → visits scan.scopes path ≡ true
unfolding covers
covers-visits scan scopes path h k =
    let (o, m, found) = any_found (λ scope. contains_file scope path) scopes k in
    let (s, m', by) = any_found (λ s. Scopes.covers s o) scan.scopes (all_at _ scopes o h m) in
    any_of (λ scope. contains_file scope path) scan.scopes s m'
      (((covers_iff s o).0 by).1 path found)

pub coalesce-visits :
    (scopes : List Scope) (path : PathBuf)
    → visits scopes path ≡ true
    → visits (coalesce_scopes scopes) path ≡ true
coalesce-visits scopes path k =
    let (o, m, found) = any_found (λ scope. contains_file scope path) scopes k in
    let (s, m', by) =
      any_found (λ s. Scopes.covers s o) (coalesce_scopes scopes)
        (coalesce_scopes-covers scopes o m) in
    any_of (λ scope. contains_file scope path) (coalesce_scopes scopes) s m'
      (((covers_iff s o).0 by).1 path found)

mem-enqueue : (q : Queue) (scan : Scan) → Mem scan (enqueue q scan).queued
unfolding enqueue
mem-enqueue q scan = mem-append_right _ mem-cons_self

-- Queueing a scan in place of those that it covers loses no file.
enqueue-is_queued :
    (q : Queue) (scan : Scan) (path : PathBuf)
    → is_queued q path ≡ true
    → is_queued (enqueue q scan) path ≡ true
unfolding enqueue
enqueue-is_queued q scan path h =
    let (old, m, found) = any_found (λ scan. visits scan.scopes path) q.queued h in
    elim (Bool-cases (covers scan old.scopes)) [
      | inl e ↦
          any_of (λ scan. visits scan.scopes path) (enqueue q scan).queued scan (mem-enqueue q scan)
            (covers-visits scan old.scopes path e found)
      | inr e ↦
          let kept =
            mem-retain_of (λ other. not (covers scan other.scopes)) q.queued old m (rw e refl) in
          any_of (λ scan. visits scan.scopes path) (enqueue q scan).queued old
            (mem-append_left (scan ∷ []) kept) found
    ]

-- The scan that a request ends with: queued, not started, of that id, and visiting the file.
pub Pending : Queue → ℤ → PathBuf → Type 0
Pending q id path =
    (scan : Scan) × Mem scan q.queued
    × (scan.id ≡ id)
    × (not_started scan.cursor ≡ true)
    × (visits scan.scopes path ≡ true)

pub Pending-is_queued :
    (q : Queue) (id : ℤ) (path : PathBuf) → Pending q id path → is_queued q path ≡ true
unfolding Pending
Pending-is_queued q id path (scan, m, same, fresh, found) =
    any_of (λ scan. visits scan.scopes path) q.queued scan m found

and_parts : (x y : Bool) → (x && y) ≡ true → (x ≡ true) × (y ≡ true)
and_parts true y h = (refl, h)
and_parts false y h = absurd (cc h)

covering-Pending :
    (q : Queue) (scopes : List Scope) (id : ℤ) (path : PathBuf)
    → covering q scopes ≡ some id
    → visits scopes path ≡ true
    → Pending q id path
unfolding covering Pending
covering-Pending q scopes id path e k = elim (Option-cases (find (joins scopes) q.queued)) [
  | inl none_found ↦ absurd (cc (rw none_found at e))
  | inr (scan, found) ↦
      let (m, joined) = find_found (joins scopes) q.queued scan found in
      let (fresh, by) = and_parts (not_started scan.cursor) (covers scan scopes) joined in
      (scan, m, some-injective _ _ (rw found at e), fresh, covers-visits scan scopes path by k)
]

module _ {S : Type 0} (store : Store S) (library : ℤ) where
  created-Pending :
      (q : Queue) (made : S × Option Scan) (trigger : Trigger) (scopes : List Scope) (id : ℤ)
      (path : PathBuf)
      → ((scan : Scan) → made.1 ≡ some scan → scan ≡ new_scan scan.id library trigger scopes)
      → (created store library q made).1 ≡ some id
      → visits scopes path ≡ true
      → Pending (created store library q made).0.0 id path
  unfolding created Pending
  created-Pending q (s, none) trigger scopes id path new e k = absurd (cc e)
  created-Pending q (s, some scan) trigger scopes id path new e k =
      let same = new scan refl in
      (
        scan,
        mem-enqueue q scan,
        some-injective _ _ e,
        ap (λ x. not_started x.cursor) same,
        ap (λ x. visits x.scopes path) same ∙ k,
      )

  created-is_queued :
      (q : Queue) (made : S × Option Scan) (path : PathBuf)
      → is_queued q path ≡ true
      → is_queued (created store library q made).0.0 path ≡ true
  unfolding created
  created-is_queued q (s, none) path h = h
  created-is_queued q (s, some scan) path h = enqueue-is_queued q scan path h

  pub request_joined :
      (q : Queue) (s : S) (trigger : Trigger) (scopes : List Scope) (id : ℤ)
      → covering q (coalesce_scopes scopes) ≡ some id
      → request store library q s trigger scopes ≡ ((q, s), some id)
  unfolding request
  request_joined q s trigger scopes id e = rw (e, request) refl

  pub request_new :
      (q : Queue) (s : S) (trigger : Trigger) (scopes : List Scope)
      → covering q (coalesce_scopes scopes) ≡ none
      → request store library q s trigger scopes
        ≡ created store library q (store.create_scan s library trigger (coalesce_scopes scopes))
  unfolding request
  request_new q s trigger scopes e = rw (e, request) refl

  pub request-is_queued :
      (q : Queue) (s : S) (trigger : Trigger) (scopes : List Scope) (path : PathBuf)
      → is_queued q path ≡ true
      → is_queued (request store library q s trigger scopes).0.0 path ≡ true
  request-is_queued q s trigger scopes path h =
      elim (Option-cases (covering q (coalesce_scopes scopes))) [
        | inl new ↦ rw (request_new q s trigger scopes new) (
            created-is_queued q (store.create_scan s library trigger (coalesce_scopes scopes)) path
              h)
        | inr (old, joined) ↦ rw (request_joined q s trigger scopes old joined) h
      ]

  -- With a store that creates scans as documented: where a request returns an id, the queue then
  -- holds a scan of that id that has not started and visits every file of the scopes requested.
  pub request-Pending :
      Creates store
      → (q : Queue) (s : S) (trigger : Trigger) (scopes : List Scope) (id : ℤ) (path : PathBuf)
      → (request store library q s trigger scopes).1 ≡ some id
      → visits scopes path ≡ true
      → Pending (request store library q s trigger scopes).0.0 id path
  request-Pending made q s trigger scopes id path e k =
      elim (Option-cases (covering q (coalesce_scopes scopes))) [
        | inl new ↦ rw (request_new q s trigger scopes new) (
            created-Pending q (store.create_scan s library trigger (coalesce_scopes scopes)) trigger
              (coalesce_scopes scopes) id path (made s library trigger (coalesce_scopes scopes))
              (rw (request_new q s trigger scopes new) at e) (coalesce-visits scopes path k))
        | inr (old, joined) ↦
            let same =
              some-injective old id (rw (request_joined q s trigger scopes old joined) at e) in
            rw (request_joined q s trigger scopes old joined) (
              covering-Pending q (coalesce_scopes scopes) id path (joined ∙ ap some same)
                (coalesce-visits scopes path k))
      ]
