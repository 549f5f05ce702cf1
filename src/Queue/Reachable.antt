-- ===== src/Queue/Reachable.antt =====
-- crates/core/src/queue: the states that the operations of a queue lead to.
use music_streaming.Base.{
  ℕ, String, List, arith, ◌==◌, length, any, Bool-cases, Option-cases, inl, inr,
}
use music_streaming.Queue.State.{
  Source, QueueState, source, default_state, start, attach_list, attach_hash, misfits,
}
use music_streaming.Queue.Edit.{Edit, apply}
use music_streaming.Queue.WellFormed.{IsWellFormed}
use music_streaming.Queue.WellFormed.Apply.{apply-IsWellFormed, start-IsWellFormed, empty-IsValid}

-- From the default state by starts, edits and attached lists, refused ones included.
pub data Reachable {F : Type 0} : QueueState F → Type 0 where
  fresh : Reachable default_state
  started : {s : QueueState F} → Reachable s → (x : Source F) (at : ℕ) → Reachable (start s x at).0
  edited : {s : QueueState F} → Reachable s → (edit : Edit F) → Reachable (apply s edit).0
  listed :
      {s : QueueState F}
      → Reachable s
      → (key hash : String) (tracks : List ℕ) → Reachable (attach_list s key hash tracks).0
  hashed :
      {s : QueueState F}
      → Reachable s
      → (hash : String) (tracks : List ℕ) → Reachable (attach_hash s hash tracks).0

module _ {F : Type 0} where
  attach_list-IsWellFormed :
      (s : QueueState F) (key hash : String) (tracks : List ℕ)
      → IsWellFormed s
      → IsWellFormed (attach_list s key hash tracks).0
  unfolding attach_list
  attach_list-IsWellFormed s key hash tracks w = elim (Option-cases (source s key)) [
    | inl e ↦ rw (e, attach_list) w
    | inr (found, e) ↦
        rw (e, attach_list)
          (elim (Bool-cases (length tracks == found.length)) [
            | inl l ↦ rw l (record {
              manual = w.manual;
              order = w.order;
              base = w.base;
              copies = w.copies;
              history = w.history;
            })
            | inr l ↦ rw l w
          ])
  ]

  attach_hash-IsWellFormed :
      (s : QueueState F) (hash : String) (tracks : List ℕ)
      → IsWellFormed s
      → IsWellFormed (attach_hash s hash tracks).0
  unfolding attach_hash
  attach_hash-IsWellFormed s hash tracks w =
      elim (Bool-cases (any (misfits hash tracks) s.sources)) [
        | inl e ↦ rw e w
        | inr e ↦ rw e (record {
          manual = w.manual;
          order = w.order;
          base = w.base;
          copies = w.copies;
          history = w.history;
        })
      ]

  -- Every state that starts, edits and attached lists lead to from the default state, refused ones
  -- included, is well-formed: its Manual Queue, context, shuffle base and copies are valid span
  -- lists, and History has at most 1,000 runs.
  pub Reachable-IsWellFormed : {s : QueueState F} → Reachable s → IsWellFormed s
  Reachable-IsWellFormed fresh = record {
    manual = empty-IsValid;
    order = empty-IsValid;
    base = tt;
    copies = tt;
    history = omega arith;
  }
  Reachable-IsWellFormed (started r x at) = start-IsWellFormed _ x at (Reachable-IsWellFormed r)
  Reachable-IsWellFormed (edited r edit) = apply-IsWellFormed _ edit (Reachable-IsWellFormed r)
  Reachable-IsWellFormed (listed r key hash tracks) =
      attach_list-IsWellFormed _ key hash tracks (Reachable-IsWellFormed r)
  Reachable-IsWellFormed (hashed r hash tracks) =
      attach_hash-IsWellFormed _ hash tracks (Reachable-IsWellFormed r)
