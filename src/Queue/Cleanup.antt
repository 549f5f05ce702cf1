-- ===== src/Queue/Cleanup.antt =====
-- crates/core/src/queue/cleanup.rs: clean-up of the sources and copies that nothing refers to. A hash
-- set of keys is the list of what was put in.
pub mod Kept
use text.Mathlib.Text.{◌==◌ as str_eq}
use music_streaming.Base.{String, Bool, Option, none, some, List, [], ◌∷◌, ◌++◌, any, retain}
use music_streaming.Queue.Spans.{View, Span}
use music_streaming.Queue.State.{ItemId, Source, QueueCopy, Run, Shuffle, QueueState}

abbrev pub contains_key : List String → String → Bool
contains_key used key = any (λ k. str_eq k key) used

abbrev pub view_keys : View → List String
view_keys (View.key k) = k ∷ []
view_keys View.shuffle = []

-- What `add_keys` adds.
unfoldable pub keys_of : List Span → List String
keys_of [] = []
keys_of (span ∷ spans) = view_keys span.view ++ keys_of spans

unfoldable pub run_keys : List Run → List String
run_keys [] = []
run_keys (run ∷ history) = view_keys run.span.view ++ run_keys history

unfoldable pub copy_keys : List QueueCopy → List String
copy_keys [] = []
copy_keys (copy ∷ copies) = keys_of copy.of.spans ++ copy_keys copies

abbrev pub current_keys : Option ItemId → List String
current_keys none = []
current_keys (some item) = item.key ∷ []

abbrev pub base_keys : Option Shuffle → List String
base_keys none = []
base_keys (some shuffle) = keys_of shuffle.base.spans

module _ {F : Type 0} where
  -- The keys that `current`, the Manual Queue, the context, the base and History name.
  unfoldable pub used_keys : QueueState F → List String
  used_keys s =
      current_keys s.current
      ++ (keys_of s.manual.spans
          ++ (keys_of s.order.spans ++ (base_keys s.shuffle ++ run_keys s.history)))

  unfoldable pub clean_up : QueueState F → QueueState F
  clean_up s =
      let used = used_keys s in
      let copies = retain (λ (c : QueueCopy). contains_key used c.key) s.copies in
      let all_used = used ++ copy_keys copies in
      record s {
        copies = copies;
        sources = retain (λ (x : Source F). contains_key all_used x.key) s.sources;
      }
