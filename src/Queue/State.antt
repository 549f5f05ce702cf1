-- ===== src/Queue/State.antt =====
-- crates/core/src/queue/state.rs: the queue's state, how a start builds it, and attaching lists.
-- `F` is the JSON map of a recipe's filters (serde_json's), which the core keeps without reading.
use text.Mathlib.Text.{◌==◌ as str_eq}
use music_streaming.Base.{
  ℕ, suc, ◌+◌, ℤ, String, Bool, true, false, ◌||◌, Option, none, some, List, [], ◌∷◌, if◌then◌else◌,
  leb, ◌==◌, length, find, any, is_some,
}
use music_streaming.Queue.Spans.{View, Span, SpanList, new_span, empty, from_spans}

pub data Recipe (F : Type 0) : Type 0 where
  album : String → F → String → String → Recipe F
  artist : String → String → String → F → String → String → Recipe F
  library : F → String → String → Recipe F
  search_query : String → F → Recipe F
  playlist : String → Option ℤ → F → Option String → Option String → Recipe F
  track_list : Recipe F

pub record ItemId : Type 0 where
  pub key : String
  pub pos : ℕ

abbrev pub item_eq : ItemId → ItemId → Bool
item_eq a b = if str_eq a.key b.key then a.pos == b.pos else false

pub record Source (F : Type 0) : Type 0 where
  pub key : String
  pub library_id : String
  pub hash : Option String
  pub length : ℕ
  pub recipe : Option (Recipe F)
  pub tracks : Option (List ℕ)

pub record QueueCopy : Type 0 where
  pub key : String
  pub of : SpanList

pub record Run : Type 0 where
  pub first : ℕ
  pub span : Span

pub record Shuffle : Type 0 where
  pub seed : ℕ
  pub base : SpanList

pub data Repeat : Type 0 where
  off all one : Repeat

pub data QueueError : Type 0 where
  duplicate_key out_of_range unknown_source length_mismatch anchor_gone play_gone : QueueError

pub data Result {ℓ} (A : Type ℓ) : Type ℓ where
  ok : A → Result A
  err : QueueError → Result A

pub record QueueState (F : Type 0) : Type 0 where
  pub sources : List (Source F)
  pub copies : List QueueCopy
  pub manual : SpanList
  pub order : SpanList
  pub cursor : ℕ
  pub current : Option ItemId
  pub history : List Run
  pub next_play : ℕ
  pub shuffle : Option Shuffle
  pub repeat : Repeat
  pub adjusted : Bool

-- `&mut self` with a `Result`: the state as the call leaves it, on either outcome.
abbrev pub Outcome : Type 0 → Type 0
Outcome F = QueueState F × Result (Unit {0})

module _ {F : Type 0} where
  -- `QueueState::default`, the queue of a user who has started nothing.
  abbrev pub default_state : QueueState F
  default_state = record {
    sources = [];
    copies = [];
    manual = empty;
    order = empty;
    cursor = 0;
    current = none;
    history = [];
    next_play = 0;
    shuffle = none;
    repeat = Repeat.off;
    adjusted = false;
  }

  unfoldable pub new_source : String → String → ℕ → Option (Recipe F) → Source F
  new_source key library_id length recipe = record {
    key = key;
    library_id = library_id;
    hash = none;
    length = length;
    recipe = recipe;
    tracks = none;
  }

  -- `QueueState::source`
  unfoldable pub source : QueueState F → String → Option (Source F)
  source s key = find (λ x. str_eq x.key key) s.sources

  unfoldable pub copy_of : QueueState F → String → Option QueueCopy
  copy_of s key = find (λ c. str_eq c.key key) s.copies

  unfoldable pub has_key : QueueState F → String → Bool
  has_key s key = is_some (source s key) || any (λ c. str_eq c.key key) s.copies

  -- The queue over `source` alone, at position `at`.
  unfoldable pub started : QueueState F → Source F → ℕ → QueueState F
  started s source at = record {
    sources = source ∷ [];
    copies = [];
    manual = empty;
    order = from_spans (new_span (View.key source.key) 0 source.length ∷ []);
    cursor = at + 1;
    current = some (record { key = source.key; pos = at });
    history = [];
    next_play = 0;
    shuffle = none;
    repeat = s.repeat;
    adjusted = false;
  }

  unfoldable pub start : QueueState F → Source F → ℕ → Outcome F
  start s source at =
      if has_key s source.key
      then (s, err duplicate_key)
      else if leb source.length at
      then (s, err out_of_range)
      else (started s source at, ok tt)

  -- `iter_mut().find(..)` and an update of what it finds.
  unfoldable pub update_source : String → (Source F → Source F) → List (Source F) → List (Source F)
  update_source key f [] = []
  update_source key f (x ∷ sources) =
      if str_eq x.key key then f x ∷ sources else x ∷ update_source key f sources

  unfoldable pub attach_list : QueueState F → String → String → List ℕ → Outcome F
  attach_list s key hash tracks = elim (source s key) [
    | none ↦ (s, err unknown_source)
    | some found ↦
        if length tracks == found.length
        then (
          record s {
            sources =
                update_source key (λ x. record x { hash = some hash; tracks = some tracks })
                  s.sources;
          },
          ok tt,
        )
        else (s, err length_mismatch)
  ]

  -- Whether the confirmed hash of a source is `hash`.
  abbrev pub has_hash : String → Source F → Bool
  has_hash hash x = elim x.hash [ none ↦ false | some h ↦ str_eq h hash ]

  -- The loop of `attach_hash`, with the count.
  unfoldable pub attach_each : String → List ℕ → List (Source F) → List (Source F) × ℕ
  attach_each hash tracks [] = ([], 0)
  attach_each hash tracks (x ∷ sources) =
      let (rest, count) = attach_each hash tracks sources in
      if has_hash hash x
      then (record x { tracks = some tracks } ∷ rest, suc count)
      else (x ∷ rest, count)

  -- Whether the list is not as long as a source that names it.
  abbrev pub misfits : String → List ℕ → Source F → Bool
  misfits hash tracks x =
      if has_hash hash x then (if length tracks == x.length then false else true) else false

  unfoldable pub attach_hash : QueueState F → String → List ℕ → QueueState F × Result ℕ
  attach_hash s hash tracks =
      if any (misfits hash tracks) s.sources
      then (s, err length_mismatch)
      else let (sources, count) = attach_each hash tracks s.sources in
        (record s { sources = sources }, ok count)

  -- The loop of `list_hashes`, with the hashes seen.
  unfoldable pub hashes_from : List String → List (Source F) → List String
  hashes_from seen [] = []
  hashes_from seen (x ∷ sources) = elim x.hash [
    | none ↦ hashes_from seen sources
    | some hash ↦
        let rest = hashes_from (hash ∷ seen) sources in
        let same = hashes_from seen sources in if any (str_eq hash) seen then same else hash ∷ rest
  ]

  unfoldable pub list_hashes : QueueState F → List String
  list_hashes s = hashes_from [] s.sources
