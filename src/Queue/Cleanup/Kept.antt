-- ===== src/Queue/Cleanup/Kept.antt =====
-- crates/core/src/queue/cleanup.rs: the sources and copies that a clean-up keeps, by what names them.
use text.Mathlib.Text.{◌==◌ as str_eq}
use text.Mathlib.TextEquality.{eq_iff}
use mathlib.Core.List.{Mem}
use music_streaming.Base.{
  ◌≡◌, refl, ap, sym, ◌∙◌, ◌⊎◌, ◌||◌, Bool, true, false, any, arith, String, Option, some, none,
  List, [], ◌∷◌, ◌++◌, find, retain, if◌then◌else◌, Bool-cases, inl, inr,
}
use music_streaming.Base.Members.{any_found, any_of, mem-retain, mem-retain_of, retain-mem}
use music_streaming.Queue.Spans.{View, Span}
use music_streaming.Queue.State.{
  ItemId, Shuffle, Run, Source, QueueCopy, QueueState, source, copy_of,
}
use music_streaming.Queue.Cleanup.{
  contains_key, view_keys, keys_of, current_keys, base_keys, run_keys, copy_keys, used_keys,
  clean_up,
}

find-retain :
    {A : Type 0} (key_of : A → String) (used : List String) (key : String) (xs : List A)
    → find (λ x. str_eq (key_of x) key) (retain (λ x. contains_key used (key_of x)) xs)
      ≡ (if contains_key used key then find (λ x. str_eq (key_of x) key) xs else none)
find-retain key_of used key [] = elim (Bool-cases (contains_key used key)) [
  | inl e ↦ rw e refl
  | inr e ↦ rw e refl
]
find-retain key_of used key (x ∷ xs) = elim (Bool-cases (str_eq (key_of x) key)) [
  | inl e ↦
      let same : contains_key used (key_of x) ≡ contains_key used key =
        ap (contains_key used) ((eq_iff (key_of x) key).0 e) in
      elim (Bool-cases (contains_key used key)) [
        | inl u ↦ rw (same ∙ u, u) (rw e refl)
        | inr u ↦ rw (same ∙ u) (find-retain key_of used key xs ∙ rw u refl)
      ]
  | inr e ↦ elim (Bool-cases (contains_key used (key_of x))) [
    | inl u ↦ rw u (rw e (find-retain key_of used key xs))
    | inr u ↦ rw u (rw e (find-retain key_of used key xs))
  ]
]

contains_key-append :
    (key : String) (xs ys : List String)
    → contains_key (xs ++ ys) key ≡ (contains_key xs key || contains_key ys key)
contains_key-append key [] ys = refl
contains_key-append key (x ∷ xs) ys = ground (arith, contains_key-append key xs ys)

abbrev reads : String → View → Bool
reads key (View.key k) = str_eq k key
reads key View.shuffle = false

reads-view : (key : String) (view : View) → reads key view ≡ true → view ≡ View.key key
reads-view key (View.key k) e = ap View.key ((eq_iff k key).0 e)
reads-view key View.shuffle e = absurd (cc e)

view-reads : (key : String) (view : View) → view ≡ View.key key → reads key view ≡ true
view-reads key view e = rw e ((eq_iff key key).1 refl)

contains_key-view :
    (key : String) (view : View) → contains_key (view_keys view) key ≡ reads key view
contains_key-view key (View.key k) = ground arith
contains_key-view key View.shuffle = refl

contains_key-keys_of :
    (key : String) (spans : List Span)
    → contains_key (keys_of spans) key ≡ any (λ (span : Span). reads key span.view) spans
unfolding keys_of
contains_key-keys_of key [] = refl
contains_key-keys_of key (span ∷ spans) =
    contains_key-append key (view_keys span.view) (keys_of spans)
    ∙ ground (arith, contains_key-view key span.view, contains_key-keys_of key spans)

contains_key-run_keys :
    (key : String) (history : List Run)
    → contains_key (run_keys history) key ≡ any (λ (run : Run). reads key run.span.view) history
unfolding run_keys
contains_key-run_keys key [] = refl
contains_key-run_keys key (run ∷ history) =
    contains_key-append key (view_keys run.span.view) (run_keys history)
    ∙ ground (arith, contains_key-view key run.span.view, contains_key-run_keys key history)

contains_key-copy_keys :
    (key : String) (copies : List QueueCopy)
    → contains_key (copy_keys copies) key
      ≡ any (λ (copy : QueueCopy). contains_key (keys_of copy.of.spans) key) copies
unfolding copy_keys
contains_key-copy_keys key [] = refl
contains_key-copy_keys key (copy ∷ copies) =
    contains_key-append key (keys_of copy.of.spans) (copy_keys copies)
    ∙ ground (arith, contains_key-copy_keys key copies)

-- A span of the list reads the key.
spans-read :
    (key : String) (spans : List Span)
    → contains_key (keys_of spans) key ≡ true
    → (span : Span) × Mem span spans × (span.view ≡ View.key key)
spans-read key spans e =
    let (span, m, r) =
      any_found (λ (span : Span). reads key span.view) spans
        (sym (contains_key-keys_of key spans) ∙ e) in
    (span, m, reads-view key span.view r)

read-spans :
    (key : String) (spans : List Span) (span : Span)
    → Mem span spans
    → span.view ≡ View.key key
    → contains_key (keys_of spans) key ≡ true
read-spans key spans span m e =
    contains_key-keys_of key spans
    ∙ any_of (λ (span : Span). reads key span.view) spans span m (view-reads key span.view e)

or-cases : (a b : Bool) → (a || b) ≡ true → (a ≡ true) ⊎ (b ≡ true)
or-cases true b e = inl refl
or-cases false b e = inr e

contains_key-cases :
    (key : String) (xs ys : List String)
    → contains_key (xs ++ ys) key ≡ true
    → (contains_key xs key ≡ true) ⊎ (contains_key ys key ≡ true)
contains_key-cases key xs ys e =
    or-cases (contains_key xs key) (contains_key ys key) (sym (contains_key-append key xs ys) ∙ e)

contains_key-left :
    (key : String) (xs ys : List String)
    → contains_key xs key ≡ true
    → contains_key (xs ++ ys) key ≡ true
contains_key-left key xs ys e = ground (arith, contains_key-append key xs ys)

contains_key-right :
    (key : String) (xs ys : List String)
    → contains_key ys key ≡ true
    → contains_key (xs ++ ys) key ≡ true
contains_key-right key xs ys e = ground (arith, contains_key-append key xs ys)

module _ {F : Type 0} where
  -- What is in use names the key.
  pub data IsNamed (s : QueueState F) (key : String) : Type 0 where
    playing : (item : ItemId) → s.current ≡ some item → item.key ≡ key → IsNamed s key
    in_manual : (span : Span) → Mem span s.manual.spans → span.view ≡ View.key key → IsNamed s key
    in_context : (span : Span) → Mem span s.order.spans → span.view ≡ View.key key → IsNamed s key
    in_base :
        (shuffle : Shuffle) (span : Span)
        → s.shuffle ≡ some shuffle
        → Mem span shuffle.base.spans
        → span.view ≡ View.key key
        → IsNamed s key
    in_history : (run : Run) → Mem run s.history → run.span.view ≡ View.key key → IsNamed s key

  -- What is in use names the key, or a copy that it names reads it.
  pub data IsUsed (s : QueueState F) (key : String) : Type 0 where
    named : IsNamed s key → IsUsed s key
    in_copy :
        (copy : QueueCopy) (span : Span)
        → Mem copy s.copies
        → IsNamed s copy.key
        → Mem span copy.of.spans
        → span.view ≡ View.key key
        → IsUsed s key

  used-IsNamed :
      (s : QueueState F) (key : String) → contains_key (used_keys s) key ≡ true → IsNamed s key
  unfolding used_keys
  used-IsNamed s key e = elim (contains_key-cases key (current_keys s.current) _ e) [
    | inl now ↦ from_current s.current refl now
    | inr e ↦ elim (contains_key-cases key (keys_of s.manual.spans) _ e) [
      | inl read ↦ let (span, m, v) = spans-read key s.manual.spans read in in_manual span m v
      | inr e ↦ elim (contains_key-cases key (keys_of s.order.spans) _ e) [
        | inl read ↦ let (span, m, v) = spans-read key s.order.spans read in in_context span m v
        | inr e ↦ elim (contains_key-cases key (base_keys s.shuffle) _ e) [
          | inl read ↦ from_base s.shuffle refl read
          | inr read ↦
              let (run, m, v) =
                any_found (λ (run : Run). reads key run.span.view) s.history
                  (sym (contains_key-run_keys key s.history) ∙ read) in
              in_history run m (reads-view key run.span.view v)
        ]
      ]
    ]
  ]
    where
      from_current :
          (o : Option ItemId)
          → s.current ≡ o
          → contains_key (current_keys o) key ≡ true
          → IsNamed s key
      from_current none c h = absurd (cc h)
      from_current (some item) c h = playing item c ((eq_iff item.key key).0 (ground arith))

      from_base :
          (o : Option Shuffle)
          → s.shuffle ≡ o
          → contains_key (base_keys o) key ≡ true
          → IsNamed s key
      from_base none c h = absurd (cc h)
      from_base (some shuffle) c h =
          let (span, m, v) = spans-read key shuffle.base.spans h in in_base shuffle span c m v

  IsNamed-used :
      (s : QueueState F) (key : String) → IsNamed s key → contains_key (used_keys s) key ≡ true
  unfolding used_keys
  IsNamed-used s key (playing item c k) =
      contains_key-left key (current_keys s.current) _
        (rw c (ground (arith, (eq_iff item.key key).1 k)))
  IsNamed-used s key (in_manual span m v) =
      contains_key-right key (current_keys s.current) _
        (contains_key-left key (keys_of s.manual.spans) _ (read-spans key s.manual.spans span m v))
  IsNamed-used s key (in_context span m v) = contains_key-right key (current_keys s.current) _ (
      contains_key-right key (keys_of s.manual.spans) _
        (contains_key-left key (keys_of s.order.spans) _ (read-spans key s.order.spans span m v)))
  IsNamed-used s key (in_base shuffle span c m v) =
      contains_key-right key (current_keys s.current) _ (
        contains_key-right key (keys_of s.manual.spans) _ (
          contains_key-right key (keys_of s.order.spans) _ (
            contains_key-left key (base_keys s.shuffle) _
              (rw c (read-spans key shuffle.base.spans span m v)))))
  IsNamed-used s key (in_history run m v) = contains_key-right key (current_keys s.current) _ (
      contains_key-right key (keys_of s.manual.spans) _ (
        contains_key-right key (keys_of s.order.spans) _ (
          contains_key-right key (base_keys s.shuffle) _ (
            contains_key-run_keys key s.history
            ∙ any_of (λ (run : Run). reads key run.span.view) s.history run m
                (view-reads key run.span.view v)))))

  -- The keys of what is in use and of the copies that are kept.
  abbrev all_used : QueueState F → List String
  all_used s = used_keys s ++ copy_keys (clean_up s).copies

  all_used-IsUsed :
      (s : QueueState F) (key : String) → contains_key (all_used s) key ≡ true → IsUsed s key
  unfolding clean_up
  all_used-IsUsed s key e =
      let kept = λ (c : QueueCopy). contains_key (used_keys s) c.key in
      elim (contains_key-cases key (used_keys s) (copy_keys (clean_up s).copies) e) [
        | inl direct ↦ named (used-IsNamed s key direct)
        | inr copied ↦
            let (copy, m, r) =
              any_found (λ (c : QueueCopy). contains_key (keys_of c.of.spans) key)
                (retain kept s.copies)
                (sym (contains_key-copy_keys key (retain kept s.copies)) ∙ copied) in
            let (span, at, v) = spans-read key copy.of.spans r in
            in_copy copy span (retain-mem kept s.copies copy m)
              (used-IsNamed s copy.key (mem-retain kept s.copies copy m)) at v
      ]

  IsUsed-all_used :
      (s : QueueState F) (key : String) → IsUsed s key → contains_key (all_used s) key ≡ true
  unfolding clean_up
  IsUsed-all_used s key (named n) =
      contains_key-left key (used_keys s) (copy_keys (clean_up s).copies) (IsNamed-used s key n)
  IsUsed-all_used s key (in_copy copy span m n at v) =
      let kept = λ (c : QueueCopy). contains_key (used_keys s) c.key in
      contains_key-right key (used_keys s) (copy_keys (clean_up s).copies) (
        contains_key-copy_keys key (retain kept s.copies)
        ∙ any_of (λ (c : QueueCopy). contains_key (keys_of c.of.spans) key) (retain kept s.copies)
            copy (mem-retain_of kept s.copies copy m (IsNamed-used s copy.key n))
            (read-spans key copy.of.spans span at v))

  -- A clean-up keeps what is found under a key as a copy exactly when the item playing, a span of
  -- the Manual Queue, of the context or of the shuffle base, or a run of History names the key;
  -- and what is found as a source exactly when one of these names its key or a span of a copy
  -- whose key one of these names does. Under any other key it leaves nothing.
  pub clean_up-source :
      (s : QueueState F) (key : String)
      → ((IsNamed s key × (copy_of (clean_up s) key ≡ copy_of s key))
          ⊎ ((¬ IsNamed s key) × (copy_of (clean_up s) key ≡ none)))
        × ((IsUsed s key × (source (clean_up s) key ≡ source s key))
            ⊎ ((¬ IsUsed s key) × (source (clean_up s) key ≡ none)))
  unfolding clean_up source copy_of
  clean_up-source s key = (copies, sources)
    where
      copies :
          (IsNamed s key × (copy_of (clean_up s) key ≡ copy_of s key))
          ⊎ ((¬ IsNamed s key) × (copy_of (clean_up s) key ≡ none))
      copies =
          let found = find-retain (λ (c : QueueCopy). c.key) (used_keys s) key s.copies in
          elim (Bool-cases (contains_key (used_keys s) key)) [
            | inl u ↦ inl (used-IsNamed s key u, rw u at found)
            | inr u ↦ inr (λ n. absurd (cc (u, IsNamed-used s key n)), rw u at found)
          ]

      sources :
          (IsUsed s key × (source (clean_up s) key ≡ source s key))
          ⊎ ((¬ IsUsed s key) × (source (clean_up s) key ≡ none))
      sources =
          let found = find-retain (λ (x : Source F). x.key) (all_used s) key s.sources in
          elim (Bool-cases (contains_key (all_used s) key)) [
            | inl u ↦ inl (all_used-IsUsed s key u, rw u at found)
            | inr u ↦ inr (λ n. absurd (cc (u, IsUsed-all_used s key n)), rw u at found)
          ]
