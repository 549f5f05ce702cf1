-- ===== src/Queue/Spans/Located.antt =====
-- spans.rs, `locate`: the span that it finds, with what stands before and behind it.
use music_streaming.Base.{
  ℕ, suc, ◌+◌, ◌-◌, ◌≤◌, ◌<◌, ◌≡◌, refl, ap, ◌∙◌, none, some, List, [], ◌∷◌, ◌++◌, arith, ltb,
  length, Bool-cases, Option-cases, inl, inr,
}
use music_streaming.Queue.Spans.{Span}
use music_streaming.Queue.Spans.Rows.{total}
use music_streaming.Queue.Spans.Locate.{seek}

-- The span at a place in the list, with what stands before and behind it.
pub record Located (index : ℕ) (spans : List Span) (i offset : ℕ) : Type 0 where
  pub before : List Span
  pub span : Span
  pub behind : List Span
  pub parts : spans ≡ before ++ (span ∷ behind)
  pub place : i ≡ length before
  pub within : offset < span.len
  pub ahead : index ≡ total before + offset

Located-cons :
    {index j o i offset : ℕ} (s : Span) {spans : List Span}
    → s.len ≤ index
    → i ≡ suc j
    → offset ≡ o
    → Located (index - s.len) spans j o
    → Located index (s ∷ spans) i offset
Located-cons s h ei eo at = record {
  before = s ∷ at.before;
  span = at.span;
  behind = at.behind;
  parts = ap (λ r. s ∷ r) at.parts;
  place = ei ∙ ap suc at.place;
  within = rw eo at.within;
  ahead = omega (arith, at.ahead);
}

pub seek-Located :
    (index : ℕ) (spans : List Span) {i offset : ℕ}
    → seek index spans ≡ some (i, offset)
    → Located index spans i offset
unfolding seek
seek-Located index [] h = let no_way : ⊥ = ground arith in absurd no_way
seek-Located index (s ∷ spans) {i} {offset} h = elim (Bool-cases (ltb index s.len)) [
  | inl e ↦ record {
    before = [];
    span = s;
    behind = spans;
    parts = refl;
    place = ground arith;
    within = ground arith;
    ahead = ground arith;
  }
  | inr e ↦ elim (Option-cases (seek (index - s.len) spans)) [
    | inl missing ↦ let no_way : ⊥ = ground arith in absurd no_way
    | inr (at, found) ↦
        Located-cons s (ground arith) (ground arith) (ground arith)
          (seek-Located (index - s.len) spans found)
  ]
]

pub seek-none : (index : ℕ) (spans : List Span) → seek index spans ≡ none → total spans ≤ index
unfolding seek
seek-none index [] h = omega arith
seek-none index (s ∷ spans) h = ground (arith, seek-none (index - s.len) spans)
