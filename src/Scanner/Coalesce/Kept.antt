-- ===== src/Scanner/Coalesce/Kept.antt =====
-- What coalesce_scopes of queue.rs keeps of the scopes of a request.
use mathlib.Core.Bool.{Bool-set}
use mathlib.Core.List.{Mem, mem-cons, not-mem-nil, mem-cons_self, mem-cons_of_mem, Pairwise}
use mathlib.Core.List.Perm
use mathlib.Core.Logic.Or
use music_streaming.Base.{
  ◌≡◌, refl, sym, ◌∙◌, List, [], ◌∷◌, ◌++◌, Bool, true, false, not, Option, none, some, Bool-cases,
  inl, inr, get_last?, any, all, if◌then◌else◌, append-nil, append_assoc,
}
use music_streaming.Base.Equality.{list_equality, nat_equality}
use music_streaming.Base.Members.{any_of, all_of}
use music_streaming.Base.Order.{less, list_order, nat_order, bool_order, pair_order}
use music_streaming.Base.SortBy.{sort_by, sort_by-perm, sort_by-Pairwise, IsNotAbove}
use music_streaming.Scanner.Scope.{Scope, scope_key, covers}
use music_streaming.Scanner.Scope.Ordered.{
  covers_self, covers-not_less, covers-between, scope_connex,
}
use music_streaming.Scanner.Coalesce.{last_covers, push_uncovered, coalesce_scopes}

-- What the loop adds after a scope already kept, if any.
keep_after : Option Scope → List Scope → List Scope
keep_after last [] = []
keep_after last (scope ∷ scopes) =
    let dropped = keep_after last scopes in
    let kept = keep_after (some scope) scopes in
    if not (last_covers last scope) then scope ∷ kept else dropped

get_last?-append {ℓ} : {A : Type ℓ} (xs : List A) (x : A) → get_last? (xs ++ (x ∷ [])) ≡ some x
get_last?-append [] x = refl
get_last?-append (y ∷ []) x = refl
get_last?-append (y ∷ (z ∷ r)) x = get_last?-append (z ∷ r) x

push_uncovered-keep_after :
    (out scopes : List Scope) → push_uncovered out scopes ≡ out ++ keep_after (get_last? out) scopes
unfolding push_uncovered keep_after
push_uncovered-keep_after out [] = sym (append-nil out)
push_uncovered-keep_after out (scope ∷ scopes) =
    elim (Bool-cases (last_covers (get_last? out) scope)) [
      | inl e ↦ rw e (push_uncovered-keep_after out scopes)
      | inr e ↦ rw e (
          push_uncovered-keep_after (out ++ (scope ∷ [])) scopes
          ∙ rw get_last?-append (append_assoc out (scope ∷ []) (keep_after (some scope) scopes)))
    ]

coalesce_scopes-keep_after :
    (scopes : List Scope) → coalesce_scopes scopes ≡ keep_after none (sort_by scope_key scopes)
unfolding coalesce_scopes
coalesce_scopes-keep_after scopes = push_uncovered-keep_after [] (sort_by scope_key scopes)

-- Only given scopes are kept.
keep_after-mem :
    (last : Option Scope) (scopes : List Scope) (s : Scope)
    → Mem s (keep_after last scopes)
    → Mem s scopes
unfolding keep_after
keep_after-mem last [] s m = m
keep_after-mem last (scope ∷ scopes) s m = elim (Bool-cases (last_covers last scope)) [
  | inl e ↦ mem-cons_of_mem scope (keep_after-mem last scopes s (rw e at m))
  | inr e ↦
      let m' : Mem s (scope ∷ keep_after (some scope) scopes) = rw e at m in
      Or.elim (hlevel) (mem-cons.0 m') (λ same. rw same mem-cons_self)
        (λ r. mem-cons_of_mem scope (keep_after-mem (some scope) scopes s r))
]

either_true : (b c : Bool) → c ≡ true → (if b then true else c) ≡ true
either_true true c h = refl
either_true false c h = h

-- Every scope is covered by the last one kept before, or by one kept after it.
keep_after-covers :
    (last : Option Scope) (scopes : List Scope) (s : Scope)
    → Mem s scopes
    → (if last_covers last s then true else any (λ kept. covers kept s) (keep_after last scopes))
      ≡ true
unfolding keep_after
keep_after-covers last [] s m = absurd (not-mem-nil m)
keep_after-covers last (scope ∷ scopes) s m = elim (Bool-cases (last_covers last scope)) [
  | inl e ↦
      Or.elim (Bool-set _ _) (mem-cons.0 m) (λ same. rw (same, e) refl)
        (λ r. rw e (keep_after-covers last scopes s r))
  | inr e ↦
      Or.elim (Bool-set _ _) (mem-cons.0 m) (λ same. rw (same, e, covers_self scope) refl)
        (λ r. rw e (either_true (last_covers last s) _ (keep_after-covers (some scope) scopes s r)))
]

-- What is kept after a scope, of an ascending list that it starts, it does not cover.
keep_after-uncovered :
    (l : Scope) (scopes : List Scope) (s : Scope)
    → Pairwise (IsNotAbove scope_key) (l ∷ scopes)
    → Mem s (keep_after (some l) scopes)
    → covers l s ≡ false
unfolding keep_after
keep_after-uncovered l [] s p m = absurd (not-mem-nil m)
keep_after-uncovered l (scope ∷ scopes) s (Pairwise.cons above (Pairwise.cons next p)) m =
    elim (Bool-cases (covers l scope)) [
      | inl e ↦
          keep_after-uncovered l scopes s
            (Pairwise.cons (λ y k. above y (mem-cons_of_mem scope k)) p) (rw e at m)
      | inr e ↦
          let m' : Mem s (scope ∷ keep_after (some scope) scopes) = rw e at m in
          Or.elim (Bool-set _ _) (mem-cons.0 m') (λ same. rw same e)
            (λ r. elim (Bool-cases (covers l s)) [
              | inl h ↦
                  let after = next s (keep_after-mem (some scope) scopes s r) in
                  absurd (cc (covers-between l s scope h (above scope mem-cons_self) after, e))
              | inr h ↦ h
            ])
    ]

-- No two scopes of the list, at different places, cover one another.
abbrev pub IsApart : Scope → Scope → Type 0
IsApart a b = (covers a b ≡ false) × (covers b a ≡ false)

apart : (a b : Scope) → less (scope_key b) (scope_key a) ≡ false → covers a b ≡ false → IsApart a b
apart a b h k = (
  k,
  elim (Bool-cases (covers b a)) [
    | inl l ↦
        let same = scope_connex a b (covers-not_less b a l) h in
        let self : covers a b ≡ true = rw same (covers_self b) in absurd (cc (self, k))
    | inr l ↦ l
  ],
)

keep_after-Pairwise :
    (last : Option Scope) (scopes : List Scope)
    → Pairwise (IsNotAbove scope_key) scopes
    → Pairwise IsApart (keep_after last scopes)
unfolding keep_after
keep_after-Pairwise last [] p = Pairwise.nil
keep_after-Pairwise last (scope ∷ scopes) (Pairwise.cons above p) =
    elim (Bool-cases (last_covers last scope)) [
      | inl e ↦ rw e (keep_after-Pairwise last scopes p)
      | inr e ↦ rw e (
          Pairwise.cons
            (λ y m.
              apart scope y (above y (keep_after-mem (some scope) scopes y m))
                (keep_after-uncovered scope scopes y (Pairwise.cons above p) m))
            (keep_after-Pairwise (some scope) scopes p))
    ]

coalesce_scopes-IsApart : (scopes : List Scope) → Pairwise IsApart (coalesce_scopes scopes)
coalesce_scopes-IsApart scopes =
    rw (coalesce_scopes-keep_after scopes)
      (keep_after-Pairwise none (sort_by scope_key scopes) (sort_by-Pairwise scope_key scopes))

-- Every scope of the request is one kept or covered by one.
pub coalesce_scopes-covers :
    (scopes : List Scope) (s : Scope)
    → Mem s scopes
    → any (λ kept. covers kept s) (coalesce_scopes scopes) ≡ true
coalesce_scopes-covers scopes s m = rw (coalesce_scopes-keep_after scopes) (
    keep_after-covers none (sort_by scope_key scopes) s
      ((Perm.mem_iff (sort_by-perm scope_key scopes)).1 m))

coalesce_scopes-mem :
    (scopes : List Scope) (s : Scope) → Mem s (coalesce_scopes scopes) → Mem s scopes
coalesce_scopes-mem scopes s m =
    (Perm.mem_iff (sort_by-perm scope_key scopes)).0 (
      keep_after-mem none (sort_by scope_key scopes) s
        (rw (coalesce_scopes-keep_after scopes) at m))

-- Of the scopes that are kept no two cover one another; each scope given is covered by one kept,
-- and each one kept by one given.
pub coalesce_scopes-Pairwise :
    (scopes : List Scope)
    → Pairwise IsApart (coalesce_scopes scopes)
      × (all (λ s. any (λ kept. covers kept s) (coalesce_scopes scopes)) scopes ≡ true)
      × (all (λ kept. any (λ s. covers s kept) scopes) (coalesce_scopes scopes) ≡ true)
coalesce_scopes-Pairwise scopes = (
  coalesce_scopes-IsApart scopes,
  all_of (λ s. any (λ kept. covers kept s) (coalesce_scopes scopes)) scopes
      (coalesce_scopes-covers scopes),
  all_of (λ kept. any (λ s. covers s kept) scopes) (coalesce_scopes scopes)
      (λ kept m.
        any_of (λ s. covers s kept) scopes kept (coalesce_scopes-mem scopes kept m)
          (covers_self kept)),
)
