-- ===== src/Base/Members.antt =====
-- The members of a list that a filter keeps.
use mathlib.Core.List.{Mem, mem-cons, not-mem-nil, mem-cons_self, mem-cons_of_mem}
use mathlib.Core.Logic.Or
use mathlib.Core.Bool.{Bool-set}
use mathlib.Core.Option.{some-injective}
use music_streaming.Base.{
  ◌≡◌, refl, ap, ◌∙◌, List, [], ◌∷◌, Bool, true, some, retain, any, all, find, Bool-cases, inl, inr,
}

module _ {ℓ} {A : Type ℓ} (p : A → Bool) where
  pub mem-retain : (xs : List A) (y : A) → Mem y (retain p xs) → p y ≡ true
  mem-retain [] y m = absurd (not-mem-nil m)
  mem-retain (x ∷ xs) y m = elim (Bool-cases (p x)) [
    | inl h ↦
        let m' : Mem y (x ∷ retain p xs) = rw h at m in
        Or.elim (Bool-set _ _) (mem-cons.0 m') (λ e. ap p e ∙ h) (λ r. mem-retain xs y r)
    | inr h ↦ let m' : Mem y (retain p xs) = rw h at m in mem-retain xs y m'
  ]

  pub mem-retain_of : (xs : List A) (y : A) → Mem y xs → p y ≡ true → Mem y (retain p xs)
  mem-retain_of [] y m h = absurd (not-mem-nil m)
  mem-retain_of (x ∷ xs) y m h = elim (Bool-cases (p x)) [
    | inl e ↦ rw e (
        Or.elim (hlevel) (mem-cons.0 m) (λ same. rw same mem-cons_self)
          (λ r. mem-cons_of_mem x (mem-retain_of xs y r h)))
    | inr e ↦ rw e (
        Or.elim (hlevel) (mem-cons.0 m) (λ same. absurd (cc (same, e, h)))
          (λ r. mem-retain_of xs y r h))
  ]

  pub retain-mem : (xs : List A) (y : A) → Mem y (retain p xs) → Mem y xs
  retain-mem [] y m = m
  retain-mem (x ∷ xs) y m = elim (Bool-cases (p x)) [
    | inl e ↦
        let m' : Mem y (x ∷ retain p xs) = rw e at m in
        Or.elim (hlevel) (mem-cons.0 m') (λ same. rw same mem-cons_self)
          (λ r. mem-cons_of_mem x (retain-mem xs y r))
    | inr e ↦ let m' : Mem y (retain p xs) = rw e at m in mem-cons_of_mem x (retain-mem xs y m')
  ]

  pub any_found : (xs : List A) → any p xs ≡ true → (x : A) × Mem x xs × (p x ≡ true)
  any_found [] h = absurd (cc h)
  any_found (x ∷ xs) h = elim (Bool-cases (p x)) [
    | inl e ↦ (x, mem-cons_self, e)
    | inr e ↦ let (y, m, k) = any_found xs (rw e at h) in (y, mem-cons_of_mem x m, k)
  ]

  pub any_of : (xs : List A) (x : A) → Mem x xs → p x ≡ true → any p xs ≡ true
  any_of [] x m h = absurd (not-mem-nil m)
  any_of (y ∷ xs) x m h = elim (Bool-cases (p y)) [
    | inl e ↦ rw e refl
    | inr e ↦ rw e (
        Or.elim (Bool-set _ _) (mem-cons.0 m) (λ same. absurd (cc (same, e, h)))
          (λ r. any_of xs x r h))
  ]

  pub all_at : (xs : List A) (x : A) → all p xs ≡ true → Mem x xs → p x ≡ true
  all_at [] x h m = absurd (not-mem-nil m)
  all_at (y ∷ xs) x h m = elim (Bool-cases (p y)) [
    | inl e ↦
        Or.elim (Bool-set _ _) (mem-cons.0 m) (λ same. rw same e) (λ r. all_at xs x (rw e at h) r)
    | inr e ↦ absurd (cc (rw e at h))
  ]

  pub find_found : (xs : List A) (x : A) → find p xs ≡ some x → Mem x xs × (p x ≡ true)
  find_found [] x h = absurd (cc h)
  find_found (y ∷ xs) x h = elim (Bool-cases (p y)) [
    | inl e ↦ let same = some-injective _ _ (rw e at h) in (rw same mem-cons_self, rw (← same) e)
    | inr e ↦ let (m, k) = find_found xs x (rw e at h) in (mem-cons_of_mem y m, k)
  ]

  pub all_of : (xs : List A) → ((x : A) → Mem x xs → p x ≡ true) → all p xs ≡ true
  all_of [] h = refl
  all_of (x ∷ xs) h =
      let first = h x mem-cons_self in rw first (all_of xs (λ y m. h y (mem-cons_of_mem x m)))
