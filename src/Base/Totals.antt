-- ===== src/Base/Totals.antt =====
-- Maps without a key twice, and the total weight of their entries.
use mathlib.Core.Option.{some-injective}
use music_streaming.Base.{
  ℕ, ◌+◌, ◌≡◌, refl, sym, ap, ◌∙◌, List, [], ◌∷◌, Bool, not, none, some, Bool-cases, inl, inr,
  retain, arith,
}
use music_streaming.Base.Equality.{Equality, equal}
use music_streaming.Base.KeyMap.{get, put, remove, get-remove}

module _ {ℓ κ} {K : Type ℓ} {V : Type κ} ⦃e : Equality K⦄ where
  -- No key twice.
  abbrev pub Distinct : List (K × V) → Type κ
  Distinct [] = Unit
  Distinct ((k, v) ∷ m) = (get k m ≡ none) × Distinct m

  get-retain-none :
      (p : K × V → Bool) (k : K) (m : List (K × V)) → get k m ≡ none → get k (retain p m) ≡ none
  unfolding get
  get-retain-none p k [] h = refl
  get-retain-none p k ((j, w) ∷ m) h = elim (Bool-cases (equal j k)) [
    | inl same ↦ absurd (cc (rw same at h))
    | inr apart ↦ elim (Bool-cases (p (j, w))) [
      | inl kept ↦ rw kept (rw apart (get-retain-none p k m (rw apart at h)))
      | inr dropped ↦ rw dropped (get-retain-none p k m (rw apart at h))
    ]
  ]

  retain-Distinct : (p : K × V → Bool) (m : List (K × V)) → Distinct m → Distinct (retain p m)
  retain-Distinct p [] d = d
  retain-Distinct p ((j, w) ∷ m) d = elim (Bool-cases (p (j, w))) [
    | inl kept ↦ rw kept (get-retain-none p j m d.0, retain-Distinct p m d.1)
    | inr dropped ↦ rw dropped (retain-Distinct p m d.1)
  ]

  pub remove-Distinct : (k : K) (m : List (K × V)) → Distinct m → Distinct (remove k m)
  remove-Distinct k m d = retain-Distinct (λ entry. not (equal entry.0 k)) m d

  pub put-Distinct : (k : K) (v : V) (m : List (K × V)) → Distinct m → Distinct (put k v m)
  put-Distinct k v m d = (get-remove k m, remove-Distinct k m d)

  module _ (weight : V → ℕ) where
    abbrev pub total : List (K × V) → ℕ
    total [] = 0
    total ((k, v) ∷ m) = weight v + total m

    pub total-remove_absent :
        (k : K) (m : List (K × V)) → get k m ≡ none → total (remove k m) ≡ total m
    unfolding get
    total-remove_absent k [] h = refl
    total-remove_absent k ((j, w) ∷ m) h = elim (Bool-cases (equal j k)) [
      | inl same ↦ absurd (cc (rw same at h))
      | inr apart ↦ rw apart (ap (λ t. weight w + t) (total-remove_absent k m (rw apart at h)))
    ]

    pub total-remove :
        (k : K) (v : V) (m : List (K × V))
        → Distinct m
        → get k m ≡ some v
        → weight v + total (remove k m) ≡ total m
    unfolding get
    total-remove k v [] d h = absurd (cc h)
    total-remove k v ((j, w) ∷ m) d h = elim (Bool-cases (equal j k)) [
      | inl same ↦
          let is = some-injective w v (rw same at h) in
          let one = e.equal_to j k same in
          let gone : get k m ≡ none = rw (← one) d.0 in
          rw same (
            ap (λ t. weight v + t) (total-remove_absent k m gone)
            ∙ ap (λ x. weight x + total m) (sym is))
      | inr apart ↦
          let rest = total-remove k v m d.1 (rw apart at h) in rw apart (omega (arith, rest))
    ]
