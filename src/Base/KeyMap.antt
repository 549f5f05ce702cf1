-- ===== src/Base/KeyMap.antt =====
-- Maps with keys that can be compared: a HashMap as a list of entries, of which the first under a key
-- counts.
use mathlib.Core.Option.{some-injective}
use music_streaming.Base.{
  ◌≡◌, refl, sym, ap, ◌∙◌, List, [], ◌∷◌, Bool, true, false, not, Option, none, some, Bool-cases,
  inl, inr, ◌⊎◌, if◌then◌else◌, retain,
}
use music_streaming.Base.Equality.{Equality, equal}

module _ {ℓ κ} {K : Type ℓ} {V : Type κ} ⦃e : Equality K⦄ where
  unfoldable pub get : K → List (K × V) → Option V
  get k [] = none
  get k ((j, v) ∷ m) = let rest = get k m in if equal j k then some v else rest

  -- `HashMap::remove`.
  abbrev pub remove : K → List (K × V) → List (K × V)
  remove k m = retain (λ entry. not (equal entry.0 k)) m

  -- `HashMap::insert`.
  abbrev pub put : K → V → List (K × V) → List (K × V)
  put k v m = (k, v) ∷ remove k m

  pub get-put : (k : K) (v : V) (m : List (K × V)) → get k (put k v m) ≡ some v
  unfolding get
  get-put k v m = rw (e.equal_self k) refl

  pub get-remove : (k : K) (m : List (K × V)) → get k (remove k m) ≡ none
  unfolding get
  get-remove k [] = refl
  get-remove k ((j, v) ∷ m) = elim (Bool-cases (equal j k)) [
    | inl h ↦ rw h (get-remove k m)
    | inr h ↦ rw h (rw h (get-remove k m))
  ]

  pub get-remove_other :
      (k j : K) (m : List (K × V)) → equal k j ≡ false → get j (remove k m) ≡ get j m
  unfolding get
  get-remove_other k j [] h = refl
  get-remove_other k j ((i, v) ∷ m) h = elim (Bool-cases (equal i k)) [
    | inl same ↦
        let other : equal i j ≡ false = rw (e.equal_to i k same) h in
        rw (same, other) (get-remove_other k j m h)
    | inr apart ↦ elim (Bool-cases (equal i j)) [
      | inl here ↦ rw (apart, here) refl
      | inr later ↦ rw (apart, later) (get-remove_other k j m h)
    ]
  ]

  pub get-put_other :
      (k j : K) (v : V) (m : List (K × V)) → equal k j ≡ false → get j (put k v m) ≡ get j m
  unfolding get
  get-put_other k j v m h = rw h (get-remove_other k j m h)

  -- What a filter keeps is still found.
  pub get-retain :
      (p : K × V → Bool) (k : K) (v : V) (m : List (K × V))
      → get k m ≡ some v
      → ((j : K) → equal j k ≡ true → p (j, v) ≡ true)
      → get k (retain p m) ≡ some v
  unfolding get
  get-retain p k v [] h keeps = absurd (cc h)
  get-retain p k v ((j, w) ∷ m) h keeps = elim (Bool-cases (equal j k)) [
    | inl same ↦
        let one = some-injective w v (rw same at h) in
        let kept : p (j, w) ≡ true = rw one (keeps j same) in rw kept (rw (same, one) refl)
    | inr apart ↦ elim (Bool-cases (p (j, w))) [
      | inl kept ↦ rw kept (rw apart (get-retain p k v m (rw apart at h) keeps))
      | inr dropped ↦ rw dropped (get-retain p k v m (rw apart at h) keeps)
    ]
  ]

  -- What is found after a removal or an insertion.
  pub get-remove_inv :
      (k j : K) (v : V) (m : List (K × V))
      → get j (remove k m) ≡ some v
      → (equal k j ≡ false) × (get j m ≡ some v)
  get-remove_inv k j v m h = elim (Bool-cases (equal k j)) [
    | inl same ↦
        let one = e.equal_to k j same in
        let gone : get j (remove k m) ≡ none = rw one (get-remove j m) in absurd (cc (h, gone))
    | inr apart ↦ (apart, sym (get-remove_other k j m apart) ∙ h)
  ]

  pub get-put_inv :
      (k j : K) (v w : V) (m : List (K × V))
      → get j (put k v m) ≡ some w
      → ((k ≡ j) × (v ≡ w)) ⊎ ((equal k j ≡ false) × (get j m ≡ some w))
  get-put_inv k j v w m h = elim (Bool-cases (equal k j)) [
    | inl same ↦
        let one = e.equal_to k j same in
        inl (one, some-injective v w (sym (get-put k v m) ∙ (ap (λ i. get i (put k v m)) one ∙ h)))
    | inr apart ↦ inr (apart, sym (get-put_other k j v m apart) ∙ h)
  ]
