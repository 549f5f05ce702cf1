-- ===== src/Base/Equality.antt =====
-- The derived equality of a type as a test with its laws.
use music_streaming.Base.{
  ℕ, ◌≡◌, refl, ap₂, List, [], ◌∷◌, Bool, true, false, ◌==◌, if◌then◌else◌, Bool-cases, inl, inr,
  arith,
}

pub record Equality {ℓ} (A : Type ℓ) : Type ℓ where
  pub equal : A → A → Bool
  pub equal_to : (a b : A) → equal a b ≡ true → a ≡ b
  pub equal_self : (a : A) → equal a a ≡ true

abbrev pub equal {ℓ} : {A : Type ℓ} ⦃e : Equality A⦄ → A → A → Bool
equal ⦃e⦄ = e.equal

pub ==_to : (a b : ℕ) → (a == b) ≡ true → a ≡ b
==_to a b h = ground arith

pub ==_self : (a : ℕ) → (a == a) ≡ true
==_self a = ground arith

instance abbrev pub nat_equality : Equality ℕ
nat_equality = record { equal = ◌==◌; equal_to = ==_to; equal_self = ==_self }

module _ {ℓ} {A : Type ℓ} ⦃e : Equality A⦄ where
  pub not_equal : (a b : A) → equal a b ≡ false → ¬ (a ≡ b)
  not_equal a b h same = cc (rw same at h, e.equal_self b)

  abbrev pub equal_list : List A → List A → Bool
  equal_list [] [] = true
  equal_list [] (y ∷ ys) = false
  equal_list (x ∷ xs) [] = false
  equal_list (x ∷ xs) (y ∷ ys) = let rest = equal_list xs ys in if equal x y then rest else false

  pub equal_list_to : (xs ys : List A) → equal_list xs ys ≡ true → xs ≡ ys
  equal_list_to [] [] h = refl
  equal_list_to [] (y ∷ ys) h = absurd (cc h)
  equal_list_to (x ∷ xs) [] h = absurd (cc h)
  equal_list_to (x ∷ xs) (y ∷ ys) h = elim (Bool-cases (equal x y)) [
    | inl k ↦ ap₂ ◌∷◌ (e.equal_to x y k) (equal_list_to xs ys (rw k at h))
    | inr k ↦ absurd (cc (k, h))
  ]

  pub equal_list_self : (xs : List A) → equal_list xs xs ≡ true
  equal_list_self [] = refl
  equal_list_self (x ∷ xs) = rw (e.equal_self x) (equal_list_self xs)

  instance abbrev pub list_equality : Equality (List A)
  list_equality = record {
    equal = equal_list;
    equal_to = equal_list_to;
    equal_self = equal_list_self;
  }

module _ {ℓ κ} {A : Type ℓ} {B : Type κ} ⦃e : Equality A⦄ ⦃q : Equality B⦄ where
  abbrev pub equal_pair : A × B → A × B → Bool
  equal_pair (a, b) (c, d) = if equal a c then equal b d else false

  pub equal_pair_to : (x y : A × B) → equal_pair x y ≡ true → x ≡ y
  equal_pair_to (a, b) (c, d) h = elim (Bool-cases (equal a c)) [
    | inl k ↦ ap₂ (λ u v. (u, v)) (e.equal_to a c k) (q.equal_to b d (rw k at h))
    | inr k ↦ absurd (cc (k, h))
  ]

  pub equal_pair_self : (x : A × B) → equal_pair x x ≡ true
  equal_pair_self (a, b) = rw (e.equal_self a) (q.equal_self b)

  instance abbrev pub pair_equality : Equality (A × B)
  pair_equality = record {
    equal = equal_pair;
    equal_to = equal_pair_to;
    equal_self = equal_pair_self;
  }
