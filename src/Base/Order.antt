-- ===== src/Base/Order.antt =====
-- The derived order of a type as a test `less` with its laws; tuples and sequences compare in the
-- order of their parts.
use music_streaming.Base.{
  ℕ, ◌≡◌, refl, ap₂, List, [], ◌∷◌, Bool, true, false, Bool-cases, inl, inr, ltb, if◌then◌else◌,
  arith,
}

pub record Order {ℓ} (A : Type ℓ) : Type ℓ where
  pub less : A → A → Bool
  pub irrefl : (a : A) → less a a ≡ false
  pub trans : (a b c : A) → less a b ≡ true → less b c ≡ true → less a c ≡ true
  pub connex : (a b : A) → less a b ≡ false → less b a ≡ false → a ≡ b

abbrev pub less {ℓ} : {A : Type ℓ} ⦃o : Order A⦄ → A → A → Bool
less ⦃o⦄ = o.less

pub ltb_self : (a : ℕ) → ltb a a ≡ false
ltb_self a = ground arith

pub ltb_trans : (a b c : ℕ) → ltb a b ≡ true → ltb b c ≡ true → ltb a c ≡ true
ltb_trans a b c h k = ground arith

pub ltb_connex : (a b : ℕ) → ltb a b ≡ false → ltb b a ≡ false → a ≡ b
ltb_connex a b h k = ground arith

instance abbrev pub nat_order : Order ℕ
nat_order = record { less = ltb; irrefl = ltb_self; trans = ltb_trans; connex = ltb_connex }

abbrev pub less_bool : Bool → Bool → Bool
less_bool false b = b
less_bool true b = false

pub less_bool_self : (a : Bool) → less_bool a a ≡ false
less_bool_self true = refl
less_bool_self false = refl

pub less_bool_trans :
    (a b c : Bool) → less_bool a b ≡ true → less_bool b c ≡ true → less_bool a c ≡ true
less_bool_trans true b c h k = absurd (cc h)
less_bool_trans false true c h k = absurd (cc k)
less_bool_trans false false c h k = absurd (cc h)

pub less_bool_connex : (a b : Bool) → less_bool a b ≡ false → less_bool b a ≡ false → a ≡ b
less_bool_connex true true h k = refl
less_bool_connex true false h k = absurd (cc k)
less_bool_connex false true h k = absurd (cc h)
less_bool_connex false false h k = refl

-- `false` comes first.
instance abbrev pub bool_order : Order Bool
bool_order = record {
  less = less_bool;
  irrefl = less_bool_self;
  trans = less_bool_trans;
  connex = less_bool_connex;
}

module _ {ℓ} {A : Type ℓ} ⦃o : Order A⦄ where
  pub less_asym : (a b : A) → less a b ≡ true → less b a ≡ false
  less_asym a b h = elim (Bool-cases (less b a)) [
    | inl k ↦ absurd (cc (o.trans a b a h k, o.irrefl a))
    | inr k ↦ k
  ]

  -- Not above, then not above.
  pub not_less_trans : (a b c : A) → less b a ≡ false → less c b ≡ false → less c a ≡ false
  not_less_trans a b c h k = elim (Bool-cases (less a b)) [
    | inl l ↦ elim (Bool-cases (less c a)) [
      | inl m ↦ absurd (cc (o.trans c a b m l, k))
      | inr m ↦ m
    ]
    | inr l ↦ let same = o.connex a b l h in rw same k
  ]

  abbrev pub less_list : List A → List A → Bool
  less_list [] [] = false
  less_list [] (y ∷ ys) = true
  less_list (x ∷ xs) [] = false
  less_list (x ∷ xs) (y ∷ ys) =
      let rest = less_list xs ys in if less x y then true else if less y x then false else rest

  pub less_list_self : (xs : List A) → less_list xs xs ≡ false
  less_list_self [] = refl
  less_list_self (x ∷ xs) = rw (o.irrefl x) (less_list_self xs)

  pub less_list_trans :
      (xs ys zs : List A) → less_list xs ys ≡ true → less_list ys zs ≡ true → less_list xs zs ≡ true
  less_list_trans [] [] [] h k = h
  less_list_trans [] (y ∷ ys) [] h k = absurd (cc k)
  less_list_trans [] ys (z ∷ zs) h k = refl
  less_list_trans (x ∷ xs) [] zs h k = absurd (cc h)
  less_list_trans (x ∷ xs) (y ∷ ys) [] h k = absurd (cc k)
  less_list_trans (x ∷ xs) (y ∷ ys) (z ∷ zs) h k = grind (
    arith,
    less_list_trans xs ys zs,
    o.trans x y z,
    o.connex x y,
    o.connex y z,
    less_asym x y,
    less_asym y z,
    less_asym x z,
    o.irrefl,
  )

  pub less_list_connex :
      (xs ys : List A) → less_list xs ys ≡ false → less_list ys xs ≡ false → xs ≡ ys
  less_list_connex [] [] h k = refl
  less_list_connex [] (y ∷ ys) h k = absurd (cc h)
  less_list_connex (x ∷ xs) [] h k = absurd (cc k)
  less_list_connex (x ∷ xs) (y ∷ ys) h k = elim (Bool-cases (less x y)) [
    | inl e ↦ absurd (grind arith)
    | inr e ↦ elim (Bool-cases (less y x)) [
      | inl f ↦ absurd (grind arith)
      | inr f ↦
          ap₂ ◌∷◌ (o.connex x y e f) (less_list_connex xs ys (rw (e, f) at h) (rw (f, e) at k))
    ]
  ]

  instance abbrev pub list_order : Order (List A)
  list_order = record {
    less = less_list;
    irrefl = less_list_self;
    trans = less_list_trans;
    connex = less_list_connex;
  }

-- Pairs compare by their first parts, then by their second.
module _ {ℓ κ} {A : Type ℓ} {B : Type κ} ⦃o : Order A⦄ ⦃q : Order B⦄ where
  abbrev pub less_pair : A × B → A × B → Bool
  less_pair (a, b) (c, d) = if less a c then true else if less c a then false else less b d

  pub less_pair_self : (x : A × B) → less_pair x x ≡ false
  less_pair_self (a, b) = rw (o.irrefl a) (q.irrefl b)

  pub less_pair_trans :
      (x y z : A × B) → less_pair x y ≡ true → less_pair y z ≡ true → less_pair x z ≡ true
  less_pair_trans (a, b) (c, d) (e, f) h k = grind (
    arith,
    q.trans b d f,
    o.trans a c e,
    o.connex a c,
    o.connex c e,
    less_asym a c,
    less_asym c e,
    less_asym a e,
    o.irrefl,
  )

  pub less_pair_connex : (x y : A × B) → less_pair x y ≡ false → less_pair y x ≡ false → x ≡ y
  less_pair_connex (a, b) (c, d) h k = elim (Bool-cases (less a c)) [
    | inl e ↦ absurd (grind arith)
    | inr e ↦ elim (Bool-cases (less c a)) [
      | inl f ↦ absurd (grind arith)
      | inr f ↦
          ap₂ (λ u v. (u, v)) (o.connex a c e f) (q.connex b d (rw (e, f) at h) (rw (f, e) at k))
    ]
  ]

  instance abbrev pub pair_order : Order (A × B)
  pair_order = record {
    less = less_pair;
    irrefl = less_pair_self;
    trans = less_pair_trans;
    connex = less_pair_connex;
  }

  -- What a pair that is not below another says of the parts, and what says it.
  pub pair_not_less :
      (x y : A × B)
      → less_pair x y ≡ false
      → (less x.0 y.0 ≡ false) × (less y.0 x.0 ≡ false → less x.1 y.1 ≡ false)
  pair_not_less (a, b) (c, d) h = elim (Bool-cases (less a c)) [
    | inl e ↦ absurd (cc (rw e at h))
    | inr e ↦ (e, λ f. rw (e, f) at h)
  ]

  pub not_less-pair :
      (x y : A × B)
      → less x.0 y.0 ≡ false
      → (less y.0 x.0 ≡ false → less x.1 y.1 ≡ false)
      → less_pair x y ≡ false
  not_less-pair (a, b) (c, d) h k = elim (Bool-cases (less c a)) [
    | inl e ↦ rw (h, e) refl
    | inr e ↦ rw (h, e) (k e)
  ]
