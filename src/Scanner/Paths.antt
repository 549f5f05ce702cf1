-- ===== src/Scanner/Paths.antt =====
-- The paths that scopes name, as std::path reads them: an absolute path is the list of its
-- components after the root directory, a component the bytes of its name.
use mathlib.Core.Option.{some-injective}
use music_streaming.Base.{
  ℕ, ◌≡◌, refl, ap, ap₂, ◌∙◌, List, [], ◌∷◌, ◌++◌, Bool, true, false, Option, none, some,
  if◌then◌else◌, append_assoc, Bool-cases, inl, inr, Option-bind, Option-cases,
}
use music_streaming.Base.Equality.{
  equal, equal_list_to, equal_list_self, list_equality, nat_equality,
}
use music_streaming.Base.Order.{less, list_order, nat_order}

abbrev pub Name : Type 0
Name = List ℕ

abbrev pub PathBuf : Type 0
PathBuf = List Name

-- `Path::starts_with`, by components.
unfoldable pub starts_with : PathBuf → PathBuf → Bool
starts_with xs [] = true
starts_with [] (p ∷ ps) = false
starts_with (x ∷ xs) (p ∷ ps) = let rest = starts_with xs ps in if equal x p then rest else false

-- `Path::parent`.
unfoldable pub parent : PathBuf → Option PathBuf
parent [] = none
parent (x ∷ []) = some []
parent (x ∷ (y ∷ ys)) = Option-bind (parent (y ∷ ys)) (λ above. some (x ∷ above))

-- `Path::join` with one component.
abbrev pub join : PathBuf → Name → PathBuf
join path name = path ++ (name ∷ [])

pub starts_with-append : (p q : PathBuf) → starts_with (p ++ q) p ≡ true
unfolding starts_with
starts_with-append [] q = refl
starts_with-append (x ∷ p) q = rw (equal_list_self x) (starts_with-append p q)

pub starts_with_rest :
    (path p : PathBuf) → starts_with path p ≡ true → (q : PathBuf) × (path ≡ p ++ q)
unfolding starts_with
starts_with_rest path [] h = (path, refl)
starts_with_rest [] (y ∷ p) h = absurd (cc h)
starts_with_rest (x ∷ path) (y ∷ p) h = elim (Bool-cases (equal x y)) [
  | inl e ↦
      let (q, same) = starts_with_rest path p (rw e at h) in (q, ap₂ ◌∷◌ (equal_list_to x y e) same)
  | inr e ↦ absurd (cc (e, h))
]

-- The parent is the path without its last component.
pub parent-join : (path : PathBuf) (name : Name) → parent (join path name) ≡ some path
unfolding parent
parent-join [] name = refl
parent-join (x ∷ []) name = refl
parent-join (x ∷ (y ∷ ys)) name = rw (parent-join (y ∷ ys) name, Option-bind) refl

pub parent_split :
    (path above : PathBuf) → parent path ≡ some above → (name : Name) × (path ≡ join above name)
unfolding parent
parent_split [] above h = absurd (cc h)
parent_split (x ∷ []) above h = (x, ap (λ r. r ++ (x ∷ [])) (some-injective _ _ h))
parent_split (x ∷ (y ∷ ys)) above h = elim (Option-cases (parent (y ∷ ys))) [
  | inl e ↦ absurd (cc (rw e at h))
  | inr (inner, e) ↦
      let (name, same) = parent_split (y ∷ ys) inner e in
      let joined : x ∷ inner ≡ above = some-injective _ _ (rw e at h) in
      (name, ap (λ r. x ∷ r) same ∙ ap (λ r. r ++ (name ∷ [])) joined)
]

-- What lies between a path and one under it, in the order of paths, lies under it too.
pub between-starts_with :
    (p q c : PathBuf) → less c p ≡ false → less (p ++ q) c ≡ false → starts_with c p ≡ true
unfolding starts_with
between-starts_with [] q c h k = refl
between-starts_with (x ∷ p) q [] h k = absurd (cc h)
between-starts_with (x ∷ p) q (y ∷ c) h k = elim (Bool-cases (less y x)) [
  | inl e ↦ absurd (cc (rw e at h))
  | inr e ↦ elim (Bool-cases (less x y)) [
    | inl f ↦ absurd (cc (rw f at k))
    | inr f ↦
        let same = list_order.connex x y f e in
        rw (← same, equal_list_self x) (between-starts_with p q c (rw (e, f) at h) (rw (f, e) at k))
  ]
]

-- Paths that start with each other are one.
pub starts_with_antisym : (p q : PathBuf) → starts_with p q ≡ true → starts_with q p ≡ true → p ≡ q
unfolding starts_with
starts_with_antisym [] [] h k = refl
starts_with_antisym [] (y ∷ q) h k = absurd (cc h)
starts_with_antisym (x ∷ p) [] h k = absurd (cc k)
starts_with_antisym (x ∷ p) (y ∷ q) h k = elim (Bool-cases (equal x y)) [
  | inl e ↦
      let same = equal_list_to x y e in
      ap₂ ◌∷◌ same (starts_with_antisym p q (rw e at h) (rw (same, equal_list_self y) at k))
  | inr e ↦ absurd (cc (e, h))
]

pub starts_with_trans :
    (p q r : PathBuf) → starts_with p q ≡ true → starts_with q r ≡ true → starts_with p r ≡ true
starts_with_trans p q r h k =
    let (a, ea) = starts_with_rest p q h in
    let (b, eb) = starts_with_rest q r k in
    let whole : p ≡ r ++ (b ++ a) = ea ∙ (ap (λ s. s ++ a) eb ∙ append_assoc r b a) in
    rw whole (starts_with-append r (b ++ a))

-- A path with components more is another.
pub append_differs :
    (path : PathBuf) (name : Name) (rest : PathBuf) → equal (path ++ (name ∷ rest)) path ≡ false
append_differs [] name rest = refl
append_differs (x ∷ path) name rest = rw (equal_list_self x) (append_differs path name rest)

-- What starts a path, and is not the whole of it, starts its parent.
pub starts_with-join :
    (path p : PathBuf) (name : Name)
    → starts_with (join path name) p ≡ true
    → equal (join path name) p ≡ false
    → starts_with path p ≡ true
unfolding starts_with
starts_with-join path [] name h k = refl
starts_with-join [] (y ∷ []) name h k = elim (Bool-cases (equal name y)) [
  | inl e ↦ absurd (cc (rw e at k))
  | inr e ↦ absurd (cc (rw e at h))
]
starts_with-join [] (y ∷ (z ∷ p)) name h k = elim (Bool-cases (equal name y)) [
  | inl e ↦ absurd (cc (rw e at h))
  | inr e ↦ absurd (cc (rw e at h))
]
starts_with-join (x ∷ path) (y ∷ p) name h k = elim (Bool-cases (equal x y)) [
  | inl e ↦ rw e (starts_with-join path p name (rw e at h) (rw e at k))
  | inr e ↦ absurd (cc (rw e at h))
]

-- A path does not come after one under it.
pub append-not_less : (p q : PathBuf) → less (p ++ q) p ≡ false
append-not_less [] [] = refl
append-not_less [] (y ∷ q) = refl
append-not_less (x ∷ p) q = rw (list_order.irrefl x) (append-not_less p q)
