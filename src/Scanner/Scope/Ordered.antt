-- ===== src/Scanner/Scope/Ordered.antt =====
-- How covers of scope.rs stands to the order in which queue.rs sorts scopes.
use music_streaming.Base.{
  ◌≡◌, refl, sym, subst, ap, ap₂, ◌∙◌, Bool, true, false, ◌&&◌, Bool-cases, inl, inr,
}
use music_streaming.Base.Equality.{
  equal, equal_list_to, equal_list_self, list_equality, nat_equality,
}
use music_streaming.Base.Order.{
  less, less_bool, list_order, nat_order, bool_order, pair_order, pair_not_less, not_less-pair,
}
use music_streaming.Scanner.Paths.{PathBuf, starts_with_rest, between-starts_with, append-not_less}
use music_streaming.Scanner.Scope.{
  Scope, scope_key, Depth, directory, subtree, covers, reaches, is_directory,
}
use music_streaming.Scanner.Scope.Covers.{covers_iff}

pub covers_self : (scope : Scope) → covers scope scope ≡ true
covers_self scope = (covers_iff scope scope).1 (refl, λ path h. h)

pub covers_trans : (a b c : Scope) → covers a b ≡ true → covers b c ≡ true → covers a c ≡ true
covers_trans a b c h k =
    let (root, found) = (covers_iff a b).0 h in
    let (root', found') = (covers_iff b c).0 k in
    (covers_iff a c).1 (root ∙ root', λ path m. found path (found' path m))

pub covers-root : (a b : Scope) → covers a b ≡ true → a.root ≡ b.root
covers-root a b h = ((covers_iff a b).0 h).0

covers-reaches : (a b : Scope) → covers a b ≡ true → reaches a.depth a b ≡ true
unfolding covers
covers-reaches a b h = elim (Bool-cases (equal a.root b.root)) [
  | inl e ↦ rw e at h
  | inr e ↦ absurd (cc (rw e at h))
]

reaches-covers : (a b : Scope) → a.root ≡ b.root → reaches a.depth a b ≡ true → covers a b ≡ true
unfolding covers
reaches-covers a b root h =
    let e : equal a.root b.root ≡ true = rw root (equal_list_self b.root) in rw e h

less_bool_directory : (d : Bool) → less_bool d false ≡ false
less_bool_directory true = refl
less_bool_directory false = refl

-- The part of the keys after the root.
abbrev rest_key : Scope → PathBuf × Bool
rest_key scope = (scope.path, is_directory scope.depth)

and_parts : (x y : Bool) → (x && y) ≡ true → (x ≡ true) × (y ≡ true)
and_parts true y h = (refl, h)
and_parts false y h = absurd (cc h)

-- A Directory scope covers what has its path and its depth.
directory-key : (a b : Scope) → reaches directory a b ≡ true → rest_key b ≡ (a.path, true)
directory-key a b h =
    let (is, at) = and_parts (is_directory b.depth) (equal b.path a.path) h in
    ap₂ (λ u v. (u, v)) (equal_list_to b.path a.path at) is

reaches-not_less :
    (d : Depth) (a b : Scope)
    → reaches d a b ≡ true
    → less (rest_key b) (a.path, is_directory d) ≡ false
reaches-not_less subtree a b h =
    let (q, same) = starts_with_rest b.path a.path h in
    not_less-pair (rest_key b) (a.path, false) (rw same (append-not_less a.path q))
      (λ e. less_bool_directory (is_directory b.depth))
reaches-not_less directory a b h =
    subst (λ k. less k (a.path, true) ≡ false) (sym (directory-key a b h))
      (pair_order.irrefl (a.path, true))

-- What a scope covers does not come before it.
pub covers-not_less : (a b : Scope) → covers a b ≡ true → less (scope_key b) (scope_key a) ≡ false
covers-not_less a b h =
    let root = covers-root a b h in
    not_less-pair (scope_key b) (scope_key a) (rw root (list_order.irrefl b.root))
      (λ e. reaches-not_less a.depth a b (covers-reaches a b h))

reaches-between :
    (d : Depth) (a b c : Scope)
    → reaches d a b ≡ true
    → less (rest_key c) (a.path, is_directory d) ≡ false
    → less (rest_key b) (rest_key c) ≡ false
    → reaches d a c ≡ true
reaches-between subtree a b c h k l =
    let (q, same) = starts_with_rest b.path a.path h in
    let above = (pair_not_less (rest_key c) (a.path, false) k).0 in
    let below = (pair_not_less (rest_key b) (rest_key c) l).0 in
    between-starts_with a.path q c.path above (rw same at below)
reaches-between directory a b c h k l =
    let same =
      pair_order.connex (rest_key c) (a.path, true) k
        (subst (λ k. less k (rest_key c) ≡ false) (directory-key a b h) l) in
    let path : c.path ≡ a.path = ap (λ p. p.0) same in
    let flag : is_directory c.depth ≡ true = ap (λ p. p.1) same in
    rw (flag, path) (equal_list_self a.path)

-- What lies between a scope and one that it covers is covered too.
pub covers-between :
    (a b c : Scope)
    → covers a b ≡ true
    → less (scope_key c) (scope_key a) ≡ false
    → less (scope_key b) (scope_key c) ≡ false
    → covers a c ≡ true
covers-between a b c h k l =
    let root = covers-root a b h in
    let (above, above') = pair_not_less (scope_key c) (scope_key a) k in
    let (below, below') = pair_not_less (scope_key b) (scope_key c) l in
    let same : c.root ≡ a.root = list_order.connex c.root a.root above (rw (sym root) at below) in
    let self : less a.root c.root ≡ false = rw same (list_order.irrefl a.root) in
    let self' : less c.root b.root ≡ false = rw (same, root) (list_order.irrefl b.root) in
    reaches-covers a c (sym same)
      (reaches-between a.depth a b c (covers-reaches a b h) (above' self) (below' self'))

depth_same : (d e : Depth) → is_directory d ≡ is_directory e → d ≡ e
depth_same directory directory h = refl
depth_same directory subtree h = absurd (cc h)
depth_same subtree directory h = absurd (cc h)
depth_same subtree subtree h = refl

scope_key_inj : (a b : Scope) → scope_key a ≡ scope_key b → a ≡ b
scope_key_inj a b h =
    let d = depth_same a.depth b.depth (ap (λ k. k.1.1) h) in
    λ i. record { root = (h i).0; path = (h i).1.0; depth = d i }

-- The order tells every two scopes apart.
pub scope_connex :
    (a b : Scope)
    → less (scope_key a) (scope_key b) ≡ false
    → less (scope_key b) (scope_key a) ≡ false
    → a ≡ b
scope_connex a b h k = scope_key_inj a b (pair_order.connex (scope_key a) (scope_key b) h k)
