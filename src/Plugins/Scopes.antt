-- ===== src/Plugins/Scopes.antt =====
-- crates/plugins/src/network/limits.rs: whose requests to a host wait together.
use music_streaming.Base.{ℤ, pos, negsuc, ◌≡◌, refl, ap, ap₂, Bool, true, false, ◌&&◌, ◌==◌}
use music_streaming.Base.Equality.{Equality, equal, list_equality, nat_equality, ==_to, ==_self}
use music_streaming.Plugins.Texts.{Text}

pub data Scope : Type 0 where
  host : Scope
  plugin : Text → Scope
  user : Text → ℤ → Scope

abbrev pub equal_id : ℤ → ℤ → Bool
equal_id (pos a) (pos b) = a == b
equal_id (pos a) (negsuc b) = false
equal_id (negsuc a) (pos b) = false
equal_id (negsuc a) (negsuc b) = a == b

pub equal_id_to : (a b : ℤ) → equal_id a b ≡ true → a ≡ b
equal_id_to (pos a) (pos b) h = ap pos (==_to a b h)
equal_id_to (pos a) (negsuc b) h = absurd (cc h)
equal_id_to (negsuc a) (pos b) h = absurd (cc h)
equal_id_to (negsuc a) (negsuc b) h = ap negsuc (==_to a b h)

pub equal_id_self : (a : ℤ) → equal_id a a ≡ true
equal_id_self (pos a) = ==_self a
equal_id_self (negsuc a) = ==_self a

-- The derived equality.
abbrev pub equal_scope : Scope → Scope → Bool
equal_scope host host = true
equal_scope host (plugin n) = false
equal_scope host (user n i) = false
equal_scope (plugin m) host = false
equal_scope (plugin m) (plugin n) = equal m n
equal_scope (plugin m) (user n i) = false
equal_scope (user m i) host = false
equal_scope (user m i) (plugin n) = false
equal_scope (user m i) (user n j) = equal m n && equal_id i j

pub and_parts : (x y : Bool) → (x && y) ≡ true → (x ≡ true) × (y ≡ true)
and_parts true y h = (refl, h)
and_parts false y h = absurd (cc h)

pub equal_scope_to : (a b : Scope) → equal_scope a b ≡ true → a ≡ b
equal_scope_to host host h = refl
equal_scope_to host (plugin n) h = absurd (cc h)
equal_scope_to host (user n i) h = absurd (cc h)
equal_scope_to (plugin m) host h = absurd (cc h)
equal_scope_to (plugin m) (plugin n) h = ap plugin (list_equality.equal_to m n h)
equal_scope_to (plugin m) (user n i) h = absurd (cc h)
equal_scope_to (user m i) host h = absurd (cc h)
equal_scope_to (user m i) (plugin n) h = absurd (cc h)
equal_scope_to (user m i) (user n j) h =
    let (same, id) = and_parts (equal m n) (equal_id i j) h in
    ap₂ user (list_equality.equal_to m n same) (equal_id_to i j id)

pub equal_scope_self : (a : Scope) → equal_scope a a ≡ true
equal_scope_self host = refl
equal_scope_self (plugin n) = list_equality.equal_self n
equal_scope_self (user n i) = rw (list_equality.equal_self n) (equal_id_self i)

instance abbrev pub scope_equality : Equality Scope
scope_equality = record {
  equal = equal_scope;
  equal_to = equal_scope_to;
  equal_self = equal_scope_self;
}
