-- ===== src/PlaylistKeys/Kept.antt =====
-- Lists of keys that are kept, as longest_increasing of keys.rs fills them.
use music_streaming.Base.{
  ℕ, zero, suc, ◌+◌, ◌≤◌, ◌<◌, List, [], ◌∷◌, Option, none, some, ◌≡◌, refl, ap, ◌∙◌, length, set,
  get_elem?, arith,
}
use music_streaming.PlaylistKeys.{origin}
use music_streaming.PlaylistKeys.Assigned.{KeepsAscending}
use music_streaming.PlaylistKeys.Links.{length-set}

-- Every stored key is an i64.
abbrev pub IsStored : List (Option ℕ) → Type 0
IsStored [] = Unit
IsStored (none ∷ stored) = IsStored stored
IsStored (some key ∷ stored) = (key < origin + origin) × IsStored stored

-- The first so many items keep no key.
abbrev pub IsBlank : ℕ → List (Option ℕ) → Type 0
IsBlank zero kept = Unit
IsBlank (suc n) [] = Unit
IsBlank (suc n) (none ∷ kept) = IsBlank n kept
IsBlank (suc n) (some key ∷ kept) = ⊥

-- Only stored keys are kept, each by its item.
abbrev pub Within : List (Option ℕ) → List (Option ℕ) → Type 0
Within stored kept =
    (i key : ℕ) → get_elem? kept i ≡ some (some key) → get_elem? stored i ≡ some (some key)

abbrev pub kept_count : List (Option ℕ) → ℕ
kept_count [] = 0
kept_count (none ∷ kept) = kept_count kept
kept_count (some key ∷ kept) = suc (kept_count kept)

-- So many keys are kept, from an item and a key on.
pub record Keeps (stored : List (Option ℕ)) (item bound count : ℕ) (kept : List (Option ℕ))
    : Type 0 where
  pub blank : IsBlank item kept
  pub ascending : KeepsAscending bound kept
  pub within : Within stored kept
  pub counted : kept_count kept ≡ count
  pub as_long : length kept ≡ length stored

KeepsAscending-mono :
    (low high : ℕ) (kept : List (Option ℕ))
    → low ≤ high
    → KeepsAscending high kept
    → KeepsAscending low kept
KeepsAscending-mono low high [] l k = tt
KeepsAscending-mono low high (none ∷ kept) l k = KeepsAscending-mono low high kept l k
KeepsAscending-mono low high (some key ∷ kept) l k = (omega arith, k.1, k.2)

IsBlank-mono : (m n : ℕ) (kept : List (Option ℕ)) → m ≤ n → IsBlank n kept → IsBlank m kept
IsBlank-mono zero n kept l b = tt
IsBlank-mono (suc m) zero kept l b = absurd (omega arith)
IsBlank-mono (suc m) (suc n) [] l b = tt
IsBlank-mono (suc m) (suc n) (none ∷ kept) l b = IsBlank-mono m n kept (omega arith) b
IsBlank-mono (suc m) (suc n) (some key ∷ kept) l b = elim b [ ]

set-IsBlank :
    (item : ℕ) (kept : List (Option ℕ)) (v : Option ℕ)
    → IsBlank (suc item) kept
    → IsBlank item (set kept item v)
set-IsBlank zero kept v b = tt
set-IsBlank (suc item) [] v b = tt
set-IsBlank (suc item) (none ∷ kept) v b = set-IsBlank item kept v b
set-IsBlank (suc item) (some key ∷ kept) v b = elim b [ ]

set-KeepsAscending :
    (item key : ℕ) (kept : List (Option ℕ))
    → key < origin + origin
    → IsBlank (suc item) kept
    → KeepsAscending (suc key) kept
    → KeepsAscending key (set kept item (some key))
set-KeepsAscending item key [] h b k = tt
set-KeepsAscending item key (some other ∷ kept) h b k = elim b [ ]
set-KeepsAscending zero key (none ∷ kept) h b k = (omega arith, h, k)
set-KeepsAscending (suc item) key (none ∷ kept) h b k = set-KeepsAscending item key kept h b k

set-kept_count :
    (item key : ℕ) (kept : List (Option ℕ))
    → item < length kept
    → IsBlank (suc item) kept
    → kept_count (set kept item (some key)) ≡ suc (kept_count kept)
set-kept_count item key [] l b = absurd (omega arith)
set-kept_count item key (some other ∷ kept) l b = elim b [ ]
set-kept_count zero key (none ∷ kept) l b = refl
set-kept_count (suc item) key (none ∷ kept) l b = set-kept_count item key kept (omega arith) b

set-Within :
    (stored : List (Option ℕ)) (item key : ℕ) (kept : List (Option ℕ))
    → get_elem? stored item ≡ some (some key)
    → Within stored kept
    → Within stored (set kept item (some key))
set-Within stored item key [] e w i k f = absurd (cc f)
set-Within [] item key (other ∷ kept) e w i k f = absurd (cc e)
set-Within (x ∷ stored) zero key (other ∷ kept) e w zero k f = cc (e, f)
set-Within (x ∷ stored) zero key (other ∷ kept) e w (suc i) k f = w (suc i) k f
set-Within (x ∷ stored) (suc item) key (other ∷ kept) e w zero k f = w zero k f
set-Within (x ∷ stored) (suc item) key (other ∷ kept) e w (suc i) k f =
    set-Within stored item key kept e (λ j k'. w (suc j) k') i k f

pub stored-lt :
    (stored : List (Option ℕ)) (i key : ℕ)
    → IsStored stored
    → get_elem? stored i ≡ some (some key)
    → (key < origin + origin) × (i < length stored)
stored-lt [] i key s e = absurd (cc e)
stored-lt (none ∷ stored) zero key s e = absurd (cc e)
stored-lt (some other ∷ stored) zero key s e =
    let same : other ≡ key = cc e in (omega arith, omega arith)
stored-lt (none ∷ stored) (suc i) key s e =
    let (h, l) = stored-lt stored i key s e in (h, omega arith)
stored-lt (some other ∷ stored) (suc i) key s e =
    let (h, l) = stored-lt stored i key s.1 e in (h, omega arith)

-- One more key is kept, before the others.
pub Keeps-set :
    (stored kept : List (Option ℕ)) (item key next bound count : ℕ)
    → IsStored stored
    → get_elem? stored item ≡ some (some key)
    → item < next
    → key < bound
    → Keeps stored next bound count kept
    → Keeps stored item key (suc count) (set kept item (some key))
Keeps-set stored kept item key next bound count s e l h k =
    let (small, there) = stored-lt stored item key s e in
    let blank = IsBlank-mono (suc item) next kept l k.blank in
    record {
      blank = set-IsBlank item kept (some key) blank;
      ascending =
          set-KeepsAscending item key kept small blank
            (KeepsAscending-mono (suc key) bound kept h k.ascending);
      within = set-Within stored item key kept e k.within;
      counted = set-kept_count item key kept (omega (arith, k.as_long)) blank ∙ ap suc k.counted;
      as_long = length-set kept item (some key) ∙ k.as_long;
    }

pub Keeps-from :
    {stored kept : List (Option ℕ)} {item bound count count' : ℕ}
    → count ≡ count'
    → Keeps stored item bound count kept
    → Keeps stored 0 0 count' kept
Keeps-from {kept} {bound} e k = record {
  blank = tt;
  ascending = KeepsAscending-mono 0 bound kept (omega arith) k.ascending;
  within = k.within;
  counted = k.counted ∙ e;
  as_long = k.as_long;
}
