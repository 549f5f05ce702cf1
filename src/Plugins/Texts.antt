-- ===== src/Plugins/Texts.antt =====
-- The standard library's operations on texts that the network code calls. A text is the list of its
-- characters' code points.
use Prim.Native.Char.{code}
use Prim.Native.String.{String}
use music_streaming.Base.{
  map, ℕ, ◌+◌, ◌-◌, ◌*◌, ◌^◌, Bool, ◌&&◌, ◌||◌, List, [], ◌∷◌, reverse, Option, none, some, leb,
  ◌==◌, if◌then◌else◌,
}
use music_streaming.Base.Equality.{equal, list_equality, nat_equality}

abbrev pub Text : Type 0
Text = List ℕ

abbrev pub between : ℕ → ℕ → ℕ → Bool
between low high c = leb low c && leb c high

-- The characters of Unicode's White_Space property.
unfoldable pub is_whitespace : ℕ → Bool
is_whitespace c =
    between 9 13 c
    || (c == 32
        || (c == 133
            || (c == 160
                || (c == 5760
                    || (between 8192 8202 c
                        || (between 8232 8233 c || (c == 8239 || (c == 8287 || c == 12288))))))))

unfoldable pub trim_start : Text → Text
unfolding is_whitespace
trim_start [] = []
trim_start (c ∷ cs) = let rest = trim_start cs in if is_whitespace c then rest else c ∷ cs

-- `str::trim`.
unfoldable pub trim : Text → Text
unfolding trim_start
trim text = reverse (trim_start (reverse (trim_start text)))

abbrev pub u64_max : ℕ
u64_max = 2 ^ 64 - 1

-- The digits of a number after those read into `value`, none on another character or on overflow.
unfoldable pub digits_from : ℕ → Text → Option ℕ
digits_from value [] = some value
digits_from value (c ∷ cs) =
    let next = value * 10 + (c - 48) in
    let rest = digits_from next cs in if between 48 57 c && leb next u64_max then rest else none

abbrev pub some_digits : Text → Option ℕ
some_digits [] = none
some_digits (c ∷ cs) = digits_from 0 (c ∷ cs)

-- `str::parse::<u64>`: digits, with a plus sign allowed before them.
unfoldable pub parse_u64 : Text → Option ℕ
unfolding digits_from
parse_u64 [] = none
parse_u64 (c ∷ cs) = if c == 43 then some_digits cs else some_digits (c ∷ cs)

-- The code points of a literal.
abbrev pub codes : String → Text
codes String.[] = []
codes (String.◌∷◌ c s) = code c ∷ codes s

-- `char::to_ascii_lowercase`.
unfoldable pub ascii_lower : ℕ → ℕ
ascii_lower c = if between 65 90 c then c + 32 else c

-- `str::to_ascii_lowercase`.
abbrev pub to_ascii_lowercase : Text → Text
to_ascii_lowercase text = map ascii_lower text

-- `str::eq_ignore_ascii_case`.
abbrev pub eq_ignore_ascii_case : Text → Text → Bool
eq_ignore_ascii_case a b = equal (to_ascii_lowercase a) (to_ascii_lowercase b)

abbrev pub add_to_first : ℕ → List Text → List Text
add_to_first c [] = (c ∷ []) ∷ []
add_to_first c (part ∷ parts) = (c ∷ part) ∷ parts

-- `str::split` at a character.
unfoldable pub split : ℕ → Text → List Text
split at [] = [] ∷ []
split at (c ∷ cs) = let rest = split at cs in if c == at then [] ∷ rest else add_to_first c rest

abbrev pub before : ℕ → Option (Text × Text) → Option (Text × Text)
before c none = none
before c (some (left, right)) = some (c ∷ left, right)

-- `str::split_once` at a character.
unfoldable pub split_once : ℕ → Text → Option (Text × Text)
split_once at [] = none
split_once at (c ∷ cs) =
    let rest = before c (split_once at cs) in if c == at then some ([], cs) else rest

unfoldable pub trim_start_matches : ℕ → Text → Text
trim_start_matches at [] = []
trim_start_matches at (c ∷ cs) =
    let rest = trim_start_matches at cs in if c == at then rest else c ∷ cs

-- `str::trim_matches` of a character.
unfoldable pub trim_matches : ℕ → Text → Text
trim_matches at text = reverse (trim_start_matches at (reverse (trim_start_matches at text)))
