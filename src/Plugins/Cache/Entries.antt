-- ===== src/Plugins/Cache/Entries.antt =====
-- crates/plugins/src/network/cache.rs: Visible, Key and Reply.
use music_streaming.Base.{
  ℕ, zero, suc, ℤ, ◌+◌, ◌/◌, ◌%◌, min, ◌≡◌, refl, ap, Bool, true, false, not, List, [], ◌∷◌, ◌++◌,
  Option, none, some, map, retain, any, find, length, ltb, if◌then◌else◌,
}
use music_streaming.Base.Equality.{Equality, equal, list_equality, nat_equality, pair_equality}
use music_streaming.Base.Order.{list_order, nat_order, pair_order}
use music_streaming.Base.SortBy.{sort_by}
use music_streaming.Plugins.Rules.{IpAddr}
use music_streaming.Plugins.Scopes.{equal_id, equal_id_to, equal_id_self}
use music_streaming.Plugins.Texts.{Text, codes, trim, parse_u64, u64_max, to_ascii_lowercase}

-- The second, in nanoseconds.
abbrev pub second : ℕ
second = 1000000000

pub record Visible : Type 0 where
  pub library : ℤ
  pub user : Option ℤ
  pub library_read : Bool
  pub listening_activity : Bool
  pub search_activity : Bool

abbrev pub Headers : Type 0
Headers = List (Text × Text)

pub record Key : Type 0 where
  pub visible : Visible
  pub url : Text
  pub headers : Headers

instance abbrev pub id_equality : Equality ℤ
id_equality = record { equal = equal_id; equal_to = equal_id_to; equal_self = equal_id_self }

abbrev pub equal_flag : Bool → Bool → Bool
equal_flag true b = b
equal_flag false b = not b

pub equal_flag_to : (a b : Bool) → equal_flag a b ≡ true → a ≡ b
equal_flag_to true true h = refl
equal_flag_to true false h = absurd (cc h)
equal_flag_to false true h = absurd (cc h)
equal_flag_to false false h = refl

pub equal_flag_self : (a : Bool) → equal_flag a a ≡ true
equal_flag_self true = refl
equal_flag_self false = refl

instance abbrev pub flag_equality : Equality Bool
flag_equality = record {
  equal = equal_flag;
  equal_to = equal_flag_to;
  equal_self = equal_flag_self;
}

abbrev pub equal_user : Option ℤ → Option ℤ → Bool
equal_user none none = true
equal_user none (some b) = false
equal_user (some a) none = false
equal_user (some a) (some b) = equal_id a b

pub equal_user_to : (a b : Option ℤ) → equal_user a b ≡ true → a ≡ b
equal_user_to none none h = refl
equal_user_to none (some b) h = absurd (cc h)
equal_user_to (some a) none h = absurd (cc h)
equal_user_to (some a) (some b) h = ap some (equal_id_to a b h)

pub equal_user_self : (a : Option ℤ) → equal_user a a ≡ true
equal_user_self none = refl
equal_user_self (some a) = equal_id_self a

instance abbrev pub user_equality : Equality (Option ℤ)
user_equality = record {
  equal = equal_user;
  equal_to = equal_user_to;
  equal_self = equal_user_self;
}

-- The parts of a key, which the derived equality compares.
abbrev pub parts : Key → (ℤ × (Option ℤ × (Bool × (Bool × Bool)))) × (Text × Headers)
parts key =
    let v = key.visible in
    (
      (v.library, (v.user, (v.library_read, (v.listening_activity, v.search_activity)))),
      (key.url, key.headers),
    )

pub parts_to : (a b : Key) → equal (parts a) (parts b) ≡ true → a ≡ b
parts_to a b h =
    let p = pair_equality.equal_to (parts a) (parts b) h in
    λ i. record {
      visible = record {
        library = (p i).0.0;
        user = (p i).0.1.0;
        library_read = (p i).0.1.1.0;
        listening_activity = (p i).0.1.1.1.0;
        search_activity = (p i).0.1.1.1.1;
      };
      url = (p i).1.0;
      headers = (p i).1.1;
    }

pub parts_self : (a : Key) → equal (parts a) (parts a) ≡ true
parts_self a = pair_equality.equal_self (parts a)

instance abbrev pub key_equality : Equality Key
key_equality = record {
  equal = λ a b. equal (parts a) (parts b);
  equal_to = parts_to;
  equal_self = parts_self;
}

-- The bytes of a character in UTF-8.
abbrev pub len_utf8 : ℕ → ℕ
len_utf8 c = if ltb c 128 then 1 else if ltb c 2048 then 2 else if ltb c 65536 then 3 else 4

-- `String::len`.
abbrev pub byte_len : Text → ℕ
byte_len [] = 0
byte_len (c ∷ cs) = len_utf8 c + byte_len cs

abbrev pub headers_size : Headers → ℕ
headers_size [] = 0
headers_size ((n, v) ∷ headers) = (byte_len n + byte_len v) + headers_size headers

unfoldable pub key_size : Key → ℕ
key_size key = byte_len key.url + headers_size key.headers

-- `OWN_CACHING`.
abbrev pub own_caching : List Text
own_caching =
    codes "cache-control"
    ∷ codes "pragma"
    ∷ codes "if-match"
    ∷ codes "if-none-match"
    ∷ codes "if-modified-since"
    ∷ codes "if-unmodified-since"
    ∷ codes "if-range"
    ∷ codes "range"
    ∷ []

abbrev pub lower_name : Text × Text → Text × Text
lower_name (name, value) = (to_ascii_lowercase name, value)

abbrev pub same_header : Text × Text → Text × Text
same_header header = header

unfoldable pub new_key : Visible → Text → Headers → Option Key
new_key visible url headers =
    let lowered = map lower_name headers in
    if any (λ h. any (λ n. equal n h.0) own_caching) lowered
    then none
    else some (record { visible = visible; url = url; headers = sort_by same_header lowered })

pub record Reply : Type 0 where
  pub status : ℕ
  pub headers : Headers
  pub body : List ℕ
  pub url : Text
  pub addr : Option IpAddr

abbrev pub value_of : Option (Text × Text) → Option Text
value_of none = none
value_of (some entry) = some entry.1

unfoldable pub header_in : Headers → Text → Option Text
header_in headers name = value_of (find (λ h. equal h.0 name) headers)

unfoldable pub header : Reply → Text → Option Text
header reply name = header_in reply.headers name

abbrev pub or_zero : Option ℕ → ℕ
or_zero none = 0
or_zero (some n) = n

abbrev pub age_of : Option Text → ℕ
age_of none = 0
age_of (some text) = or_zero (parse_u64 (trim text))

unfoldable pub age : Reply → ℕ
age reply = age_of (header reply (codes "age"))

-- The digits of a number, of which a u64 has at most 20.
abbrev pub digits : ℕ → ℕ → Text → Text
digits zero n after = after
digits (suc fuel) n after =
    let more = digits fuel (n / 10) ((48 + n % 10) ∷ after) in
    if ltb n 10 then (48 + n) ∷ after else more

-- `u64::to_string`.
unfoldable pub to_string : ℕ → Text
to_string n = digits 20 n []

unfoldable pub aged : Reply → ℕ → Reply
aged reply kept =
    let older = min (age reply + kept / second) u64_max in
    record reply {
      headers =
          retain (λ h. not (equal h.0 (codes "age"))) reply.headers
          ++ ((codes "age", to_string older) ∷ []);
    }

unfoldable pub reply_size : Reply → ℕ
reply_size reply = length reply.body + byte_len reply.url + headers_size reply.headers

abbrev pub condition : Text → Option Text → Headers
condition name none = []
condition name (some value) = (name, value) ∷ []

unfoldable pub conditions : Reply → Headers
conditions stale =
    condition (codes "if-none-match") (header stale (codes "etag"))
    ++ condition (codes "if-modified-since") (header stale (codes "last-modified"))
