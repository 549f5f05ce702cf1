-- ===== src/Plugins/Rules.antt =====
-- crates/plugins/src/rules.rs: which destinations and addresses a plugin may reach. The parsers of URLs and
-- of addresses are parameters.
pub mod Local
use Prim.Native.Nat.{bit_and}
use music_streaming.Base.{
  ℕ, ◌/◌, ◌%◌, ◌≡◌, Bool, true, false, not, ◌&&◌, ◌||◌, List, [], ◌∷◌, Option, none, some, any, leb,
  ◌==◌, if◌then◌else◌, get_last?,
}
use music_streaming.Base.Equality.{equal, list_equality, nat_equality}
use music_streaming.Plugins.Texts.{Text, codes, eq_ignore_ascii_case}

-- `IpAddr`: the octets of an IPv4 address, the segments of an IPv6 one.
pub data IpAddr : Type 0 where
  v4 : ℕ → ℕ → ℕ → ℕ → IpAddr
  v6 : ℕ → ℕ → ℕ → ℕ → ℕ → ℕ → ℕ → ℕ → IpAddr

pub data Reach : Type 0 where
  public private never : Reach

abbrev pub is_v4 : ℕ → ℕ → ℕ → ℕ → ℕ → ℕ → ℕ → ℕ → Bool
is_v4 a b c d w x y z = a == w && (b == x && (c == y && d == z))

-- `METADATA_V4`.
abbrev pub is_metadata_v4 : ℕ → ℕ → ℕ → ℕ → Bool
is_metadata_v4 a b c d = is_v4 a b c d 100 100 100 200

-- `Ipv4Addr::is_private`.
abbrev pub is_private_v4 : ℕ → ℕ → Bool
is_private_v4 a b = a == 10 || ((a == 172 && (leb 16 b && leb b 31)) || (a == 192 && b == 168))

unfoldable pub reach_v4 : ℕ → ℕ → ℕ → ℕ → Reach
reach_v4 a b c d =
    if a == 127 || ((a == 169 && b == 254) || (a == 0 || is_metadata_v4 a b c d))
    then never
    else if is_private_v4 a b || (a == 100 && bit_and b 192 == 64)
    then private
    else public

abbrev pub are_zero : ℕ → ℕ → ℕ → ℕ → ℕ → Bool
are_zero a b c d e = a == 0 && (b == 0 && (c == 0 && (d == 0 && e == 0)))

-- `METADATA_V6`.
abbrev pub is_metadata_v6 : ℕ → ℕ → ℕ → ℕ → ℕ → ℕ → ℕ → ℕ → Bool
is_metadata_v6 a b c d e f g h = is_v4 a b c d 64768 3778 0 0 && is_v4 e f g h 0 0 0 596

-- Loopback is ::1 and unspecified is ::.
unfoldable pub reach_v6 : ℕ → ℕ → ℕ → ℕ → ℕ → ℕ → ℕ → ℕ → Reach
reach_v6 a b c d e f g h =
    if (are_zero a b c d e && (f == 0 && (g == 0 && (h == 1 || h == 0))))
      || (bit_and a 65472 == 65152 || is_metadata_v6 a b c d e f g h)
    then never
    else if bit_and a 65024 == 64512
    then private
    else public

-- `IpAddr::to_canonical`: an IPv4 address mapped into IPv6 is itself.
unfoldable pub to_canonical : IpAddr → IpAddr
to_canonical (v4 a b c d) = v4 a b c d
to_canonical (v6 a b c d e f g h) =
    if are_zero a b c d e && f == 65535
    then v4 (g / 256) (g % 256) (h / 256) (h % 256)
    else v6 a b c d e f g h

abbrev pub reach_of_canonical : IpAddr → Reach
reach_of_canonical (v4 a b c d) = reach_v4 a b c d
reach_of_canonical (v6 a b c d e f g h) = reach_v6 a b c d e f g h

unfoldable pub reach : IpAddr → Reach
reach ip = reach_of_canonical (to_canonical ip)

unfoldable pub names : Text → List Text → Bool
names host destinations = any (λ d. eq_ignore_ascii_case d host) destinations

unfoldable pub destination_allowed : Text → List Text → Bool
destination_allowed host destinations =
    any (λ d. equal d (codes "*")) destinations || names host destinations

-- `Ok(())` or the reason.
pub data Verdict : Type 0 where
  may private_unnamed no_plugin : Verdict

abbrev pub judge : Reach → Bool → Verdict
judge public named = may
judge private true = may
judge private false = private_unnamed
judge never named = no_plugin

unfoldable pub may_reach : Text → IpAddr → List Text → (IpAddr → Reach) → Verdict
may_reach host ip destinations reach = judge (reach ip) (names host destinations)

-- What is read of a URL that was parsed.
pub record Url : Type 0 where
  pub scheme : Text
  pub host_str : Option Text

pub data Allowed : Type 0 where
  ok : Url → Allowed
  not_a_url wrong_scheme no_host ends_with_dot not_approved : Allowed
  refused : Verdict → Allowed

abbrev pub is_web : Text → Bool
is_web scheme = equal scheme (codes "https") || equal scheme (codes "http")

abbrev pub is_char : Option ℕ → ℕ → Bool
is_char none c = false
is_char (some d) c = d == c

abbrev pub drop_last : Text → Text
drop_last [] = []
drop_last (c ∷ []) = []
drop_last (c ∷ (d ∷ cs)) = c ∷ drop_last (d ∷ cs)

-- `strip_prefix('[')` and then `strip_suffix(']')`, or the host.
unfoldable pub bare : Text → Text
bare [] = []
bare (c ∷ cs) = if c == 91 && is_char (get_last? cs) 93 then drop_last cs else c ∷ cs

abbrev pub of_verdict : Url → Verdict → Allowed
of_verdict url may = ok url
of_verdict url private_unnamed = refused private_unnamed
of_verdict url no_plugin = refused no_plugin

module _ (parse_url : Text → Option Url) (parse_ip : Text → Option IpAddr) where
  -- From the address of the host on.
  abbrev pub allowed_at : Url → Text → Option IpAddr → List Text → (IpAddr → Reach) → Allowed
  allowed_at url host none destinations reach = ok url
  allowed_at url host (some ip) destinations reach =
      of_verdict url (may_reach host ip destinations reach)

  -- From the host on.
  abbrev pub allowed_host : Url → Option Text → List Text → (IpAddr → Reach) → Allowed
  allowed_host url none destinations reach = no_host
  allowed_host url (some host) destinations reach =
      if is_char (get_last? host) 46
      then ends_with_dot
      else if not (destination_allowed host destinations)
      then not_approved
      else allowed_at url host (parse_ip (bare host)) destinations reach

  abbrev pub allowed_url : Option Url → List Text → (IpAddr → Reach) → Allowed
  allowed_url none destinations reach = not_a_url
  allowed_url (some url) destinations reach =
      if not (is_web url.scheme)
      then wrong_scheme
      else allowed_host url url.host_str destinations reach

  unfoldable pub allowed : Text → List Text → (IpAddr → Reach) → Allowed
  allowed text destinations reach = allowed_url (parse_url text) destinations reach

  abbrev pub host_or_empty : Option Text → Text
  host_or_empty none = []
  host_or_empty (some host) = host

  abbrev pub web_host : Option Url → Text
  web_host none = []
  web_host (some url) = if is_web url.scheme then host_or_empty url.host_str else []

  unfoldable pub host_of : Text → Text
  host_of text = web_host (parse_url text)
