-- ===== src/Plugins/Rules/Local.antt =====
-- crates/plugins/src/rules.rs: the ranges of addresses that it keeps plugins from, written out.
use Prim.Native.Nat.{bit_and}
use mathlib.Core.Option.{some-injective}
use music_streaming.Base.{
  ℕ, zero, suc, ◌+◌, ◌*◌, ◌&&◌, ◌==◌, ◌/◌, ◌%◌, ◌<◌, ◌≡◌, refl, sym, ap, subst, ◌∙◌, ◌≢◌, Bool,
  true, false, List, [], ◌⊎◌, Option-cases, Option, none, some, get_last?, Bool-cases, inl, inr,
  arith, ltb, ltb→lt,
}
use music_streaming.Plugins.Texts.{Text}
use music_streaming.Plugins.Rules.{
  IpAddr, v4, v6, Reach, public, private, never, reach, reach_v4, reach_v6, to_canonical, Verdict,
  may, private_unnamed, no_plugin, may_reach, judge, names, Url, Allowed, ok, not_a_url,
  wrong_scheme, no_host, ends_with_dot, not_approved, refused, allowed, allowed_host, allowed_at,
  of_verdict, is_web, is_char, bare, destination_allowed,
}

-- Unspecified, loopback, link-local and cloud metadata addresses, IPv4 ones also as IPv6 writes them:
-- 0.0.0.0/8, 127.0.0.0/8, 169.254.0.0/16, 100.100.100.200, ::, ::1, fe80::/10 and fd00:ec2::254.
pub data IsLocal : IpAddr → Type 0 where
  this_network : (b c d : ℕ) → IsLocal (v4 0 b c d)
  loopback : (b c d : ℕ) → IsLocal (v4 127 b c d)
  link : (c d : ℕ) → IsLocal (v4 169 254 c d)
  metadata : IsLocal (v4 100 100 100 200)
  unspecified_v6 : IsLocal (v6 0 0 0 0 0 0 0 0)
  loopback_v6 : IsLocal (v6 0 0 0 0 0 0 0 1)
  link_v6 : (k b c d e f g h : ℕ) → k < 64 → IsLocal (v6 (65152 + k) b c d e f g h)
  metadata_v6 : IsLocal (v6 64768 3778 0 0 0 0 0 596)
  mapped :
      (a b c d : ℕ)
      → b < 256
      → d < 256
      → IsLocal (v4 a b c d)
      → IsLocal (v6 0 0 0 0 0 65535 (a * 256 + b) (c * 256 + d))

-- Private networks, shared address space and unique local addresses, IPv4 ones also as IPv6 writes them:
-- 10.0.0.0/8, 172.16.0.0/12, 192.168.0.0/16, 100.64.0.0/10 and fc00::/7.
pub data IsPrivate : IpAddr → Type 0 where
  ten : (b c d : ℕ) → IsPrivate (v4 10 b c d)
  sixteen : (k c d : ℕ) → k < 16 → IsPrivate (v4 172 (16 + k) c d)
  home : (c d : ℕ) → IsPrivate (v4 192 168 c d)
  shared : (k c d : ℕ) → k < 64 → IsPrivate (v4 100 (64 + k) c d)
  unique_local : (k b c d e f g h : ℕ) → k < 512 → IsPrivate (v6 (64512 + k) b c d e f g h)
  mapped_private :
      (a b c d : ℕ)
      → b < 256
      → d < 256
      → IsPrivate (v4 a b c d)
      → IsPrivate (v6 0 0 0 0 0 65535 (a * 256 + b) (c * 256 + d))

-- A test on the numbers below a bound.
abbrev all_below : (ℕ → Bool) → ℕ → Bool
all_below p zero = true
all_below p (suc n) = p n && all_below p n

all_below-at : (p : ℕ → Bool) (n k : ℕ) → all_below p n ≡ true → k < n → p k ≡ true
all_below-at p zero k e h = absurd (omega arith)
all_below-at p (suc n) k e h = elim (Bool-cases (ltb k n)) [
  | inl less ↦
      let rest : all_below p n ≡ true = ground arith in all_below-at p n k rest (ltb→lt k n less)
  | inr last ↦
      let same : n ≡ k = ground arith in
      let at_n : p n ≡ true = ground arith in subst (λ j. p j ≡ true) (same) at_n
]

masked_link : (k : ℕ) → k < 64 → (bit_and (65152 + k) 65472 == 65152) ≡ true
masked_link k h = all_below-at (λ k. bit_and (65152 + k) 65472 == 65152) 64 k refl h

masked_shared : (k : ℕ) → k < 64 → (bit_and (64 + k) 192 == 64) ≡ true
masked_shared k h = all_below-at (λ k. bit_and (64 + k) 192 == 64) 64 k refl h

masked_unique : (k : ℕ) → k < 512 → (bit_and (64512 + k) 65024 == 64512) ≡ true
masked_unique k h = all_below-at (λ k. bit_and (64512 + k) 65024 == 64512) 512 k refl h

-- The IPv4 address that is mapped into an IPv6 one is judged as itself.
reach-mapped :
    (a b c d : ℕ)
    → b < 256
    → d < 256
    → reach (v6 0 0 0 0 0 65535 (a * 256 + b) (c * 256 + d)) ≡ reach (v4 a b c d)
unfolding reach to_canonical
reach-mapped a b c d hb hd =
    let ga : (a * 256 + b) / 256 ≡ a = omega arith in
    let gb : (a * 256 + b) % 256 ≡ b = omega arith in
    let gc : (c * 256 + d) / 256 ≡ c = omega arith in
    let gd : (c * 256 + d) % 256 ≡ d = omega arith in rw (ga, gb, gc, gd) refl

pub reach-IsLocal : (ip : IpAddr) → IsLocal ip → reach ip ≡ never
unfolding reach to_canonical reach_v4 reach_v6
reach-IsLocal ip (this_network b c d) = refl
reach-IsLocal ip (loopback b c d) = refl
reach-IsLocal ip (link c d) = refl
reach-IsLocal ip metadata = refl
reach-IsLocal ip unspecified_v6 = refl
reach-IsLocal ip loopback_v6 = refl
reach-IsLocal ip (link_v6 k b c d e f g h l) = ground (arith, masked_link k l)
reach-IsLocal ip metadata_v6 = refl
reach-IsLocal ip (mapped a b c d hb hd local) =
    reach-mapped a b c d hb hd ∙ reach-IsLocal (v4 a b c d) local

reach-IsPrivate : (ip : IpAddr) → IsPrivate ip → reach ip ≢ public
unfolding reach to_canonical reach_v4 reach_v6
reach-IsPrivate ip (ten b c d) e = cc e
reach-IsPrivate ip (sixteen k c d l) e = ground arith
reach-IsPrivate ip (home c d) e = cc e
reach-IsPrivate ip (shared k c d l) e = ground (arith, masked_shared k l)
reach-IsPrivate ip (unique_local k b c d e f g h l) same = ground (arith, masked_unique k l)
reach-IsPrivate ip (mapped_private a b c d hb hd inner) e =
    reach-IsPrivate (v4 a b c d) inner (sym (reach-mapped a b c d hb hd) ∙ e)

abbrev no_url : Url
no_url = record { scheme = []; host_str = none }

abbrev url_of : Allowed → Url
url_of (ok url) = url
url_of not_a_url = no_url
url_of wrong_scheme = no_url
url_of no_host = no_url
url_of ends_with_dot = no_url
url_of not_approved = no_url
url_of (refused verdict) = no_url

may_of :
    (url url' : Url) (verdict : Verdict)
    → of_verdict url verdict ≡ ok url'
    → (verdict ≡ may) × (url ≡ url')
may_of url url' may e = (refl, ap url_of e)
may_of url url' private_unnamed e = absurd (cc e)
may_of url url' no_plugin e = absurd (cc e)

judge-may :
    (reach : Reach) (named : Bool) → judge reach named ≡ may → (reach ≡ public) ⊎ (named ≡ true)
judge-may public named e = inl refl
judge-may private true e = inr refl
judge-may private false e = absurd (cc e)
judge-may never named e = absurd (cc e)

judge-never : (reach : Reach) (named : Bool) → judge reach named ≡ may → reach ≢ never
judge-never public named e same = cc same
judge-never private named e same = cc same
judge-never never named e same = cc e

module _ (parse_url : Text → Option Url) (parse_ip : Text → Option IpAddr) where
  allowed_host-ok :
      (url url' : Url) (host : Text) (destinations : List Text) (reach : IpAddr → Reach)
      → allowed_host parse_url parse_ip url (some host) destinations reach ≡ ok url'
      → allowed_at parse_url parse_ip url host (parse_ip (bare host)) destinations reach ≡ ok url'
  allowed_host-ok url url' host destinations reach e =
      elim (Bool-cases (is_char (get_last? host) 46)) [
        | inl dot ↦ absurd (cc (rw dot at e))
        | inr plain ↦ elim (Bool-cases (destination_allowed host destinations)) [
          | inl listed ↦ rw (plain, listed) at e
          | inr other ↦ absurd (cc (rw (plain, other) at e))
        ]
      ]

  allowed_at-same :
      (url url' : Url) (host : Text) (o : Option IpAddr) (destinations : List Text)
      (reach : IpAddr → Reach)
      → allowed_at parse_url parse_ip url host o destinations reach ≡ ok url'
      → url ≡ url'
  allowed_at-same url url' host none destinations reach e = ap url_of e
  allowed_at-same url url' host (some ip) destinations reach e =
      (may_of url url' (may_reach host ip destinations reach) e).1

  allowed_at-may :
      (url url' : Url) (host : Text) (ip : IpAddr) (o : Option IpAddr) (destinations : List Text)
      (reach : IpAddr → Reach)
      → o ≡ some ip
      → allowed_at parse_url parse_ip url host o destinations reach ≡ ok url'
      → may_reach host ip destinations reach ≡ may
  allowed_at-may url url' host ip o destinations reach is e =
      let at : of_verdict url (may_reach host ip destinations reach) ≡ ok url' = rw is at e in
      (may_of url url' (may_reach host ip destinations reach) at).0

  allowed-at :
      (text : Text) (url : Url) (host : Text) (ip : IpAddr) (destinations : List Text)
      (reach : IpAddr → Reach)
      → allowed parse_url parse_ip text destinations reach ≡ ok url
      → url.host_str ≡ some host
      → parse_ip (bare host) ≡ some ip
      → may_reach host ip destinations reach ≡ may
  unfolding allowed
  allowed-at text url host ip destinations reach e named parsed =
      elim (Option-cases (parse_url text)) [
        | inl bad ↦ absurd (cc (rw bad at e))
        | inr (found, is) ↦ elim (Bool-cases (is_web found.scheme)) [
          | inr other ↦ absurd (cc (rw (is, other) at e))
          | inl web ↦ elim (Option-cases found.host_str) [
            | inl missing ↦ absurd (cc (rw (is, web, missing) at e))
            | inr (host', has) ↦
                let placed = allowed_host-ok found url host' destinations reach (
                  subst (λ o. allowed_host parse_url parse_ip found o destinations reach ≡ ok url)
                    has (rw (is, web) at e)) in
                let same =
                  allowed_at-same found url host' (parse_ip (bare host')) destinations reach
                    placed in
                let one =
                  some-injective host' host (sym has ∙ (ap (λ u. u.host_str) same ∙ named)) in
                let address : parse_ip (bare host') ≡ some ip =
                  ap (λ h. parse_ip (bare h)) one ∙ parsed in
                rw one at (
                  allowed_at-may found url host' ip (parse_ip (bare host')) destinations reach
                    address placed)
          ]
        ]
      ]

  -- Where a URL that is allowed has a host written as an address, the address is not unspecified,
  -- loopback, link-local or cloud metadata, IPv4 mapped into IPv6 included; and it is public and
  -- in no private network, shared address space or unique local range, unless a destination names
  -- the host.
  pub allowed-IsLocal :
      (text : Text) (url : Url) (host : Text) (ip : IpAddr) (destinations : List Text)
      → allowed parse_url parse_ip text destinations reach ≡ ok url
      → url.host_str ≡ some host
      → parse_ip (bare host) ≡ some ip
      → (¬ IsLocal ip)
        × (((reach ip ≡ public) × (¬ IsPrivate ip)) ⊎ (names host destinations ≡ true))
  unfolding may_reach
  allowed-IsLocal text url host ip destinations e named parsed =
      let judged = allowed-at text url host ip destinations reach e named parsed in
      (
        (λ local. judge-never (reach ip) (names host destinations) judged (reach-IsLocal ip local)),
        elim (judge-may (reach ip) (names host destinations) judged) [
          | inl reached ↦ inl (reached, λ inside. reach-IsPrivate ip inside reached)
          | inr by_name ↦ inr by_name
        ],
      )
