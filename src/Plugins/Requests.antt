-- ===== src/Plugins/Requests.antt =====
-- crates/plugins/src/host/http.rs: the queues that a run's request to a host waits in, from its grants.
pub mod Spaced
mod Tests
use music_streaming.Base.{
  ℕ, ℤ, Bool, true, false, not, List, [], ◌∷◌, ◌++◌, Option, none, some, find, max, if◌then◌else◌,
}
use music_streaming.Base.Equality.{equal, list_equality, nat_equality}
use music_streaming.Plugins.Scopes.{
  Scope, host as the_host, plugin as the_plugin, user as the_user, scope_equality,
}
use music_streaming.Plugins.Texts.{Text}

pub data Per : Type 0 where
  per_plugin per_user per_host : Per

-- A rate limit of the manifest, without its text, which requests do not read.
pub record RateLimit : Type 0 where
  pub host : Text
  pub gap : ℕ
  pub per : Per

-- What requests read of a run's grants; `host_rate_limits` is whether the permission is among them.
pub record Grants : Type 0 where
  pub plugin : Text
  pub user : Option ℤ
  pub host_rate_limits : Bool
  pub rate_limits : List RateLimit
  pub host_limits : List (Text × ℕ)

abbrev pub gap_of_entry : Option (Text × ℕ) → Option ℕ
gap_of_entry none = none
gap_of_entry (some entry) = some entry.1

unfoldable pub host_limit : Grants → Text → Option ℕ
host_limit grants host = gap_of_entry (find (λ entry. equal entry.0 host) grants.host_limits)

-- The match of `own`, in a run for no user and in one for a user.
abbrev pub scope_of_plugin : Grants → ℕ → Scope × ℕ
scope_of_plugin grants gap = (the_plugin grants.plugin, gap)

abbrev pub scope_of_user : Grants → Option ℤ → ℕ → Scope × ℕ
scope_of_user grants none gap = scope_of_plugin grants gap
scope_of_user grants (some id) gap = (the_user grants.plugin id, gap)

abbrev pub scope_of_host : Grants → Bool → Option ℕ → ℕ → Scope × ℕ
scope_of_host grants true (some host_gap) gap = (the_host, max host_gap gap)
scope_of_host grants true none gap = scope_of_plugin grants gap
scope_of_host grants false limit gap = scope_of_plugin grants gap

abbrev pub scope_per : Per → Grants → Option ℕ → ℕ → Scope × ℕ
scope_per per_host grants limit gap = scope_of_host grants grants.host_rate_limits limit gap
scope_per per_user grants limit gap = scope_of_user grants grants.user gap
scope_per per_plugin grants limit gap = scope_of_plugin grants gap

abbrev pub own_scope : Grants → Option RateLimit → Option ℕ → Scope × ℕ
own_scope grants none limit = scope_of_plugin grants 0
own_scope grants (some declared) limit = scope_per declared.per grants limit declared.gap

unfoldable pub own : Grants → Text → Scope × ℕ
own grants host =
    own_scope grants (find (λ limit. equal limit.host host) grants.rate_limits)
      (host_limit grants host)

-- The host's queue, unless it is the run's own.
abbrev pub shared : Scope → Option ℕ → List (Scope × ℕ)
shared scope none = []
shared scope (some gap) = if not (equal the_host scope) then (the_host, gap) ∷ [] else []

unfoldable pub queues : Grants → Text → List (Scope × ℕ)
queues grants host = own grants host ∷ shared (own grants host).0 (host_limit grants host)
