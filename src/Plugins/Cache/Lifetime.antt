-- ===== src/Plugins/Cache/Lifetime.antt =====
-- crates/plugins/src/network/cache.rs: lifetime, how long a reply may be reused without asking again.
use music_streaming.Base.{
  ℕ, ◌-◌, ◌*◌, ◌^◌, min, Bool, not, ◌||◌, List, [], ◌∷◌, ◌++◌, Option, none, some, map, retain, any,
  find, length, ltb, ◌==◌, if◌then◌else◌, is_some, Option-bind,
}
use music_streaming.Base.Equality.{equal, list_equality, nat_equality}
use music_streaming.Plugins.Cache.Entries.{Reply, Headers, header, age, second}
use music_streaming.Plugins.Texts.{
  Text, codes, trim, trim_matches, split, split_once, parse_u64, to_ascii_lowercase,
}

abbrev pub max_entry : ℕ
max_entry = 2 * 2 ^ 20

abbrev pub max_lifetime : ℕ
max_lifetime = 24 * 60 * 60 * second

abbrev pub statuses : List ℕ
statuses = 200 ∷ 203 ∷ 204 ∷ 300 ∷ 301 ∷ 404 ∷ 410 ∷ []

-- The closure `all`: the values of every header of the name.
abbrev pub all_values : Headers → Text → List Text
all_values headers name = map (λ h. h.1) (retain (λ h. equal h.0 name) headers)

abbrev pub Directive : Type 0
Directive = Text × Option Text

abbrev pub directive_of : Text → Option (Text × Text) → Directive
directive_of directive none = (to_ascii_lowercase (trim directive), none)
directive_of directive (some (name, value)) =
    (to_ascii_lowercase (trim name), some (trim_matches 34 (trim value)))

abbrev pub directives_in : List Text → List Directive
directives_in [] = []
directives_in (value ∷ values) =
    map (λ d. directive_of d (split_once 61 d)) (split 44 value) ++ directives_in values

unfoldable pub directives : Reply → List Directive
directives reply = directives_in (all_values reply.headers (codes "cache-control"))

unfoldable pub has : List Directive → Text → Bool
has given name = any (λ d. equal d.0 name) given

abbrev pub value_of_directive : Option Directive → Option Text
value_of_directive none = none
value_of_directive (some directive) = directive.1

abbrev pub in_seconds : Option ℕ → Option ℕ
in_seconds none = none
in_seconds (some n) = some (n * second)

unfoldable pub seconds : List Directive → Text → Option ℕ
seconds given name =
    in_seconds (Option-bind (value_of_directive (find (λ d. equal d.0 name) given)) parse_u64)

abbrev pub or_else : Option ℕ → Option ℕ → Option ℕ
or_else none other = other
or_else (some n) other = some n

abbrev pub unwrap_or : Option ℕ → ℕ → ℕ
unwrap_or none other = other
unwrap_or (some n) other = n

-- A reply that nothing lets the cache keep, before its own directives are read.
unfoldable pub is_unkept : Reply → Bool
is_unkept reply =
    (not (any (λ s. s == reply.status) statuses) || ltb max_entry (length reply.body))
    || (is_some (header reply (codes "set-cookie"))
        || any (λ v. equal (trim v) (codes "*")) (all_values reply.headers (codes "vary")))

unfoldable pub is_private : Reply → Bool
is_private reply =
    has (directives reply) (codes "no-store") || has (directives reply) (codes "private")

module _ (http_date : Text → Option ℕ) where
  abbrev pub until_expires : Option Text → Reply → ℕ → ℕ
  until_expires none reply clock = 0
  until_expires (some expires) reply clock =
      unwrap_or (http_date expires) 0
      - unwrap_or (Option-bind (header reply (codes "date")) http_date) clock

  abbrev pub of_max_age : Option ℕ → Reply → ℕ → ℕ
  of_max_age (some max_age) reply clock = max_age
  of_max_age none reply clock = until_expires (header reply (codes "expires")) reply clock

  -- What the reply's directives, or else its dates, allow from when it was sent.
  unfoldable pub allowed_for : Reply → ℕ → ℕ
  allowed_for reply clock =
      let given = directives reply in
      if has given (codes "no-cache")
      then 0
      else of_max_age (or_else (seconds given (codes "s-maxage")) (seconds given (codes "max-age")))
          reply clock

  unfoldable pub lifetime : Reply → ℕ → Option ℕ
  lifetime reply clock =
      let left = min (allowed_for reply clock - age reply * second) max_lifetime in
      let validated =
        is_some (header reply (codes "etag")) || is_some (header reply (codes "last-modified")) in
      if is_unkept reply
      then none
      else if is_private reply
      then none
      else if ltb 0 left || validated
      then some left
      else none
