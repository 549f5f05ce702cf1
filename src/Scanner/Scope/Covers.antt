-- ===== src/Scanner/Scope/Covers.antt =====
-- What covers of scope.rs promises of the files that contains_file finds.
use music_streaming.Base.{
  ◌≡◌, refl, ap, ◌∙◌, ◌↔◌, [], ◌∷◌, true, false, ◌&&◌, some, Bool-cases, Option-cases, inl, inr,
  append_assoc,
}
use music_streaming.Base.Equality.{
  equal, equal_list_to, equal_list_self, list_equality, nat_equality,
}
use music_streaming.Scanner.Paths.{
  Name, PathBuf, starts_with, parent, join, starts_with-append, starts_with_antisym,
  starts_with_trans, append_differs, starts_with-join, parent-join, parent_split,
}
use music_streaming.Scanner.Scope.{
  Scope, directory, subtree, Depth, covers, contains_file, contains_at, is_directory, is_path,
  reaches,
}

-- A file of a scope lies under its folder, and is not the folder.
under :
    (d : Depth) (above path : PathBuf)
    → contains_at d above path ≡ true
    → (starts_with path above ≡ true) × (equal path above ≡ false)
under subtree above path h = elim (Bool-cases (equal path above)) [
  | inl e ↦ absurd (cc (rw e at h))
  | inr e ↦ (rw e at h, e)
]
under directory above path h = elim (Option-cases (parent path)) [
  | inl e ↦ absurd (cc (rw e at h))
  | inr (found, e) ↦
      let same = equal_list_to found above (rw e at h) in
      let (name, joined) = parent_split path above (e ∙ ap some same) in
      rw joined (starts_with-append above (name ∷ []), append_differs above name [])
]

directory-contains :
    (d : Depth) (from to path : PathBuf)
    → (is_directory d && equal from to) ≡ true
    → contains_at d from path ≡ true
    → contains_at directory to path ≡ true
directory-contains subtree from to path h k = absurd (cc h)
directory-contains directory from to path h k = let same = equal_list_to from to h in rw (← same) k

reaches-contains :
    (d : Depth) (scope other : Scope) (path : PathBuf)
    → reaches d scope other ≡ true
    → contains_at other.depth other.path path ≡ true
    → contains_at d scope.path path ≡ true
reaches-contains subtree scope other path h k =
    let (starts, apart) = under other.depth other.path path k in
    elim (Bool-cases (equal path scope.path)) [
      | inl e ↦
          let same = equal_list_to path scope.path e in
          let back : starts_with other.path path ≡ true = rw same h in
          let one = starts_with_antisym path other.path starts back in
          let self : equal path other.path ≡ true = rw one (equal_list_self other.path) in
          absurd (cc (apart, self))
      | inr e ↦ rw e (starts_with_trans path other.path scope.path starts h)
    ]
reaches-contains directory scope other path h k =
    directory-contains other.depth other.path scope.path path h k

-- A name that a file may have.
abbrev some_name : Name
some_name = 97 ∷ []

contains-join : (d : Depth) (path : PathBuf) → contains_at d path (join path some_name) ≡ true
contains-join subtree path =
    rw (append_differs path some_name [], starts_with-append path (some_name ∷ [])) refl
contains-join directory path = rw (parent-join path some_name, is_path) (equal_list_self path)

contains-join-join :
    (path : PathBuf) → contains_at subtree path (join (join path some_name) some_name) ≡ true
contains-join-join path =
    let whole = append_assoc path (some_name ∷ []) (some_name ∷ []) in
    rw
      (
        whole,
        append_differs path some_name (some_name ∷ []),
        starts_with-append path (some_name ∷ (some_name ∷ [])),
      )
      refl

directory-reaches :
    (d : Depth) (from to : PathBuf)
    → ((path : PathBuf) → contains_at d from path ≡ true → contains_at directory to path ≡ true)
    → (is_directory d && equal from to) ≡ true
directory-reaches directory from to all =
    rw (parent-join from some_name, is_path) at
      (all (join from some_name) (contains-join directory from))
directory-reaches subtree from to all =
    let near : equal from to ≡ true =
      rw (parent-join from some_name, is_path) at
        (all (join from some_name) (contains-join subtree from)) in
    let far : equal (join from some_name) to ≡ true =
      rw (parent-join (join from some_name) some_name, is_path) at
        (all (join (join from some_name) some_name) (contains-join-join from)) in
    let same = equal_list_to from to near in
    absurd (cc (far, same, append_differs from some_name []))

contains-reaches :
    (d : Depth) (scope other : Scope)
    → ((path : PathBuf)
        → contains_at other.depth other.path path ≡ true
        → contains_at d scope.path path ≡ true)
    → reaches d scope other ≡ true
contains-reaches subtree scope other all =
    let found =
      under subtree scope.path (join other.path some_name)
        (all (join other.path some_name) (contains-join other.depth other.path)) in
    starts_with-join other.path scope.path some_name found.0 found.1
contains-reaches directory scope other all = directory-reaches other.depth other.path scope.path all

-- Every file that the other scope visits is visited by this one.
abbrev pub FindsAll : Scope → Scope → Type 0
FindsAll scope other =
    (path : PathBuf) → contains_file other path ≡ true → contains_file scope path ≡ true

-- One scope covers another exactly when they have the same root and it visits every file that the
-- other visits, files being paths with any names.
pub covers_iff :
    (scope other : Scope)
    → (covers scope other ≡ true) ↔ ((scope.root ≡ other.root) × FindsAll scope other)
unfolding covers contains_file
covers_iff scope other = (forward, back)
  where
    forward : covers scope other ≡ true → (scope.root ≡ other.root) × FindsAll scope other
    forward h = elim (Bool-cases (equal scope.root other.root)) [
      | inl e ↦ (
        equal_list_to scope.root other.root e,
        λ path k. reaches-contains scope.depth scope other path (rw e at h) k,
      )
      | inr e ↦ absurd (cc (rw e at h))
    ]

    back : (scope.root ≡ other.root) × FindsAll scope other → covers scope other ≡ true
    back (same, all) =
        let e : equal scope.root other.root ≡ true = rw same (equal_list_self other.root) in
        rw e (contains-reaches scope.depth scope other all)
