-- ===== src/Scanner/Scope.antt =====
-- crates/scanner/src/scope.rs: scopes, the units of scanning work.
pub mod Covers
pub mod Ordered
use music_streaming.Base.{Bool, true, false, not, ◌&&◌, List, Option, none, some, if◌then◌else◌}
use music_streaming.Base.Equality.{equal, list_equality, nat_equality}
use music_streaming.Scanner.Paths.{PathBuf, starts_with, parent}

pub data Depth : Type 0 where
  directory subtree : Depth

pub record Scope : Type 0 where
  pub root : PathBuf
  pub path : PathBuf
  pub depth : Depth

pub root_scope : PathBuf → Scope
root_scope root = record { root = root; path = root; depth = subtree }

pub folder : PathBuf → PathBuf → Depth → Scope
folder root path depth = record { root = root; path = path; depth = depth }

abbrev pub is_directory : Depth → Bool
is_directory directory = true
is_directory subtree = false

-- The match on this scope's depth.
abbrev pub reaches : Depth → Scope → Scope → Bool
reaches subtree scope other = starts_with other.path scope.path
reaches directory scope other = is_directory other.depth && equal other.path scope.path

unfoldable pub covers : Scope → Scope → Bool
covers scope other =
    if not (equal scope.root other.root) then false else reaches scope.depth scope other

abbrev pub is_path : Option PathBuf → PathBuf → Bool
is_path none path = false
is_path (some above) path = equal above path

-- The match of contains_file.
abbrev pub contains_at : Depth → PathBuf → PathBuf → Bool
contains_at subtree folder path = not (equal path folder) && starts_with path folder
contains_at directory folder path = is_path (parent path) folder

unfoldable pub contains_file : Scope → PathBuf → Bool
contains_file scope path = contains_at scope.depth scope.path path

-- The tuple that coalesce_scopes of queue.rs sorts by: root, path, and whether the depth is not Subtree.
abbrev pub scope_key : Scope → PathBuf × (PathBuf × Bool)
scope_key scope = (scope.root, (scope.path, is_directory scope.depth))
