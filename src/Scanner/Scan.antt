-- ===== src/Scanner/Scan.antt =====
-- crates/scanner/src/scan/row.rs: a scan as the store keeps it.
use music_streaming.Base.{ℤ, pos, Bool, List, Option, none, any, all}
use music_streaming.Scanner.Paths.{PathBuf}
use music_streaming.Scanner.Scope as Scopes
use music_streaming.Scanner.Scope.{Scope}

pub data Trigger : Type 0 where
  initial watch scheduled manual reconfigure restore : Trigger

pub data ScanState : Type 0 where
  queued running completed cancelled suspended : ScanState

pub record ScanProgress : Type 0 where
  pub files_seen : ℤ
  pub files_processed : ℤ
  pub added : ℤ
  pub updated : ℤ
  pub moved : ℤ
  pub missing : ℤ
  pub problems : ℤ
  pub current_path : Option PathBuf

abbrev pub no_progress : ScanProgress
no_progress = record {
  files_seen = pos 0;
  files_processed = pos 0;
  added = pos 0;
  updated = pos 0;
  moved = pos 0;
  missing = pos 0;
  problems = pos 0;
  current_path = none;
}

pub record Cursor : Type 0 where
  pub scope_index : ℤ
  pub after_directory : Option PathBuf

pub record Scan : Type 0 where
  pub id : ℤ
  pub library : ℤ
  pub trigger : Trigger
  pub scopes : List Scope
  pub state : ScanState
  pub started_at : Option ℤ
  pub finished_at : Option ℤ
  pub progress : ScanProgress
  pub cursor : Option Cursor

-- `Scan::queued`.
abbrev pub new_scan : ℤ → ℤ → Trigger → List Scope → Scan
new_scan id library trigger scopes = record {
  id = id;
  library = library;
  trigger = trigger;
  scopes = scopes;
  state = queued;
  started_at = none;
  finished_at = none;
  progress = no_progress;
  cursor = none;
}

unfoldable pub covers : Scan → List Scope → Bool
covers scan other = all (λ o. any (λ s. Scopes.covers s o) scan.scopes) other
