-- ===== src/Scanner/Coalesce.antt =====
-- crates/scanner/src/queue.rs: coalesce_scopes.
pub mod Kept
use music_streaming.Base.{
  Bool, true, false, not, List, [], ◌∷◌, ◌++◌, Option, none, some, if◌then◌else◌, get_last?,
}
use music_streaming.Base.Order.{Order, list_order, nat_order, bool_order, pair_order}
use music_streaming.Base.SortBy.{sort_by}
use music_streaming.Scanner.Paths.{PathBuf}
use music_streaming.Scanner.Scope.{Scope, scope_key, covers}

abbrev pub last_covers : Option Scope → Scope → Bool
last_covers none scope = false
last_covers (some last) scope = covers last scope

-- The loop that fills `out`.
unfoldable pub push_uncovered : List Scope → List Scope → List Scope
push_uncovered out [] = out
push_uncovered out (scope ∷ scopes) =
    let kept = push_uncovered (out ++ (scope ∷ [])) scopes in
    let dropped = push_uncovered out scopes in
    if not (last_covers (get_last? out) scope) then kept else dropped

unfoldable pub coalesce_scopes : List Scope → List Scope
coalesce_scopes scopes = push_uncovered [] (sort_by scope_key scopes)
