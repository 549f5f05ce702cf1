-- ===== src/Scanner/Tests.antt =====
-- The theorems on the scanner at the scopes of queue.rs's own tests, on a store that keeps the next
-- id and the rows that it saved.
use mathlib.Core.List.{Pairwise}
use mathlib.Core.Option.{some-injective}
use music_streaming.Base.{
  ℕ, suc, pos, ◌≡◌, refl, sym, ap, ◌∙◌, ◌↔◌, List, [], ◌∷◌, true, some, none, any, all,
}
use music_streaming.Base.Order.{list_order, nat_order, bool_order, pair_order}
use music_streaming.Base.SortBy.{sort_by, insert_by}
use music_streaming.Base.Equality.{list_equality, nat_equality}
use music_streaming.Scanner.Paths.{PathBuf, starts_with, parent}
use music_streaming.Scanner.Scope.{Scope, directory, subtree, covers, contains_file}
use music_streaming.Scanner.Scope.Covers.{covers_iff, FindsAll}
use music_streaming.Scanner.Coalesce.{coalesce_scopes, push_uncovered}
use music_streaming.Scanner.Coalesce.Kept.{IsApart, coalesce_scopes-Pairwise}
use music_streaming.Scanner.Scan as Scans
use music_streaming.Scanner.Scan.{manual, Scan, new_scan}
use music_streaming.Scanner.Requests.{
  Queue, Retry, Store, Creates, request, covering, created, enqueue, run_turn, took,
}
use music_streaming.Scanner.Requests.Awaited.{visits, Pending, request-Pending}
use music_streaming.Scanner.Requests.Steps.{
  IsAwaited, in_retry, requested, turned, retried, stays, follows, after, Steps-IsAwaited,
}

abbrev music : PathBuf
music = (109 ∷ []) ∷ []

abbrev album : PathBuf
album = (109 ∷ []) ∷ (97 ∷ []) ∷ []

abbrev song : PathBuf
song = (109 ∷ []) ∷ (97 ∷ []) ∷ (49 ∷ []) ∷ []

abbrev whole : Scope
whole = record { root = music; path = music; depth = subtree }

abbrev in_music : Scope
in_music = record { root = music; path = music; depth = directory }

abbrev in_album : Scope
in_album = record { root = music; path = album; depth = directory }

covers_test : covers whole in_album ≡ true
unfolding covers starts_with
covers_test = refl

coalesce_test : coalesce_scopes (in_album ∷ whole ∷ in_album ∷ []) ≡ whole ∷ []
unfolding coalesce_scopes push_uncovered sort_by insert_by covers starts_with
coalesce_test = refl

covers_iff_example :
    (covers whole in_album ≡ true) ↔ ((whole.root ≡ in_album.root) × FindsAll whole in_album)
covers_iff_example = covers_iff whole in_album

coalesce_scopes-Pairwise_example :
    Pairwise IsApart (coalesce_scopes (in_album ∷ whole ∷ []))
    × (all
          (λ s. any (λ kept. covers kept s) (coalesce_scopes (in_album ∷ whole ∷ [])))
          (in_album ∷ whole ∷ [])
        ≡ true)
    × (all
          (λ kept. any (λ s. covers s kept) (in_album ∷ whole ∷ []))
          (coalesce_scopes (in_album ∷ whole ∷ []))
        ≡ true)
coalesce_scopes-Pairwise_example = coalesce_scopes-Pairwise (in_album ∷ whole ∷ [])

abbrev rows : Store (ℕ × List Scan)
rows = record {
  create_scan = λ s library trigger scopes.
      ((suc s.0, s.1), some (new_scan (pos s.0) library trigger scopes));
  update_scan = λ s scan. ((s.0, scan ∷ s.1), true);
  now_ms = λ s. pos 0;
}

rows-Creates : Creates rows
rows-Creates s library trigger scopes scan e =
    let same = some-injective (new_scan (pos s.0) library trigger scopes) scan e in
    sym same ∙ ap (λ x. new_scan x.id library trigger scopes) same

abbrev empty : Queue
empty = record { queued = []; running = none; retry = none }

created_row : (request rows (pos 1) empty (1, []) manual (in_album ∷ [])).1 ≡ some (pos 1)
unfolding request covering created
created_row = refl

song_found : visits (in_album ∷ []) song ≡ true
unfolding contains_file parent
song_found = refl

request-Pending_example :
    Pending (request rows (pos 1) empty (1, []) manual (in_album ∷ [])).0.0 (pos 1) song
request-Pending_example =
    request-Pending rows (pos 1) rows-Creates empty (1, []) manual (in_album ∷ []) (pos 1) song
      created_row song_found

-- A retry of the album that has come due.
abbrev waiting : Queue
waiting = record {
  queued = [];
  running = none;
  retry = some (record { due = 5; trigger = manual; scopes = in_album ∷ [] });
}

abbrev in_hand_retry : Retry
in_hand_retry = record { due = 5; trigger = manual; scopes = in_album ∷ [] }

retry_taken : run_turn waiting 7 ≡ took in_hand_retry empty
unfolding run_turn
retry_taken = refl

-- Another thread's request comes between the taking of the retry and the request of it.
abbrev other_asked : Queue
other_asked = (request rows (pos 1) empty (1, []) manual (in_music ∷ [])).0.0

retry_made : (request rows (pos 1) other_asked (2, []) manual (in_album ∷ [])).1 ≡ some (pos 2)
unfolding request covering created covers starts_with Scans.covers enqueue coalesce_scopes
    push_uncovered sort_by
retry_made = refl

Steps-IsAwaited_example :
    IsAwaited ((request rows (pos 1) other_asked (2, []) manual (in_album ∷ [])).0.0, none) song
unfolding run_turn after
Steps-IsAwaited_example =
    Steps-IsAwaited rows (pos 1) rows-Creates song
      (follows
        (follows (follows (stays (waiting, none)) (turned waiting 7 refl))
          (requested empty (some in_hand_retry) (1, []) manual (in_music ∷ [])))
        (retried other_asked in_hand_retry (2, []) (pos 2) retry_made))
      (in_retry in_hand_retry refl song_found)
