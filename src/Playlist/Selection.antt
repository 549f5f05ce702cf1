-- ===== src/Playlist/Selection.antt =====
-- playlist.rs, `selection`: which lists of positions it accepts, and what it returns.
use mathlib.Core.List.{Mem, Nodup, mem-cons, not-mem-nil, mem-cons_self, Nodup-cons}
use mathlib.Core.List.{mem-cons_of_mem}
use mathlib.Core.List.Perm
use mathlib.Core.Logic.Or
use native.Mathlib.Bridge.{le_prop}
use music_streaming.Base.{ℕ, suc, ◌≤◌, ◌<◌, ◌≡◌, ◌≢◌, ◌↔◌, refl, List, [], ◌∷◌, Perm, arith, All}
use music_streaming.Base.Sorting.{sort, insert_sorted_ahead, IsSorted, sort-IsSorted, sort-perm}
use music_streaming.Base.Positions.{IsAscending, IsAscending-Nodup}
use music_streaming.Playlist.{ok, check_next, check_all, selection}

abbrev pub Below : ℕ → List ℕ → Type 0
Below n = All (λ p. p < n)

check_next_sound :
    (b : ℕ) (xs : List ℕ) (n : ℕ)
    → IsSorted b xs
    → check_next b xs n ≡ ok tt
    → IsAscending (suc b) xs × Below n xs
unfolding check_next
check_next_sound b [] n s h = (tt, tt)
check_next_sound b (x ∷ xs) n s h = ground (arith, check_next_sound x xs n)

check_all_sound :
    (xs : List ℕ) (n : ℕ) → IsSorted 0 xs → check_all xs n ≡ ok tt → IsAscending 0 xs × Below n xs
unfolding check_all
check_all_sound [] n s h = (tt, tt)
check_all_sound (x ∷ xs) n s h = ground (arith, check_next_sound x xs n)

check_next_complete :
    (b : ℕ) (xs : List ℕ) (n : ℕ) → IsAscending (suc b) xs → Below n xs → check_next b xs n ≡ ok tt
unfolding check_next
check_next_complete b [] n a l = refl
check_next_complete b (x ∷ xs) n a l = ground (arith, check_next_complete x xs n)

check_all_complete : (xs : List ℕ) (n : ℕ) → IsAscending 0 xs → Below n xs → check_all xs n ≡ ok tt
unfolding check_all
check_all_complete [] n a l = refl
check_all_complete (x ∷ xs) n a l = ground (arith, check_next_complete x xs n)

Nodup-IsAscending : (b : ℕ) (xs : List ℕ) → IsSorted b xs → Nodup xs → IsAscending b xs
Nodup-IsAscending b [] s d = tt
Nodup-IsAscending b (x ∷ []) s d = (s.0, tt)
Nodup-IsAscending b (x ∷ (y ∷ r)) s d =
    let ih = Nodup-IsAscending x (y ∷ r) s.1 (Nodup-cons.0 d).1 in
    let apart : x ≢ y = λ e. (Nodup-cons.0 d).0 (rw e mem-cons_self) in
    (s.0, (omega (arith, apart), ih.1))

Below-mem : {n y : ℕ} (xs : List ℕ) → Below n xs → Mem y xs → y < n
Below-mem [] l m = absurd (not-mem-nil m)
Below-mem (x ∷ xs) l m = Or.elim le_prop (mem-cons.0 m) (λ e. rw e l.0) (Below-mem xs l.1)

mem-Below : {n : ℕ} (xs : List ℕ) → ((y : ℕ) → Mem y xs → y < n) → Below n xs
mem-Below [] h = tt
mem-Below (x ∷ xs) h = (h x mem-cons_self, mem-Below xs (λ y m. h y (mem-cons_of_mem x m)))

sort_ascending : (b : ℕ) (xs : List ℕ) → IsAscending b xs → sort xs ≡ xs
unfolding sort
sort_ascending b [] a = refl
sort_ascending b (x ∷ []) a = refl
sort_ascending b (x ∷ (y ∷ r)) a =
    rw (sort_ascending (suc x) (y ∷ r) a.1) (insert_sorted_ahead x y r (omega arith))

-- What a remove or a move asks of its positions: some, all in the list, no two the same.
pub record IsSelection (positions : List ℕ) (n : ℕ) : Type 0 where
  pub some_given : positions ≢ []
  pub in_range : (p : ℕ) → Mem p positions → p < n
  pub distinct : Nodup positions

pub selection-eq-sort :
    (ps : List ℕ) (n : ℕ) {s : List ℕ}
    → selection ps n ≡ ok s
    → (s ≡ sort ps) × (ps ≢ []) × (check_all (sort ps) n ≡ ok tt)
unfolding selection
selection-eq-sort [] n h = ground arith
selection-eq-sort (p ∷ rest) n h = (ground arith, (λ e. cc), ground arith)

pub selection-IsAscending :
    (ps : List ℕ) (n : ℕ) {s : List ℕ}
    → selection ps n ≡ ok s
    → IsAscending 0 s × Below n s × Perm s ps
selection-IsAscending ps n h =
    let (e, _, c) = selection-eq-sort ps n h in
    let (a, l) = check_all_sound (sort ps) n (sort-IsSorted ps) c in rw e (a, l, sort-perm ps)

-- The positions of an op are accepted, in ascending order, exactly when they are some, all below
-- the length, and no two the same.
pub selection_iff : (ps : List ℕ) (n : ℕ) → (selection ps n ≡ ok (sort ps)) ↔ IsSelection ps n
unfolding selection
selection_iff ps n = (accepted, chosen ps)
  where
    accepted : selection ps n ≡ ok (sort ps) → IsSelection ps n
    accepted h =
        let (_, ne, c) = selection-eq-sort ps n h in
        let (a, l) = check_all_sound (sort ps) n (sort-IsSorted ps) c in
        record {
          some_given = ne;
          in_range = λ p m. Below-mem (sort ps) l ((Perm.mem_iff (sort-perm ps)).1 m);
          distinct = Perm.nodup (sort-perm ps) (IsAscending-Nodup 0 (sort ps) a);
        }

    chosen : (ps : List ℕ) → IsSelection ps n → selection ps n ≡ ok (sort ps)
    chosen [] v = absurd (v.some_given refl)
    chosen (p ∷ rest) v =
        let a =
          Nodup-IsAscending 0 (sort (p ∷ rest)) (sort-IsSorted (p ∷ rest))
            (Perm.nodup (Perm.symm (sort-perm (p ∷ rest))) v.distinct) in
        let l =
          mem-Below (sort (p ∷ rest))
            (λ y m. v.in_range y ((Perm.mem_iff (sort-perm (p ∷ rest))).0 m)) in
        rw (check_all_complete (sort (p ∷ rest)) n a l)

IsAscending-mono : {b c : ℕ} (xs : List ℕ) → b ≤ c → IsAscending c xs → IsAscending b xs
IsAscending-mono [] h a = tt
IsAscending-mono (x ∷ xs) h a = (omega arith, a.1)

pub selection_ascending :
    (p : ℕ) (ps : List ℕ) (n : ℕ)
    → IsAscending 0 (p ∷ ps)
    → Below n (p ∷ ps)
    → selection (p ∷ ps) n ≡ ok (p ∷ ps)
unfolding selection
selection_ascending p ps n a l =
    rw (sort_ascending 0 (p ∷ ps) a) (rw (check_all_complete (p ∷ ps) n a l))
