-- ===== src/Playlist/Runs.antt =====
-- crates/core/src/playlist.rs, `apply_ops`: ops applied one after the other, up to a bad one.
use music_streaming.Base.{◌≡◌, refl, ap, List, [], ◌∷◌, ◌++◌, ◌⊎◌, inl, inr}
use music_streaming.Playlist.{Result-cases, Op, OpError, ok, err, apply_op, apply_ops}

module _ {ℓ} {A : Type ℓ} where
  -- The ops apply one after the other, none of them bad.
  pub data Applied : List A → List (Op A) → List A → Type ℓ where
    unedited : (items : List A) → Applied items [] items
    applied :
        (items mid : List A) {list : List A} (op : Op A) {ops : List (Op A)}
        → apply_op items op ≡ ok mid
        → Applied mid ops list
        → Applied items (op ∷ ops) list

  -- The ops before one of them apply, and that one fails on the items that they leave.
  pub record FirstBad (items : List A) (ops : List (Op A)) (error : OpError) : Type ℓ where
    pub before : List (Op A)
    pub bad : Op A
    pub after : List (Op A)
    pub mid : List A
    pub split : ops ≡ before ++ (bad ∷ after)
    pub applied_before : Applied items before mid
    pub fails : apply_op mid bad ≡ err error

  -- Either every op applies, one after the other, and the result is the items that they leave; or
  -- some op fails with an error on the items that the ops before it leave, each of which applied,
  -- and the whole edit fails with that error.
  pub apply_ops-FirstBad :
      (items : List A) (ops : List (Op A))
      → ((list : List A) × (apply_ops items ops ≡ ok list) × Applied items ops list)
        ⊎ ((error : OpError) × (apply_ops items ops ≡ err error) × FirstBad items ops error)
  unfolding apply_ops
  apply_ops-FirstBad items [] = inl (items, refl, unedited items)
  apply_ops-FirstBad items (op ∷ ops) = elim (Result-cases (apply_op items op)) [
    | inl (mid, e) ↦ elim (apply_ops-FirstBad mid ops) [
      | inl (list, r, steps) ↦ inl (list, rw e r, applied items mid op e steps)
      | inr (error, r, first) ↦ inr (
        error,
        rw e r,
        record {
          before = op ∷ first.before;
          bad = first.bad;
          after = first.after;
          mid = first.mid;
          split = ap (λ r. op ∷ r) first.split;
          applied_before = applied items mid op e first.applied_before;
          fails = first.fails;
        },
      )
    ]
    | inr (error, e) ↦ inr (
      error,
      rw e refl,
      record {
        before = [];
        bad = op;
        after = ops;
        mid = items;
        split = refl;
        applied_before = unedited items;
        fails = e;
      },
    )
  ]
