-- ===== src/Siblings/Writes.antt =====
-- The tasks of a write, done by the leaves.
use aiotest.Prelude.{
  ℕ, ◌+◌, ◌*◌, ◌^◌, ◌≤◌, ◌<◌, ◌≡◌, ◌⊎◌, refl, sym, ◌∙◌, inl, inr, false, List, [], ◌∷◌, arith,
}
use aiotest.Prelude.Bytes.{Bytes}
use aiotest.Engine.{Engine}
use aiotest.Controller.{Limits}
use aiotest.Cache.{Cell}
use aiotest.Cache.View.{view, SameBytes, IsCoherent, InPage}
use aiotest.Cache.Effects.{IsFine}
use aiotest.Leaf.{leaf_write}
use aiotest.Leaf.Steps.{Frame, leaf_write-Frame}
use aiotest.Leaf.Writes.{leaf_write_done}
use aiotest.Node.{Piece}
use aiotest.Node.Order.{write_piece, last_first}
use aiotest.Siblings.{Siblings, child, write_child, write_children, view_below}
use aiotest.Siblings.Places.{
  copy_outside, copy_over, view_below_lem, InChild, AllCoherent, put-AllCoherent, put-view, AllIn,
}

-- Neither the tree nor the request is marked as failed.
abbrev pub AllFine : {E : Engine} → Siblings E → Type 0
AllFine s = (s.shared.failed ≡ false) × (s.shared.io_failed ≡ false)

module _ {E : Engine} {m : ℕ} (small : m < 64) (limits : Limits) (fresh src : Bytes) where
  write_child-fine :
      (s : Siblings E) (p : Piece) → AllFine (write_child m limits fresh src p s) → AllFine s
  unfolding write_child
  write_child-fine s p f =
      (leaf_write-Frame fresh small limits (child s p.index) p.begin p.end src p.ptr).fine f

module _ {E : Engine} {n m start : ℕ} (small : m < 64) (limits : Limits) (fresh src : Bytes) where
  module _ (s : Siblings E) (good : AllCoherent n m start s) (p : Piece)
      (at : InChild n m start p) where
    abbrev old_child : Cell E
    old_child = child s p.index

    abbrev new_child : Cell E
    new_child = leaf_write m limits fresh old_child p.begin p.end src p.ptr

    pub child-InPage : InPage m old_child p.begin p.end
    child-InPage = record {
      low = omega (arith, at.low, good.place p.index at.index);
      order = at.order;
      high = omega (arith, at.high, good.place p.index at.index);
      word = at.word;
    }

    coherent : IsCoherent m old_child
    coherent = good.coherent p.index at.index

    frame : Frame old_child new_child
    frame = leaf_write-Frame fresh small limits old_child p.begin p.end src p.ptr

    beyond :
        (i : ℕ)
        → (i < start + p.index * 2 ^ m) ⊎ (start + p.index * 2 ^ m + 2 ^ m ≤ i)
        → (i < p.begin) ⊎ (p.end ≤ i)
    beyond i (inl out) = inl (omega (arith, out, at.low))
    beyond i (inr out) = inr (omega (arith, out, at.high))

    module _ (f : IsFine new_child) where
      done :
          SameBytes (view new_child) (write_piece src p (view old_child)) × IsCoherent m new_child
      done = leaf_write_done fresh coherent limits src p.ptr child-InPage small f

      keeps :
          (i : ℕ)
          → (i < start + p.index * 2 ^ m) ⊎ (start + p.index * 2 ^ m + 2 ^ m ≤ i)
          → view new_child i ≡ view old_child i
      keeps i out =
          done.0 i ∙ copy_outside src (view old_child) p.begin p.end p.ptr i (beyond i out) at.order

    write_child_done :
        AllFine (write_child m limits fresh src p s)
        → AllCoherent n m start (write_child m limits fresh src p s)
          × SameBytes
              (view_below n m start (write_child m limits fresh src p s))
              (write_piece src p (view_below n m start s))
    unfolding write_child
    write_child_done f = (
      put-AllCoherent good p.index at.index new_child (done f).1 frame.offset (keeps f),
      put-view good p.index at.index new_child (done f).1 frame.offset (keeps f)
          (write_piece src p (view_below n m start s))
          (λ i lo hi.
            (done f).0 i
            ∙ copy_over src (view old_child) p.begin p.end p.ptr i (view_below n m start s)
                (sym (view_below_lem n m start s p.index i at.index lo hi)))
          (λ i out. sym (
            copy_outside src (view_below n m start s) p.begin p.end p.ptr i (beyond i out)
              at.order)),
    )

  pub write_children_done :
      (ps : List Piece) (s : Siblings E)
      → AllCoherent n m start s
      → AllIn n m start ps
      → AllFine (write_children m limits fresh src ps s)
      → AllCoherent n m start (write_children m limits fresh src ps s)
        × SameBytes
            (view_below n m start (write_children m limits fresh src ps s))
            (last_first (write_piece src) ps (view_below n m start s))
  unfolding write_children last_first
  write_children_done [] s good all f = (good, λ i. refl)
  write_children_done (p ∷ ps) s good (at, all) f =
      let t = write_children m limits fresh src ps s in
      let f' = write_child-fine small limits fresh src t p f in
      let (good', same) = write_children_done ps s good all f' in
      let (good'', same') = write_child_done t good' p at f in
      (
        good'',
        λ i.
            same' i
            ∙ copy_over src (view_below n m start t) p.begin p.end p.ptr i
                (last_first (write_piece src) ps (view_below n m start s)) (same i),
      )
