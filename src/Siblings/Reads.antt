-- ===== src/Siblings/Reads.antt =====
-- The tasks of a read, done by the leaves.
use aiotest.Prelude.{
  ℕ, ◌+◌, ◌-◌, ◌≤◌, ◌<◌, ◌≡◌, refl, sym, ◌∙◌, inl, inr, Bool, List, [], ◌∷◌, Bool-cases, ltb, leb,
  ◌&&◌, arith,
}
use aiotest.Prelude.Bytes.{Bytes, copy}
use aiotest.Engine.{Engine}
use aiotest.Controller.{Limits}
use aiotest.Cache.{Cell}
use aiotest.Cache.View.{view, SameBytes, IsCoherent, InPage, copy_same}
use aiotest.Leaf.{leaf_read}
use aiotest.Leaf.Steps.{leaf_read-Frame}
use aiotest.Leaf.Reads.{leaf_read_keeps, leaf_read_data}
use aiotest.Node.{Piece}
use aiotest.Node.Order.{read_piece, last_first}
use aiotest.Siblings.{Siblings, child, read_child, read_children, view_below}
use aiotest.Siblings.Places.{InChild, AllCoherent, put-AllCoherent, put-view, AllIn, view_below_lem}
use aiotest.Siblings.Writes.{AllFine, child-InPage}

-- A copy depends on what is copied in the range only.
copy_from :
    (buf f g : Bytes) (begin end ptr i : ℕ)
    → begin < end
    → ((k : ℕ) → begin ≤ k → k < end → f k ≡ g k)
    → copy buf ptr f begin (end - begin) i ≡ copy buf ptr g begin (end - begin) i
copy_from buf f g begin end ptr i order h =
    elim (Bool-cases (leb ptr i && ltb i (ptr + (end - begin)))) [
      | inl e ↦
          let hit = h (begin + (i - ptr)) (omega arith) (ground (arith, e, order)) in
          ground (arith, e, hit)
      | inr e ↦ ground (arith, e)
    ]

module _ {E : Engine} {m : ℕ} (small : m < 64) (limits : Limits) (fresh : Bytes)
    (partial : Bool) where
  read_child-fine :
      (s : Siblings E) (p : Piece) (buf : Bytes)
      → AllFine (read_child m limits fresh partial p (s, buf)).0
      → AllFine s
  unfolding read_child
  read_child-fine s p buf f =
      (leaf_read-Frame fresh small limits (child s p.index) p.begin p.end buf p.ptr partial).fine f

module _ {E : Engine} {n m start : ℕ} (small : m < 64) (limits : Limits) (fresh : Bytes)
    (partial : Bool) where
  module _ (s : Siblings E) (good : AllCoherent n m start s) (p : Piece) (at : InChild n m start p)
      (buf : Bytes) where
    abbrev old_child : Cell E
    old_child = child s p.index

    abbrev result : Cell E × Bytes
    result = leaf_read m limits fresh partial old_child p.begin p.end buf p.ptr

    coherent : IsCoherent m old_child
    coherent = good.coherent p.index at.index

    page : InPage m old_child p.begin p.end
    page = child-InPage small limits fresh buf s good p at

    keeps : SameBytes (view result.0) (view old_child) × IsCoherent m result.0
    keeps = leaf_read_keeps fresh coherent limits buf p.ptr page small partial

    place : result.0.offset ≡ old_child.offset
    place = (leaf_read-Frame fresh small limits old_child p.begin p.end buf p.ptr partial).offset

    read_child_keeps :
        let t = (read_child m limits fresh partial p (s, buf)).0 in
        AllCoherent n m start t × SameBytes (view_below n m start t) (view_below n m start s)
    unfolding read_child
    read_child_keeps = (
      put-AllCoherent good p.index at.index result.0 keeps.1 place (λ i out. keeps.0 i),
      put-view good p.index at.index result.0 keeps.1 place (λ i out. keeps.0 i)
          (view_below n m start s)
          (λ i lo hi. keeps.0 i ∙ sym (view_below_lem n m start s p.index i at.index lo hi))
          (λ i out. refl),
    )

    read_child_data :
        AllFine (read_child m limits fresh partial p (s, buf)).0
        → SameBytes
            (read_child m limits fresh partial p (s, buf)).1
            (read_piece (view_below n m start s) p buf)
    unfolding read_child
    read_child_data f i =
        leaf_read_data fresh coherent limits buf p.ptr page small partial f i
        ∙ copy_from buf (view old_child) (view_below n m start s) p.begin p.end p.ptr i at.order
            (λ k lo hi. sym (
              view_below_lem n m start s p.index k at.index (omega (arith, at.low, lo))
                (omega (arith, at.high, hi))))

module _ {E : Engine} (n start : ℕ) {m : ℕ} (small : m < 64) (limits : Limits) (fresh : Bytes)
    (partial : Bool) where
  -- What the tasks of a split read leave behind
  pub record ReadBy (s : Siblings E) (buf : Bytes) (ps : List Piece) : Type 0 where
    pub coherent_after : AllCoherent n m start (read_children m limits fresh partial ps (s, buf)).0
    pub kept :
        SameBytes
          (view_below n m start (read_children m limits fresh partial ps (s, buf)).0)
          (view_below n m start s)
    pub filled :
        SameBytes
          (read_children m limits fresh partial ps (s, buf)).1
          (last_first (read_piece (view_below n m start s)) ps buf)

  pub read_children_done :
      (ps : List Piece) (s : Siblings E) (buf : Bytes)
      → AllCoherent n m start s
      → AllIn n m start ps
      → AllFine (read_children m limits fresh partial ps (s, buf)).0
      → ReadBy s buf ps
  unfolding read_children last_first
  read_children_done [] s buf good all f = record {
    coherent_after = good;
    kept = λ i. refl;
    filled = λ i. refl;
  }
  read_children_done (p ∷ ps) s buf good (at, all) f =
      let r = read_children m limits fresh partial ps (s, buf) in
      let rest =
        read_children_done ps s buf good all
          (read_child-fine small limits fresh partial r.0 p r.1 f) in
      let kept = read_child_keeps small limits fresh partial r.0 rest.coherent_after p at r.1 in
      record {
        coherent_after = kept.0;
        kept = λ i. kept.1 i ∙ rest.kept i;
        filled = λ i.
            read_child_data small limits fresh partial r.0 rest.coherent_after p at r.1 f i
            ∙ copy_same r.1 p.ptr p.begin (p.end - p.begin) rest.kept i
            ∙ ground (arith, rest.filled i);
      }
