-- ===== src/Siblings.antt =====
-- include/backup/BTree.hpp: the leaves of a tree, or of a part of it, of 2 ^ m bytes each, and the tasks that
-- read and write push for them. The leaves share the file, the budget and the flags of the tree and of the
-- request. A leaf that is not there yet is one without a cache; an inner node that splits has none.
pub mod Places
pub mod Writes
pub mod Reads
pub mod Descent
pub mod Whole
use aiotest.Prelude.{
  ℕ, ◌+◌, ◌-◌, ◌*◌, ◌/◌, ◌^◌, ◌==◌, Bool, false, ◌&&◌, List, [], ◌∷◌, ltb, leb, if◌then◌else◌,
}
use aiotest.Prelude.Bytes.{Bytes}
use aiotest.Engine.{Engine}
use aiotest.Controller.{Limits}
use aiotest.Cache.{Cell}
use aiotest.Cache.View.{view}
use aiotest.Leaf.{leaf_read, leaf_write}
use aiotest.Node.{Piece}

-- What all nodes of a tree share, with the request whose tasks run.
pub record Shared (E : Engine) : Type 0 where
  pub file : E.File
  pub size : ℕ
  pub failed : Bool
  pub io_failed : Bool
  pub io_unlocks : ℕ
  pub used : ℕ

pub record Siblings (E : Engine) : Type 0 where
  pub shared : Shared E
  pub leaf : ℕ → Cell E

module _ {E : Engine} where
  abbrev pub under : Shared E → Cell E → Cell E
  under g c = record c {
    file = g.file;
    size = g.size;
    failed = g.failed;
    io_failed = g.io_failed;
    io_unlocks = g.io_unlocks;
    used = g.used;
  }

  abbrev pub shared_of : Cell E → Shared E
  shared_of c = record {
    file = c.file;
    size = c.size;
    failed = c.failed;
    io_failed = c.io_failed;
    io_unlocks = c.io_unlocks;
    used = c.used;
  }

  -- Leaf `j` as it stands now
  abbrev pub child : Siblings E → ℕ → Cell E
  child s j = under s.shared (s.leaf j)

  abbrev pub put_child : Siblings E → ℕ → Cell E → Siblings E
  put_child s j c = record { shared = shared_of c; leaf = λ k. if k == j then c else s.leaf k }

  module _ (m : ℕ) (limits : Limits) (fresh : Bytes) where
    unfoldable pub write_child : (src : Bytes) → Piece → Siblings E → Siblings E
    write_child src p s =
        put_child s p.index (leaf_write m limits fresh (child s p.index) p.begin p.end src p.ptr)

    unfoldable pub read_child : (partial : Bool) → Piece → Siblings E × Bytes → Siblings E × Bytes
    read_child partial p (s, buf) =
        let r = leaf_read m limits fresh partial (child s p.index) p.begin p.end buf p.ptr in
        (put_child s p.index r.0, r.1)

    -- The tasks are run from the last one on, as a queue gives them.
    unfoldable pub write_children : (src : Bytes) → List Piece → Siblings E → Siblings E
    write_children src [] s = s
    write_children src (p ∷ ps) s = write_child src p (write_children src ps s)

    unfoldable pub read_children :
        (partial : Bool) → List Piece → Siblings E × Bytes → Siblings E × Bytes
    read_children partial [] r = r
    read_children partial (p ∷ ps) r = read_child partial p (read_children partial ps r)

  -- What can be read through the leaves below a node of 2 ^ n children from `start` on
  abbrev pub view_below : (n m start : ℕ) → Siblings E → Bytes
  view_below n m start s i =
      if leb start i && ltb i (start + 2 ^ n * 2 ^ m)
      then view (child s ((i - start) / 2 ^ m)) i
      else E.bytes s.shared.file i
