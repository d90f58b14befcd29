-- ===== src/Inner/Writes.antt =====
-- Writes that an inner node does itself: through its cache, or of the whole node, with the children
-- dropped.
use aiotest.Prelude.{ℕ, ◌-◌, ◌^◌, ◌≡◌, true, false}
use aiotest.Prelude.Bytes.{Bytes, copy}
use aiotest.Engine.{Engine}
use aiotest.Cache.{Cell, io_unlock, toggle}
use aiotest.Cache.View.{view, SameBytes, IsCoherent, InPage}

module _ {E : Engine} {nm : ℕ} {s : Cell E} (good : IsCoherent nm s) {begin end : ℕ}
    (page : InPage nm s begin end) (ptr : Bytes) (from : ℕ) where
  -- What a write of the range is to make of what can be read through the node.
  abbrev pub Written : Cell E → Type 0
  Written t = SameBytes (view t) (copy (view s) begin ptr from (end - begin)) × IsCoherent nm t

  module _ (bare : s.cached ≡ false) where
    abbrev kept : (fresh : Bytes) → Cell E
    kept fresh =
        let t = toggle fresh s (2 ^ nm) in
        io_unlock (record t {
          memory = copy t.memory 0 ptr from (2 ^ nm);
          effective = 2 ^ nm;
          dirty = true;
        })
