-- ===== src/Tests/Nodes.antt =====
-- Tests of the nodes: each applies a theorem to the inputs of the parent module.
use aiotest.Prelude.{
  ℕ, ◌≤◌, ◌<◌, ◌⊎◌, ltb, if◌then◌else◌, Bool, ◌+◌, ◌≡◌, refl, true, false, arith, some, List, [],
  ◌∷◌, length,
}
use aiotest.Prelude.Bytes.{Bytes, copy}
use aiotest.Cache.{
  Cell, above, fail_to, cached_read, cached_write, fwrite, prefetch, fread, absorb, settle, unlock,
  io_unlock, toggle,
}
use aiotest.Cache.View.{view, SameBytes, IsCoherent, InPage}
use aiotest.Cache.Effects.{locks}
use aiotest.Leaf.{leaf_read, leaf_write, read_to, write_to, ensure_cache, flush, evict, write_back}
use aiotest.Leaf.Reads.{leaf_read_keeps, leaf_read_data, locks-leaf_read}
use aiotest.Leaf.RoundTrip.{write_evict_read}
use aiotest.Controller.{usage}
use aiotest.Leaf.Writes.{leaf_write_done, locks-leaf_write}
use aiotest.Leaf.Evict.{flushes, flushes_keep, written_back}
use aiotest.Node.{Piece, pieces, split_locks}
use aiotest.Node.Locks.{release, release-counters}
use aiotest.Node.Ranges.{InNode}
use aiotest.Node.Tiling.{Tiles, pieces_lem}
use aiotest.Engine.{Engine}
use aiotest.Tests.{copy_out, disk, dirty_node, dirty_node-IsCoherent, inner_range, text, roomy}

abbrev pub buffer : Bytes
buffer i = 0

abbrev pub garbage : Bytes
garbage i = 7

leaf_write_done_example :
    let t = leaf_write 3 roomy garbage dirty_node 10 14 text 1 in
    SameBytes (view t) (copy (view dirty_node) 10 text 1 4) × IsCoherent 3 t
leaf_write_done_example =
    leaf_write_done garbage dirty_node-IsCoherent roomy text 1 inner_range (omega arith) (
      unfold leaf_write write_to cached_write fwrite prefetch fread ensure_cache absorb settle
        unlock io_unlock in
      (refl, refl))

locks-leaf_write_example :
    let t = leaf_write 3 roomy garbage dirty_node 10 14 text 1 in
    (locks t ≡ locks dirty_node + 1) × (t.io_unlocks ≡ dirty_node.io_unlocks + 1)
locks-leaf_write_example =
    locks-leaf_write garbage dirty_node-IsCoherent roomy text 1 inner_range (omega arith) refl

leaf_read_keeps_example :
    let t = (leaf_read 3 roomy garbage false dirty_node 10 14 buffer 2).0 in
    SameBytes (view t) (view dirty_node) × IsCoherent 3 t
leaf_read_keeps_example =
    leaf_read_keeps garbage dirty_node-IsCoherent roomy buffer 2 inner_range (omega arith) false

leaf_read_data_example :
    SameBytes
      (leaf_read 3 roomy garbage false dirty_node 10 14 buffer 2).1
      (copy buffer 2 (view dirty_node) 10 4)
leaf_read_data_example =
    leaf_read_data garbage dirty_node-IsCoherent roomy buffer 2 inner_range (omega arith) false (
      unfold leaf_read read_to cached_read prefetch fread ensure_cache unlock io_unlock in
      (refl, refl))

locks-leaf_read_example :
    let t = (leaf_read 3 roomy garbage false dirty_node 10 14 buffer 2).0 in
    (locks t ≡ locks dirty_node + 1) × (t.io_unlocks ≡ dirty_node.io_unlocks + 1)
locks-leaf_read_example =
    locks-leaf_read garbage dirty_node-IsCoherent roomy buffer 2 inner_range (omega arith) false
      refl

written_back_example :
    let f = flush dirty_node in
    let t = evict garbage 3 dirty_node true in
    (SameBytes (disk.bytes f.file) (view dirty_node) × (f.dirty ≡ false) × (f.effective ≡ 4))
    × (SameBytes (disk.bytes t.file) (view dirty_node)
        × (t.dirty ≡ false)
        × (t.cached ≡ false)
        × (t.effective ≡ 0))
unfolding flush evict write_back fwrite unlock toggle
written_back_example = written_back dirty_node-IsCoherent garbage true (refl, refl) refl

-- How much of a write is done before it fails.
abbrev one_of : ℕ → ℕ
one_of len = if ltb 1 len then 1 else len

flaky_out :
    (f : Bytes × Bool) (dat : Bytes) (from pos len i : ℕ)
    → (i < pos) ⊎ (pos + len ≤ i)
    → (if f.1 then copy f.0 pos dat from len else copy f.0 pos dat from (one_of len)) i ≡ f.0 i
flaky_out f dat from pos len i out = ground arith

flaky_done :
    (f : Bytes × Bool) (dat : Bytes) (from pos len i : ℕ)
    → f.1 ≡ true
    → (if f.1 then copy f.0 pos dat from len else copy f.0 pos dat from (one_of len)) i
      ≡ copy f.0 pos dat from len i
flaky_done f dat from pos len i ok = ground (arith, ok)

-- A disk on which the first write fails, having put one byte; the flag says that it is over.
abbrev flaky : Engine
flaky = record {
  File = Bytes × Bool;
  bytes = λ f. f.0;
  read = λ f dat to pos len. (copy dat to f.0 pos len, true);
  write = λ f dat from pos len. (
    ((if f.1 then copy f.0 pos dat from len else copy f.0 pos dat from (one_of len)), true),
    f.1,
  );
  read_done = λ f dat to pos len i ok. refl;
  read_out = λ f dat to pos len i out. copy_out dat to f.0 pos len i out;
  write_done = λ f dat from pos len i ok. flaky_done f dat from pos len i ok;
  write_out = λ f dat from pos len i out. flaky_out f dat from pos len i out;
}

abbrev flaky_node : Cell flaky
flaky_node = record {
  offset = 8;
  parent = above;
  cached = true;
  memory = λ i. i + 108;
  effective = 4;
  dirty = true;
  unlocks = 0;
  file = (λ i. i, false);
  size = 16;
  failed = false;
  io_failed = false;
  io_unlocks = 0;
  used = 8;
  queued = 1;
}

flaky_node-IsCoherent : IsCoherent 3 flaky_node
flaky_node-IsCoherent = record {
  aligned = refl;
  room = omega arith;
  fits = omega arith;
  owned = λ c. ground arith;
  clean = λ d i lt. ground arith;
}

flushes_keep_example :
    let t = flushes 2 flaky_node in
    IsCoherent 3 t
    × SameBytes (view t) (view flaky_node)
    × (t.failed ≡ false)
    × (1 ≤ 2 → t.dirty ≡ true → t.io_failed ≡ true)
    × (t.dirty ≡ false → SameBytes (flaky.bytes t.file) (view flaky_node))
flushes_keep_example = flushes_keep flaky_node-IsCoherent 2

-- The second flush works.
flaky_ends : ((flushes 1 flaky_node).dirty ≡ true) × ((flushes 2 flaky_node).dirty ≡ false)
unfolding flush fwrite fail_to unlock
flaky_ends = (refl, refl)

-- 4 children of 8 bytes each, from 32 on; the request meets three of them.
pub three_children : InNode 2 3 1 37 50
three_children = record {
  width = omega arith;
  low = omega arith;
  order = omega arith;
  high = omega arith;
  word = omega arith;
}

pieces_lem_example :
    (ps : List Piece) × (pieces 2 3 32 37 50 5 ≡ some ps)
    × Tiles 2 3 32 50 37 5 ps
    × (length ps ≡ (split_locks 2 3 37 50).0)
pieces_lem_example = pieces_lem three_children 5

-- A node with two more locked children, below one with none, below one with three.
release-counters_example : release (3 ∷ 1 ∷ 4 ∷ []) ≡ 2 ∷ 1 ∷ 4 ∷ []
release-counters_example = release-counters (2 ∷ 0 ∷ 3 ∷ []) (omega arith)

-- Four bytes are written from 10 on, of which the read from 8 to 12 sees two.
first_half : InPage 3 dirty_node 8 12
first_half = record {
  low = omega arith;
  order = omega arith;
  high = omega arith;
  word = omega arith;
}

write_evict_read_example :
    let w = leaf_write 3 roomy garbage dirty_node 10 14 text 1 in
    SameBytes
      (leaf_read 3 roomy garbage false (evict garbage 3 w true) 8 12 buffer 2).1
      (copy buffer 2 (copy (view dirty_node) 10 text 1 4) 8 4)
write_evict_read_example =
    write_evict_read garbage dirty_node-IsCoherent roomy roomy text buffer 1 2 inner_range
      first_half (omega arith) false
      (unfold leaf_write write_to cached_write fwrite prefetch fread ensure_cache absorb settle
          unlock io_unlock in
        (refl, refl))
      (unfold evict write_back toggle leaf_write write_to cached_write fwrite prefetch fread
          ensure_cache absorb settle unlock io_unlock in
        refl)
      (unfold leaf_read read_to cached_read evict write_back toggle leaf_write write_to cached_write
          fwrite prefetch fread ensure_cache absorb settle unlock io_unlock usage in
        (refl, refl))
