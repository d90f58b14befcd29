-- ===== src/Tests/Inner.antt =====
-- Tests of the nodes with children: a node of 4 children of 8 bytes each, from 32 on.
use Prim.{absurd, tt}
use aiotest.Prelude.{◌+◌, ◌≡◌, refl, true, false, arith, [], ◌∷◌}
use aiotest.Prelude.Bytes.{Bytes, copy}
use aiotest.Cache.{Cell, above, request, cached_read, prefetch, fread, toggle, unlock, io_unlock}
use aiotest.Cache.View.{view, SameBytes, IsCoherent, InPage}
use aiotest.Controller.{usage}
use aiotest.Node.Ranges.{InNode}
use aiotest.Subtree.{
  Page, leaf, Children, nil, gap, child, merge, merge_children, merge_node, merge_page,
}
use aiotest.Subtree.Merge.{AreClean}
use aiotest.Subtree.Whole.{merge_done}
use aiotest.Inner.{inner_read, inner_write, read_within, read_whole}
use aiotest.Inner.Reads.{inner_read_data}
use aiotest.Inner.Locks.{Counts, Gives, inner-Counts}
use aiotest.Tests.{disk, roomy}

-- The file holds its positions; there is no cache.
abbrev bare_node : Cell disk
bare_node = record {
  offset = 32;
  parent = above;
  cached = false;
  memory = λ i. 0;
  effective = 0;
  dirty = false;
  unlocks = 0;
  file = λ i. i;
  size = 100;
  failed = false;
  io_failed = false;
  io_unlocks = 0;
  used = 8;
  queued = 1;
}

-- The second child has 3 bytes in its cache.
abbrev second : Page
second = record {
  offset = 40;
  parent = above;
  cached = true;
  memory = λ i. i + 40;
  effective = 3;
  dirty = false;
}

abbrev second_only : Children
second_only = gap (child (leaf second) nil)

abbrev garbage : Bytes
garbage i = 7

abbrev buffer : Bytes
buffer i = 0

bare_node-IsCoherent : IsCoherent 5 bare_node
bare_node-IsCoherent = record {
  aligned = refl;
  room = omega arith;
  fits = omega arith;
  owned = λ c. (refl, refl);
  clean = λ d i lt. absurd (ground (arith, lt));
}

second_only-AreClean : AreClean (λ i. i) 32 32 8 second_only
unfolding AreClean
second_only-AreClean = (
  omega arith,
  (omega arith, record { at_base = refl; fits = omega arith; clean = λ i lt. omega arith }, tt),
)

all_of_it : InPage 5 bare_node 32 64
all_of_it = record {
  low = omega arith;
  order = omega arith;
  high = omega arith;
  word = omega arith;
}

merge_done_example :
    let t = (merge 5 roomy garbage bare_node second_only request).0 in
    (t.cached ≡ true)
    × (t.dirty ≡ false)
    × (t.offset ≡ 32)
    × IsCoherent 5 t
    × SameBytes (view t) (view bare_node)
unfolding usage merge merge_children merge_node merge_page prefetch fread toggle
merge_done_example =
    merge_done second_only bare_node-IsCoherent refl (omega arith) (omega arith)
      second_only-AreClean roomy garbage request refl (refl, refl)

inner_read_data_example :
    let r = read_whole 5 roomy garbage bare_node 0 second_only 32 64 buffer 2 in
    SameBytes r.1 (copy buffer 2 (view bare_node) 32 32)
inner_read_data_example =
    inner_read_data 2 (3 ∷ []) 0 second_only roomy garbage buffer 2 false
      (read_whole 5 roomy garbage bare_node 0 second_only 32 64 buffer 2) bare_node-IsCoherent
      all_of_it (omega arith) (λ c. refl) (λ c. second_only-AreClean)
      (unfold inner_read read_within in refl)
      (unfold usage read_whole merge merge_children merge_node merge_page cached_read prefetch fread
          toggle unlock io_unlock in
        (refl, refl))

-- The second and the third child, one of which is to be made.
two_children : InNode 2 3 1 42 50
two_children = record {
  width = omega arith;
  low = omega arith;
  order = omega arith;
  high = omega arith;
  word = omega arith;
}

inner-Counts_example :
    Gives
      (λ x. Counts 0 x.0)
      (inner_read 2 (3 ∷ []) roomy garbage false bare_node 0 second_only 42 50 buffer 0)
    × Gives (Counts 0) (inner_write 2 (3 ∷ []) roomy garbage bare_node 0 second_only 42 50 buffer 0)
inner-Counts_example =
    inner-Counts (3 ∷ []) bare_node two_children refl 0 second_only roomy garbage buffer 0 false
