-- ===== src/Tests/Siblings.antt =====
-- Tests of the leaves of a tree with a root, one level of inner nodes with four children each, and leaves of
-- 8 bytes, whose caches hold the first four bytes of each.
use aiotest.Prelude.{ℕ, ◌*◌, ◌^◌, ◌≡◌, refl, ◌&&◌, leb, ltb, false, some, List, [], ◌∷◌, arith}
use aiotest.Prelude.Bytes.{copy}
use aiotest.Cache.{
  cached_read, cached_write, unlock, io_unlock, unlock_both, fwrite, fread, prefetch, absorb,
  settle, fail_to, fail,
}
use aiotest.Cache.View.{SameBytes}
use aiotest.Controller.{usage}
use aiotest.Leaf.{leaf_read, leaf_write, read_to, write_to, ensure_cache}
use aiotest.Node.{Piece, pieces, get_range, split_between, rest_pieces}
use aiotest.Siblings.{Siblings, read_child, write_child, read_children, write_children, view_below}
use aiotest.Siblings.Descent.{descend, push_all, covers, AllOn}
use aiotest.Siblings.Whole.{leaf_tasks, root_task, descend_done, tree_write_done, tree_read_done}
use aiotest.Siblings.Places.{AllCoherent}
use aiotest.Tests.{disk, dirty_node, text, roomy}
use aiotest.Tests.Nodes.{buffer, garbage}

abbrev all_leaves : Siblings disk
all_leaves = record {
  shared = record {
    file = λ i. i;
    size = 2 ^ 20;
    failed = false;
    io_failed = false;
    io_unlocks = 0;
    used = 32;
  };
  leaf = λ j. record dirty_node { offset = j * 8 };
}

all_leaves-AllCoherent : AllCoherent 61 3 0 all_leaves
all_leaves-AllCoherent = record {
  coherent = λ j lt. record {
    aligned = grind arith;
    room = omega (arith, lt);
    fits = omega arith;
    owned = λ c. ground arith;
    clean = λ d i below. ground arith;
  };
  place = λ j lt. omega arith;
}

abbrev levels : List ℕ
levels = 59 ∷ 2 ∷ []

-- What comes down to the leaves for the positions 37 to 49
abbrev tasks : List Piece
tasks =
    record { index = 0; hint = 32; begin = 37; end = 40; ptr = 5 }
    ∷ record { index = 1; hint = 40; begin = 40; end = 48; ptr = 8 }
    ∷ record { index = 2; hint = 48; begin = 48; end = 50; ptr = 16 }
    ∷ []

descend_done_example :
    (ps : List Piece) × (descend levels 3 (root_task 37 50 5 ∷ []) ≡ some ps)
    × AllOn 37 5 3 ps
    × ((i : ℕ) → covers ps i ≡ (leb 37 i && ltb i 50))
descend_done_example = descend_done levels 3 37 50 5 refl (omega arith) (omega arith)

tree_write_done_example :
    let t = write_children 3 roomy garbage text (leaf_tasks 3 tasks) all_leaves in
    SameBytes (view_below 61 3 0 t) (copy (view_below 61 3 0 all_leaves) 37 text 5 13)
    × AllCoherent 61 3 0 t
unfolding descend push_all pieces get_range split_between rest_pieces write_children write_child
    leaf_write write_to ensure_cache cached_write unlock io_unlock unlock_both fwrite fread prefetch
    absorb settle fail_to fail usage
tree_write_done_example =
    tree_write_done levels 3 37 50 5 (omega arith) roomy garbage text all_leaves tasks refl
      (omega arith) (omega arith) all_leaves-AllCoherent refl (refl, refl)

tree_read_done_example :
    let t = read_children 3 roomy garbage false (leaf_tasks 3 tasks) (all_leaves, buffer) in
    SameBytes t.1 (copy buffer 5 (view_below 61 3 0 all_leaves) 37 13)
    × SameBytes (view_below 61 3 0 t.0) (view_below 61 3 0 all_leaves)
    × AllCoherent 61 3 0 t.0
unfolding descend push_all pieces get_range split_between rest_pieces read_children read_child
    leaf_read read_to ensure_cache cached_read unlock io_unlock unlock_both fread prefetch fail_to
    fail usage
tree_read_done_example =
    tree_read_done levels 3 37 50 5 (omega arith) roomy garbage buffer false all_leaves tasks refl
      (omega arith) (omega arith) all_leaves-AllCoherent refl (refl, refl)
