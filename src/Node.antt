-- ===== src/Node.antt =====
-- include/backup/BTree.hpp, `BTreeNode<first, rest...>`: how an inner node splits a request among its
-- children. The node has N = 2 ^ n children of M = 2 ^ m bytes each. A pointer into the caller's
-- buffer is the position in that buffer.
mod Arithmetic
pub mod Ranges
pub mod Tiling
pub mod Order
pub mod Locks
use Prim.Native.Nat.{bit_and, bit_xor}
use aiotest.Prelude.{
  ℕ, zero, suc, ◌+◌, ◌-◌, ◌*◌, ◌/◌, ◌^◌, Option, none, some, List, [], ◌∷◌, ◌==◌, if◌then◌else◌,
}
use aiotest.Prelude.Word.{add64, sub64, neg64}

-- `getRange`: the first and the last child of [begin, end).
unfoldable pub get_range : (n m begin end : ℕ) → ℕ × ℕ
get_range n m begin end =
    (bit_and (begin / 2 ^ m) (2 ^ n - 1), bit_and (sub64 end 1 / 2 ^ m) (2 ^ n - 1))

-- The request that is pushed for one child: its index, the offset that `touch` gives to the child if
-- it has to be made, and the arguments of its `read` or `write`.
pub record Piece : Type 0 where
  pub index : ℕ
  pub hint : ℕ
  pub begin : ℕ
  pub end : ℕ
  pub ptr : ℕ

-- `offset ^ i << m`, the default offset of child `i`.
abbrev pub child_offset : (m offset i : ℕ) → ℕ
child_offset m offset i = bit_xor offset (i * 2 ^ m)

-- The loop over the children between the first and the last, and the request of the last one.
-- `none` is a loop that has not met its end within `fuel` rounds.
unfoldable pub rest_pieces : (fuel m offset last end i suffix : ℕ) → Option (List Piece)
rest_pieces zero m offset last end i suffix = none
rest_pieces (suc fuel) m offset last end i suffix =
    let more = rest_pieces fuel m offset last end (i + 1) (suffix + 2 ^ m) in
    let start = bit_and (sub64 end 1) (neg64 (2 ^ m)) in
    if i + 1 == last
    then some (record { index = last; hint = start; begin = start; end = end; ptr = suffix } ∷ [])
    else elim more [
      | none ↦ none
      | some ps ↦ some (
          record {
            index = i + 1;
            hint = child_offset m offset (i + 1);
            begin = child_offset m offset (i + 1);
            end = child_offset m offset (i + 2);
            ptr = suffix;
          }
          ∷ ps)
    ]

unfoldable pub split_between :
    (n m offset begin end ptr first last suffix : ℕ) → Option (List Piece)
split_between n m offset begin end ptr first last suffix =
    let start = bit_and begin (neg64 (2 ^ m)) in
    if first == last
    then some (record { index = first; hint = start; begin = begin; end = end; ptr = ptr } ∷ [])
    else elim (rest_pieces (2 ^ n) m offset last end first suffix) [
      | none ↦ none
      | some ps ↦ some (
          record {
            index = first;
            hint = start;
            begin = begin;
            end = add64 start (2 ^ m);
            ptr = ptr;
          }
          ∷ ps)
    ]

-- What `read` and `write` push for the children, in the order of the code.
unfoldable pub pieces : (n m offset begin end ptr : ℕ) → Option (List Piece)
pieces n m offset begin end ptr =
    let (first, last) = get_range n m begin end in
    split_between n m offset begin end ptr first last
      (ptr + (if bit_and begin (2 ^ m - 1) == 0 then 2 ^ m else bit_and (neg64 begin) (2 ^ m - 1)))

-- The locks that the node takes for a split request, and those that the request takes.
abbrev pub split_locks : (n m begin end : ℕ) → ℕ × ℕ
split_locks n m begin end =
    let (first, last) = get_range n m begin end in (last - first + 1, last - first)
