-- ===== src/Node/Order.antt =====
-- The children's requests of a split, taken together: in the order of the code or in the reverse
-- order, in which the task queue runs them, they do what the request asks for.
use aiotest.Prelude.{ℕ, ◌+◌, ◌-◌, ◌*◌, ◌^◌, ◌≤◌, ◌≡◌, ◌∙◌, some, List, [], ◌∷◌, arith}
use aiotest.Prelude.Bytes.{Bytes, copy}
use aiotest.Cache.View.{SameBytes}
use aiotest.Node.{Piece, pieces}
use aiotest.Node.Ranges.{InNode}
use aiotest.Node.Tiling.{Tiles, pieces_lem}

-- What a child's write does to the file as read through the tree, and a child's read to the buffer.
abbrev pub write_piece : (src : Bytes) → Piece → Bytes → Bytes
write_piece src p file = copy file p.begin src p.ptr (p.end - p.begin)

abbrev pub read_piece : (file : Bytes) → Piece → Bytes → Bytes
read_piece file p buf = copy buf p.ptr file p.begin (p.end - p.begin)

in_order : (Piece → Bytes → Bytes) → List Piece → Bytes → Bytes
in_order act [] f = f
in_order act (p ∷ ps) f = in_order act ps (act p f)

unfoldable pub last_first : (Piece → Bytes → Bytes) → List Piece → Bytes → Bytes
last_first act [] f = f
last_first act (p ∷ ps) f = act p (last_first act ps f)

module _ (n m offset end : ℕ) where
  pub Tiles-le : (pos ptr : ℕ) (ps : List Piece) → Tiles n m offset end pos ptr ps → pos ≤ end
  Tiles-le pos ptr [] t = omega arith
  Tiles-le pos ptr (p ∷ ps) t = omega (arith, t, Tiles-le p.end (ptr + (p.end - p.begin)) ps t.7)

  module _ (src : Bytes) where
    in_order-write :
        (pos ptr : ℕ) (ps : List Piece) (f : Bytes)
        → Tiles n m offset end pos ptr ps
        → SameBytes (in_order (write_piece src) ps f) (copy f pos src ptr (end - pos))
    unfolding in_order
    in_order-write pos ptr [] f t i = ground arith
    in_order-write pos ptr (p ∷ ps) f t i =
        in_order-write p.end (ptr + (p.end - p.begin)) ps (write_piece src p f) t.7 i
        ∙ ground (arith, Tiles-le p.end (ptr + (p.end - p.begin)) ps t.7)

    last_first-write :
        (pos ptr : ℕ) (ps : List Piece) (f : Bytes)
        → Tiles n m offset end pos ptr ps
        → SameBytes (last_first (write_piece src) ps f) (copy f pos src ptr (end - pos))
    unfolding last_first
    last_first-write pos ptr [] f t i = ground arith
    last_first-write pos ptr (p ∷ ps) f t i = ground (
      arith,
      last_first-write p.end (ptr + (p.end - p.begin)) ps f t.7 i,
      Tiles-le p.end (ptr + (p.end - p.begin)) ps t.7,
    )

  last_first-read :
      (file : Bytes) (pos ptr : ℕ) (ps : List Piece) (buf : Bytes)
      → Tiles n m offset end pos ptr ps
      → SameBytes (last_first (read_piece file) ps buf) (copy buf ptr file pos (end - pos))
  unfolding last_first
  last_first-read file pos ptr [] buf t i = ground arith
  last_first-read file pos ptr (p ∷ ps) buf t i = ground (
    arith,
    last_first-read file p.end (ptr + (p.end - p.begin)) ps buf t.7 i,
    Tiles-le p.end (ptr + (p.end - p.begin)) ps t.7,
  )

-- The children's writes of a split request, done in the order of the code or in the reverse order,
-- write the caller's bytes over the range of the request and nothing else; the children's reads, in
-- the reverse order, fill the caller's buffer with the range and change nothing else.
split_refines :
    {n m q begin end : ℕ} (r : InNode n m q begin end) (ptr : ℕ) (src file buf : Bytes)
    → (ps : List Piece) × (pieces n m (q * 2 ^ n * 2 ^ m) begin end ptr ≡ some ps)
      × SameBytes (in_order (write_piece src) ps file) (copy file begin src ptr (end - begin))
      × SameBytes (last_first (write_piece src) ps file) (copy file begin src ptr (end - begin))
      × SameBytes (last_first (read_piece file) ps buf) (copy buf ptr file begin (end - begin))
split_refines {n} {m} {q} {begin} {end} r ptr src file buf =
    let (ps, eq, tiles, len) = pieces_lem r ptr in
    (
      ps,
      eq,
      in_order-write n m (q * 2 ^ n * 2 ^ m) end src begin ptr ps file tiles,
      last_first-write n m (q * 2 ^ n * 2 ^ m) end src begin ptr ps file tiles,
      last_first-read n m (q * 2 ^ n * 2 ^ m) end file begin ptr ps buf tiles,
    )
