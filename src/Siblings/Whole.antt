-- ===== src/Siblings/Whole.antt =====
-- A write and a read of a whole tree in which every inner node on the way splits: what the leaves do with the
-- tasks that come down to them.
use mathlib.Core.Option.{some-injective}
use native.Mathlib.Nat.{one-le-pow, div-lt_iff_lt-mul, mul-div_cancel}
use aiotest.Prelude.{
  ℕ, ◌+◌, ◌-◌, ◌*◌, ◌/◌, ◌^◌, ◌≤◌, ◌<◌, ◌≡◌, refl, sym, ap, ◌∙◌, subst, inl, inr, Bool, some, List,
  [], ◌∷◌, Bool-cases, ltb, leb, ◌&&◌, if◌then◌else◌, arith,
}
use aiotest.Prelude.Word.{pow-add}
use aiotest.Prelude.Bytes.{Bytes, copy}
use aiotest.Engine.{Engine}
use aiotest.Controller.{Limits}
use aiotest.Cache.View.{SameBytes}
use aiotest.Node.{Piece}
use aiotest.Node.Order.{write_piece, read_piece, last_first}
use aiotest.Siblings.Reads.{read_children_done}
use aiotest.Siblings.{Siblings, write_children, read_children, view_below}
use aiotest.Siblings.Places.{AllCoherent, AllIn, InChild}
use aiotest.Siblings.Writes.{AllFine, write_children_done}
use aiotest.Siblings.Descent.{descend, bits_below, covers, is_at, OnLevel, AllOn, descend-AllOn}

-- The leaves of a tree are numbered by their addresses.
abbrev pub leaf_tasks : (m : ℕ) → List Piece → List Piece
leaf_tasks m [] = []
leaf_tasks m (p ∷ ps) = record p { index = p.hint / 2 ^ m } ∷ leaf_tasks m ps

abbrev pub root_task : (begin end ptr : ℕ) → Piece
root_task begin end ptr = record { index = 0; hint = 0; begin = begin; end = end; ptr = ptr }

module _ (start from : ℕ) where
  leaf-InChild :
      (m : ℕ) (p : Piece)
      → m ≤ 64
      → OnLevel start from m p
      → InChild (64 - m) m 0 (record p { index = p.hint / 2 ^ m })
  leaf-InChild m p width on =
      let page : 0 < 2 ^ m = one-le-pow m 2 (omega arith) in
      let number : p.hint / 2 ^ m ≡ on.number =
        ap (λ x. x / 2 ^ m) on.place ∙ mul-div_cancel on.number page in
      let here : p.hint / 2 ^ m * 2 ^ m ≡ p.hint = ap (λ x. x * 2 ^ m) number ∙ sym on.place in
      let bits : 64 - m + m ≡ 64 = omega (arith, width) in
      let all_bits : 2 ^ (64 - m) * 2 ^ m ≡ 2 ^ 64 =
        sym (pow-add (64 - m) m) ∙ ap (λ x. 2 ^ x) bits in
      record {
        index = (div-lt_iff_lt-mul page).1 (omega (arith, all_bits, on.low, on.order, on.word));
        low = omega (arith, here, on.low);
        order = on.order;
        high = omega (arith, here, on.high);
        word = on.word;
      }

  leaf_tasks-AllIn :
      (m : ℕ) (ps : List Piece)
      → m ≤ 64
      → AllOn start from m ps
      → AllIn (64 - m) m 0 (leaf_tasks m ps)
  leaf_tasks-AllIn m [] width all = tt
  leaf_tasks-AllIn m (p ∷ ps) width (on, all) =
      (leaf-InChild m p width on, leaf_tasks-AllIn m ps width all)

  -- In whatever order: a byte is written exactly if one of the tasks is for it, and then it is the right one.
  tasks-write :
      (src : Bytes) (m : ℕ) (ps : List Piece) (f : Bytes) (i : ℕ)
      → AllOn start from m ps
      → last_first (write_piece src) (leaf_tasks m ps) f i
        ≡ (if covers ps i then src (from + (i - start)) else f i)
  unfolding last_first
  tasks-write src m [] f i all = refl
  tasks-write src m (p ∷ ps) f i (on, all) =
      let rest = tasks-write src m ps f i all in
      elim (Bool-cases (is_at p i)) [
        | inl e ↦
            let spot : p.ptr + (i - p.begin) ≡ from + (i - start) =
              ground (arith, e, on.buffer, on.behind) in
            ground (arith, e, ap src spot)
        | inr e ↦ ground (arith, e, rest)
      ]

  -- The same for a read, of which the buffer takes the bytes.
  tasks-read :
      (file : Bytes) (m : ℕ) (ps : List Piece) (buf : Bytes) (i : ℕ)
      → AllOn start from m ps
      → last_first (read_piece file) (leaf_tasks m ps) buf i ≡ (
          if leb from i && covers ps (start + (i - from)) then file (start + (i - from)) else buf i)
  unfolding last_first
  tasks-read file m [] buf i all = ground arith
  tasks-read file m (p ∷ ps) buf i (on, all) =
      let rest = tasks-read file m ps buf i all in
      elim (Bool-cases (leb from i && is_at p (start + (i - from)))) [
        | inl e ↦
            let spot : p.begin + (i - p.ptr) ≡ start + (i - from) =
              ground (arith, e, on.buffer, on.behind) in
            ground (arith, e, on.buffer, on.behind, ap file spot)
        | inr e ↦ ground (arith, e, on.buffer, on.behind, rest)
      ]

root-OnLevel :
    (begin end ptr : ℕ)
    → begin < end
    → end < 2 ^ 64
    → OnLevel begin ptr 64 (root_task begin end ptr)
root-OnLevel begin end ptr order word = record {
  number = 0;
  place = refl;
  low = omega arith;
  order = order;
  high = omega (arith, word);
  word = word;
  behind = omega arith;
  buffer = omega arith;
}

-- A request of a tree whose inner nodes all split it: `levels` has the bits of the inner nodes from the root
-- down, and a leaf has 2 ^ m bytes.
module _ (levels : List ℕ) (m begin end ptr : ℕ) (whole : bits_below levels m ≡ 64)
    (order : begin < end) (word : end < 2 ^ 64) where
  -- A request that ends before 2^64, of a tree whose levels and leaves have 64 bits of the address
  -- between them and whose inner nodes all split it, comes down to the leaves: the rounds of every level
  -- end, the tasks of the leaves have the range of the request between them and nothing else, and each
  -- is within its leaf and has its place in the caller's buffer.
  pub descend_done :
      (ps : List Piece) × (descend levels m (root_task begin end ptr ∷ []) ≡ some ps)
      × AllOn begin ptr m ps
      × ((i : ℕ) → covers ps i ≡ (leb begin i && ltb i end))
  descend_done =
      let on =
        subst (λ b. OnLevel begin ptr b (root_task begin end ptr)) (sym whole)
          (root-OnLevel begin end ptr order word) in
      let (ps, e, all, c) =
        descend-AllOn begin ptr levels m (root_task begin end ptr ∷ []) (omega (arith, whole))
          (on, tt) in
      (ps, e, all, λ i. c i ∙ ground arith)

  came_down :
      (ps : List Piece)
      → descend levels m (root_task begin end ptr ∷ []) ≡ some ps
      → AllOn begin ptr m ps × ((i : ℕ) → covers ps i ≡ (leb begin i && ltb i end))
  came_down ps pushed =
      let (us, e, all, c) = descend_done in
      subst (λ x. AllOn begin ptr m x × ((i : ℕ) → covers x i ≡ (leb begin i && ltb i end)))
        (some-injective _ _ (sym e ∙ pushed)) (all, c)

-- A write of a whole tree, over any number of levels of inner nodes that each split it, with leaves of
-- fewer than 2^64 bytes, each coherent and in its place: one worker runs the tasks of each round from the last one
-- on, and the leaves do theirs through their cache or round it. If neither the tree nor the request is
-- marked as failed after that, then what can be read through the tree is what it was with the range
-- replaced by the caller's bytes, and all leaves are coherent again.
pub tree_write_done :
    {E : Engine} (levels : List ℕ) (m begin end ptr : ℕ) (small : m < 64) (limits : Limits)
    (fresh src : Bytes) (s : Siblings E) (ps : List Piece)
    → bits_below levels m ≡ 64
    → begin < end
    → end < 2 ^ 64
    → AllCoherent (64 - m) m 0 s
    → descend levels m (root_task begin end ptr ∷ []) ≡ some ps
    → AllFine (write_children m limits fresh src (leaf_tasks m ps) s)
    → let t = write_children m limits fresh src (leaf_tasks m ps) s in
      SameBytes
        (view_below (64 - m) m 0 t)
        (copy (view_below (64 - m) m 0 s) begin src ptr (end - begin))
      × AllCoherent (64 - m) m 0 t
tree_write_done levels m begin end ptr small limits fresh src s ps whole order word good pushed f =
    let (all, c) = came_down levels m begin end ptr whole order word ps pushed in
    let (good', same) =
      write_children_done small limits fresh src (leaf_tasks m ps) s good
        (leaf_tasks-AllIn begin ptr m ps (omega (arith, small)) all) f in
    (
      (λ i.
          same i
          ∙ tasks-write begin ptr src m ps (view_below (64 - m) m 0 s) i all
          ∙ ground (arith, c i, order)),
      good',
    )

-- A read of a whole tree, over any number of levels of inner nodes that each split it, with leaves of
-- fewer than 2^64 bytes, each coherent and in its place: one worker runs the tasks of each round from the last one
-- on, and the leaves do theirs through their cache or round it. If neither the tree nor the request is
-- marked as failed after that, then the caller's buffer holds the bytes of the range that can be read through
-- the tree and is otherwise as it was; what can be read is as before, and all leaves are coherent again.
pub tree_read_done :
    {E : Engine} (levels : List ℕ) (m begin end ptr : ℕ) (small : m < 64) (limits : Limits)
    (fresh buf : Bytes) (partial : Bool) (s : Siblings E) (ps : List Piece)
    → bits_below levels m ≡ 64
    → begin < end
    → end < 2 ^ 64
    → AllCoherent (64 - m) m 0 s
    → descend levels m (root_task begin end ptr ∷ []) ≡ some ps
    → AllFine (read_children m limits fresh partial (leaf_tasks m ps) (s, buf)).0
    → let t = read_children m limits fresh partial (leaf_tasks m ps) (s, buf) in
      SameBytes t.1 (copy buf ptr (view_below (64 - m) m 0 s) begin (end - begin))
      × SameBytes (view_below (64 - m) m 0 t.0) (view_below (64 - m) m 0 s)
      × AllCoherent (64 - m) m 0 t.0
tree_read_done levels m begin end ptr small limits fresh buf partial s ps whole order word good
      pushed f =
    let (all, c) = came_down levels m begin end ptr whole order word ps pushed in
    let done =
      read_children_done (64 - m) 0 small limits fresh partial (leaf_tasks m ps) s buf good
        (leaf_tasks-AllIn begin ptr m ps (omega (arith, small)) all) f in
    (
      (λ i.
          done.filled i
          ∙ tasks-read begin ptr (view_below (64 - m) m 0 s) m ps buf i all
          ∙ ground (arith, c (begin + (i - ptr)), order)),
      done.kept,
      done.coherent_after,
    )
