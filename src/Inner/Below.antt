-- ===== src/Inner/Below.antt =====
-- include/backup/BTree.hpp, `BTreeNode<first, rest...>`: the children of a node, those that a request makes,
-- and the tasks that the calls of a node push for them.
use aiotest.Prelude.{ℕ, zero, suc, ◌+◌, Bool, false, List, [], ◌∷◌, if◌then◌else◌}
use aiotest.Cache.{null, itself, above}
use aiotest.Node.{Piece}
use aiotest.Subtree.{Page, Node, leaf, inner, Children, nil, gap, child}

-- What the calls of a node push for its children with pushWait.
pub data Work : Type 0 where
  reads writes : Piece → Work
  flushes : Node → Work
  detaches : Node → (force : Bool) → Work

-- `m` of a node, by the widths below it
abbrev pub sum : List ℕ → ℕ
sum [] = 0
sum (x ∷ xs) = x + sum xs

-- The members of a new node.
abbrev pub new_page : (offset : ℕ) → Page
new_page offset = record {
  offset = offset;
  parent = above;
  cached = false;
  memory = λ _. 0;
  effective = 0;
  dirty = false;
}

-- The constructors, by the widths of the node and below: `child(1)` is one null pointer.
unfoldable pub new_node : (widths : List ℕ) → (offset : ℕ) → Node
new_node [] offset = leaf (new_page offset)
new_node (w ∷ []) offset = leaf (new_page offset)
new_node (w ∷ v ∷ vs) offset = inner (new_page offset) (sum (v ∷ vs)) (gap nil)

-- `child.resize(size)` where it is shorter
unfoldable pub grow : (size : ℕ) → Children → Children
grow zero cs = cs
grow (suc size) nil = gap (grow size nil)
grow (suc size) (gap cs) = gap (grow size cs)
grow (suc size) (child t cs) = child t (grow size cs)

-- The two `touch`es; an index beyond the children, which the code leaves undefined, changes nothing.
unfoldable pub touch : (rest : List ℕ) → Children → (i offset : ℕ) → Children
touch rest nil i offset = nil
touch rest (gap cs) zero offset = child (new_node rest offset) cs
touch rest (gap cs) (suc i) offset = gap (touch rest cs i offset)
touch rest (child t cs) zero offset = child t cs
touch rest (child t cs) (suc i) offset = child t (touch rest cs i offset)

unfoldable pub touch_all : (rest : List ℕ) → Children → List Piece → Children
touch_all rest cs [] = cs
touch_all rest cs (p ∷ ps) = touch_all rest (touch rest cs p.index p.hint) ps

abbrev pub read_work : List Piece → List Work
read_work [] = []
read_work (p ∷ ps) = reads p ∷ read_work ps

abbrev pub write_work : List Piece → List Work
write_work [] = []
write_work (p ∷ ps) = writes p ∷ write_work ps

-- The children there are, in the order of the loops over `child`.
abbrev pub present : Children → List Node
present nil = []
present (gap cs) = present cs
present (child t cs) = t ∷ present cs

-- The parent that detach gives to a child before it pushes the child's detach.
abbrev pub cut : (force : Bool) → Node → Node
cut force (leaf p) = leaf (record p { parent = if force then null else itself })
cut force (inner p m cs) = inner (record p { parent = if force then null else itself }) m cs

abbrev pub flush_work : List Node → List Work
flush_work [] = []
flush_work (t ∷ ts) = flushes t ∷ flush_work ts

abbrev pub detach_work : (force : Bool) → List Node → List Work
detach_work force [] = []
detach_work force (t ∷ ts) = detaches (cut force t) force ∷ detach_work force ts
