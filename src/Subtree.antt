-- ===== src/Subtree.antt =====
-- The subtree below a node, as the recursion of include/backup/BTree.hpp over `child` sees it: merge,
-- drop, dropChild and detach. A node that is deleted is not in the result of an operation; what is left
-- of it is a list of the pages that stay, with the parent they then have. They wait in the controller's
-- cache queue until they are collected.
pub mod Merge
pub mod Whole
use aiotest.Prelude.{ℕ, ◌+◌, ◌^◌, Bool, true, false, List, [], ◌∷◌, ◌++◌, if◌then◌else◌}
use aiotest.Prelude.Word.{add64, sub64}
use aiotest.Prelude.Bytes.{Bytes, copy}
use aiotest.Engine.{Engine}
use aiotest.Controller.{Limits, usage, is_full}
use aiotest.Cache.{Cell, Parent, null, itself, Owner, prefetch, toggle}

-- A node's own members, beside those of the shared configuration. `cached` is `data != nullptr`.
pub record Page : Type 0 where
  pub offset : ℕ
  pub parent : Parent
  pub cached : Bool
  pub memory : Bytes
  pub effective : ℕ
  pub dirty : Bool

-- `inner` has the bits `m` of its children's size; `gap` is a null pointer among the children.
mutual
  pub data Node : Type 0 where
    leaf : Page → Node
    inner : Page → (m : ℕ) → Children → Node

  pub data Children : Type 0 where
    nil : Children
    gap : Children → Children
    child : Node → Children → Children

module _ {E : Engine} where
  -- The first branch of both `merge`s: the page's bytes go into the cache of the node `s`, after what
  -- lies between; whether the prefetch of that worked is not looked at.
  unfoldable pub merge_page : Cell E → Page → Owner → Cell E
  merge_page s p io =
      let shift = sub64 p.offset s.offset in
      let t = (prefetch s shift io).0 in
      record t {
        memory = copy t.memory shift p.memory 0 p.effective;
        effective = add64 shift p.effective;
      }

-- The parent set to null.
abbrev pub orphan : Page → Page
orphan p = record p { parent = null }

-- A leaf without data is not unlinked and not deleted.
unfoldable mutual
  pub merge_node : {E : Engine} → Cell E → Node → Owner → Cell E × List Page
  merge_node s (leaf p) io = if p.cached then (merge_page s p io, orphan p ∷ []) else (s, p ∷ [])
  merge_node s (inner p m cs) io =
      let rest = merge_children s cs io in
      if p.cached then (merge_page s p io, orphan p ∷ []) else rest

  pub merge_children : {E : Engine} → Cell E → Children → Owner → Cell E × List Page
  merge_children s nil io = (s, [])
  merge_children s (gap cs) io = merge_children s cs io
  merge_children s (child t cs) io =
      let a = merge_node s t io in let b = merge_children a.0 cs io in (b.0, a.1 ++ b.1)

-- `merge(io)` of the node itself, of 2 ^ nm bytes: the node, what is left of its children, and whether it
-- merged. The children are cleared then.
unfoldable pub merge :
    {E : Engine}
    → (nm : ℕ) → Limits
    → (fresh : Bytes) → Cell E
    → Children
    → Owner
    → Cell E × List Page × Bool
merge nm c fresh s cs io =
    let m = merge_children (toggle fresh s (2 ^ nm)) cs io in
    if is_full (usage c s.used (2 ^ nm)) then (s, [], false) else (m.0, m.1, true)

-- The parent that a dropped page gets.
abbrev pub dropped : (force : Bool) → Page → Page
dropped force p = record p { parent = if force then null else itself }

unfoldable mutual
  pub drop_node : (force : Bool) → Node → List Page
  drop_node force (leaf p) = if p.cached then dropped force p ∷ [] else []
  drop_node force (inner p m cs) =
      let rest = drop_children force cs in if p.cached then dropped force p ∷ [] else rest

  pub drop_children : (force : Bool) → Children → List Page
  drop_children force nil = []
  drop_children force (gap cs) = drop_children force cs
  drop_children force (child t cs) = drop_node force t ++ drop_children force cs
