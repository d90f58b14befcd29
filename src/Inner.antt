-- ===== src/Inner.antt =====
-- include/backup/BTree.hpp, `BTreeNode<first, rest...>`: a call of read, write, flush, evict or detach on
-- a node with children. The node has 2 ^ n children of 2 ^ m bytes; `rest` has the widths below it.
pub mod Below
pub mod Reads
pub mod Writes
pub mod Locks
use aiotest.Prelude.{
  ℕ, ◌+◌, ◌-◌, ◌^◌, Bool, true, false, not, ◌&&◌, ◌||◌, Option, none, some, List, [], ◌==◌, ltb,
  leb, if◌then◌else◌,
}
use aiotest.Prelude.Word.{sub64}
use aiotest.Prelude.Bytes.{Bytes, copy}
use aiotest.Engine.{Engine}
use aiotest.Controller.{Limits, usage, is_full}
use aiotest.Cache.{
  Cell, null, request, io_unlock, unlock, unlock_both, fail_to, fread, fwrite, cached_read,
  cached_write, toggle,
}
use aiotest.Leaf.{covers_all, evict}
use aiotest.Leaf as Leaf
use aiotest.Node.{Piece, get_range, pieces}
use aiotest.Subtree.{Page, Node, inner, Children, nil, child, merge, drop_children}
use aiotest.Inner.Below.{
  Work, sum, grow, touch, touch_all, read_work, write_work, present, flush_work, detach_work,
}

-- A node with its counter of locked children and its children. `io_locks` counts the locks that the
-- request has taken, `left` has the pages that nodes below left behind, `work` what was pushed.
pub record Call (E : Engine) : Type 0 where
  pub cell : Cell E
  pub lck : ℕ
  pub below : Children
  pub io_locks : ℕ
  pub left : List Page
  pub work : List Work

-- `!NM || locked() || end - begin < NM`
abbrev pub splits : (nm : ℕ) → (lck begin end : ℕ) → Bool
splits nm lck begin end = covers_all nm || not (lck == 0) || ltb (sub64 end begin) (2 ^ nm)

module _ {E : Engine} where
  -- A call that pushes nothing and leaves the children alone.
  abbrev pub answered : Cell E → (lck : ℕ) → Children → Call E
  answered s lck cs = record { cell = s; lck = lck; below = cs; io_locks = 0; left = []; work = [] }

  -- The second branch of read and write. `none` is a split that does not end.
  unfoldable pub split :
      (n : ℕ)
      → (rest : List ℕ) → (List Piece → List Work)
      → Cell E
      → (lck : ℕ) → Children
      → (begin end ptr : ℕ) → Option (Call E)
  split n rest to_work s lck cs begin end ptr =
      let (first, last) = get_range n (sum rest) begin end in
      elim (pieces n (sum rest) s.offset begin end ptr) [
        | none ↦ none
        | some ps ↦ some (record {
          cell = s;
          lck = lck + (last - first + 1);
          below = touch_all rest (grow (last + 1) cs) ps;
          io_locks = last - first;
          left = [];
          work = to_work ps;
        })
      ]

  -- The last two branches of read.
  unfoldable pub read_whole :
      (nm : ℕ)
      → Limits
      → (fresh : Bytes) → Cell E
      → (lck : ℕ) → Children
      → (begin end : ℕ) → (ptr : Bytes) → (to : ℕ) → Call E × Bytes
  read_whole nm c fresh s lck cs begin end ptr to =
      let (t, left, merged) = merge nm c fresh s cs request in
      let r = cached_read nm t begin end ptr to request in
      let d = fread s ptr to begin (2 ^ nm) request in
      if merged
      then (
        record {
          cell = io_unlock r.0;
          lck = lck;
          below = nil;
          io_locks = 0;
          left = left;
          work = [];
        },
        r.1,
      )
      else (answered (unlock_both d.0) lck cs, d.1)

  unfoldable pub read_within :
      (n : ℕ)
      → (rest : List ℕ) → Limits
      → (fresh : Bytes) → Cell E
      → (lck : ℕ) → Children
      → (begin end : ℕ) → (ptr : Bytes) → (to : ℕ) → Option (Call E × Bytes)
  read_within n rest c fresh s lck cs begin end ptr to =
      let nm = n + sum rest in
      let r = cached_read nm s begin end ptr to request in
      if not (covers_all nm) && s.cached
      then some (answered (io_unlock r.0) lck cs, r.1)
      else if splits nm lck begin end
      then elim (split n rest read_work s lck cs begin end to) [
        | none ↦ none
        | some call ↦ some (call, ptr)
      ]
      else some (read_whole nm c fresh s lck cs begin end ptr to)

  unfoldable pub inner_read :
      (n : ℕ)
      → (rest : List ℕ) → Limits
      → (fresh : Bytes) → (partial : Bool) → Cell E
      → (lck : ℕ) → Children
      → (begin end : ℕ) → (ptr : Bytes) → (to : ℕ) → Option (Call E × Bytes)
  inner_read n rest c fresh partial s lck cs begin end ptr to =
      if covers_all (n + sum rest) && ltb s.size end
      then (if not partial || leb s.size begin
          then some (answered (unlock_both (fail_to request s)) lck cs, ptr)
          else read_within n rest c fresh s lck cs begin s.size ptr to)
      else read_within n rest c fresh s lck cs begin end ptr to

  -- The last branch of write.
  unfoldable pub write_whole :
      (nm : ℕ)
      → Limits
      → (fresh : Bytes) → Cell E
      → (lck : ℕ) → Children
      → (begin end : ℕ) → (ptr : Bytes) → (from : ℕ) → Call E
  write_whole nm c fresh s lck cs begin end ptr from =
      let t = toggle fresh s (2 ^ nm) in
      let kept =
        if is_full (usage c s.used (2 ^ nm))
        then unlock_both (fwrite s ptr from begin (sub64 end begin) request).0
        else io_unlock (record t {
          memory = copy t.memory 0 ptr from (2 ^ nm);
          effective = 2 ^ nm;
          dirty = true;
        }) in
      record {
        cell = kept;
        lck = lck;
        below = nil;
        io_locks = 0;
        left = drop_children true cs;
        work = [];
      }

  unfoldable pub write_within :
      (n : ℕ)
      → (rest : List ℕ) → Limits
      → (fresh : Bytes) → Cell E
      → (lck : ℕ) → Children
      → (begin end : ℕ) → (ptr : Bytes) → (from : ℕ) → Option (Call E)
  write_within n rest c fresh s lck cs begin end ptr from =
      let nm = n + sum rest in
      if not (covers_all nm) && s.cached
      then some (answered (io_unlock (cached_write nm s begin end ptr from request).0) lck cs)
      else if splits nm lck begin end
      then split n rest write_work s lck cs begin end from
      else some (write_whole nm c fresh s lck cs begin end ptr from)

  -- A node that covers everything extends the file by writing a null byte at its new end.
  unfoldable pub inner_write :
      (n : ℕ)
      → (rest : List ℕ) → Limits
      → (fresh : Bytes) → Cell E
      → (lck : ℕ) → Children
      → (begin end : ℕ) → (ptr : Bytes) → (from : ℕ) → Option (Call E)
  inner_write n rest c fresh s lck cs begin end ptr from =
      let w = fwrite s (λ _. 0) 0 (sub64 end 1) 1 request in
      if covers_all (n + sum rest) && ltb s.size end
      then (if w.1
          then write_within n rest c fresh (record (w.0) { size = end }) lck cs begin end ptr from
          else some (answered (unlock_both w.0) lck cs))
      else write_within n rest c fresh s lck cs begin end ptr from

  -- A dirty cache is flushed as in a leaf; with no cache and a locked child the flush goes down.
  unfoldable pub inner_flush : Cell E → (lck : ℕ) → Children → Call E
  inner_flush s lck cs =
      if s.dirty
      then answered (Leaf.flush s) lck cs
      else if not s.cached && not (lck == 0)
      then record (answered s lck cs) { work = flush_work (present cs) }
      else answered s lck cs

  -- The second component says whether the node has been deleted.
  unfoldable pub inner_detach :
      (fresh : Bytes) → (nm : ℕ) → Cell E → (lck : ℕ) → Children → (force : Bool) → Call E × Bool
  inner_detach fresh nm s lck cs force =
      let t = if force then s else evict fresh nm s false in
      if s.cached
      then (answered (record t { parent = null }) lck cs, false)
      else (record (answered s lck nil) { work = detach_work force (present cs) }, true)
