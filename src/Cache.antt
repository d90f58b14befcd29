-- ===== src/Cache.antt =====
-- include/backup/BTreeNodeBase.hpp and src/backup/BTreeNodeBase.cpp: the cache of one B-tree node,
-- with what its methods change beside it. `cached` is `data != nullptr`; `memory` is what `data`
-- points to. `unlocks` counts the tasks that `unlock` pushed, each of which gives one lock back to
-- the parent. A null `IOCtrl*` is `nobody`.
pub mod View
pub mod Read
pub mod Write
pub mod Effects
use Prim.Native.Nat.{bit_and}
use aiotest.Prelude.{ℕ, ◌+◌, ◌-◌, ◌/◌, ◌^◌, Bool, true, false, not, ◌&&◌, ltb, leb, if◌then◌else◌}
use aiotest.Prelude.Word.{add64, sub64}
use aiotest.Prelude.Bytes.{Bytes, copy}
use aiotest.Engine.{Engine}

-- The parent pointer: null, the node itself, or a node above.
pub data Parent : Type 0 where
  null itself above : Parent

abbrev pub is_null : Parent → Bool
is_null null = true
is_null _ = false

pub data Owner : Type 0 where
  nobody request : Owner

pub record Cell (E : Engine) : Type 0 where
  pub offset : ℕ
  pub parent : Parent
  pub cached : Bool
  pub memory : Bytes
  pub effective : ℕ
  pub dirty : Bool
  pub unlocks : ℕ
  pub file : E.File
  pub size : ℕ  -- conf.io->size
  pub failed : Bool  -- conf.failed
  pub io_failed : Bool  -- the request's `failed`
  pub io_unlocks : ℕ  -- calls of the request's `unlock`
  pub used : ℕ  -- Controller::ctrl->used
  pub queued : ℕ  -- entries of this node in Controller::ctrl->cache

-- `x & N - 1`, for N = 2 ^ n.
abbrev pub low_bits : ℕ → ℕ → ℕ
low_bits n x = bit_and x (2 ^ n - 1)

module _ {E : Engine} where
  abbrev pub valid : Cell E → Bool
  valid s = not (is_null s.parent)

  unfoldable pub fail : Cell E → Cell E
  fail s = record s { failed = true }

  unfoldable pub fail_to : Owner → Cell E → Cell E
  fail_to nobody s = fail s
  fail_to request s = record s { io_failed = true }

  unfoldable pub unlock : Cell E → Cell E
  unlock s = if is_null s.parent then s else record s { unlocks = s.unlocks + 1 }

  unfoldable pub io_unlock : Cell E → Cell E
  io_unlock s = record s { io_unlocks = s.io_unlocks + 1 }

  -- unlock(io)
  unfoldable pub unlock_both : Cell E → Cell E
  unlock_both s = io_unlock (unlock s)

  unfoldable pub fread : Cell E → (buf : Bytes) → (to pos len : ℕ) → Owner → Cell E × Bytes × Bool
  fread s buf to pos len io =
      let r = E.read s.file buf to pos len in (if r.1 then s else fail_to io s, r.0, r.1)

  unfoldable pub fwrite : Cell E → (buf : Bytes) → (from pos len : ℕ) → Owner → Cell E × Bool
  fwrite s buf from pos len io =
      let r = E.write s.file buf from pos len in
      let t = record s { file = r.0 } in (if r.1 then t else fail_to io t, r.1)

  -- Fill the cache up to `len`.
  unfoldable pub prefetch : Cell E → (len : ℕ) → Owner → Cell E × Bool
  prefetch s len io =
      let r =
        fread s s.memory s.effective (add64 s.offset s.effective) (sub64 len s.effective) io in
      let t =
        if ltb s.effective len && s.cached
        then (if r.2
            then record (r.0) { memory = r.1; effective = len }
            else fail (record (r.0) { memory = r.1 }))
        else s in
      (t, leb len t.effective)

  unfoldable pub cached_read :
      (n : ℕ) → Cell E → (begin end : ℕ) → (ptr : Bytes) → (to : ℕ) → Owner → Cell E × Bytes × Bool
  cached_read n s begin end ptr to io =
      let base = low_bits n begin in
      let len = sub64 end begin in
      let r = fread s ptr to begin len io in
      let p = prefetch s (sub64 end s.offset) nobody in
      if ltb s.effective base && ltb len (base - s.effective)
      then (unlock r.0, r.1, r.2)
      else (unlock p.0, if p.1 then copy ptr to (p.0).memory base len else ptr, p.1)

  -- The second half of `cachedWrite`: the bytes go into the cache ...
  unfoldable pub absorb : Cell E → (base last : ℕ) → (ptr : Bytes) → (from len : ℕ) → Cell E
  absorb s base last ptr from len = record s {
    memory = copy s.memory base ptr from len;
    effective = if leb s.effective last then last + 1 else s.effective;
  }

  -- ... and to the file too if that is cheaper than to keep the cache dirty.
  unfoldable pub settle : Cell E → (begin len : ℕ) → (ptr : Bytes) → (from : ℕ) → Owner → Cell E
  settle s begin len ptr from io =
      let w = fwrite s ptr from begin len io in
      if s.dirty
      then unlock s
      else if ltb len (s.effective / 2)
      then (if w.1 then unlock w.0 else record (w.0) { dirty = true })
      else record s { dirty = true }

  unfoldable pub cached_write :
      (n : ℕ) → Cell E → (begin end : ℕ) → (ptr : Bytes) → (from : ℕ) → Owner → Cell E × Bool
  cached_write n s begin end ptr from io =
      let base = low_bits n begin in
      let len = sub64 end begin in
      let w = fwrite s ptr from begin len io in
      let p = prefetch s base nobody in
      if ltb s.effective base && ltb len (base - s.effective) then (unlock w.0, w.1) else (
        settle (absorb p.0 base (low_bits n (sub64 end 1)) ptr from len) begin len ptr from io,
        p.1,
      )

  -- BTreeConfig::operator(): allocate the cache, or give it back. `fresh` is what `new char[size]`
  -- happens to hold.
  unfoldable pub toggle : (fresh : Bytes) → Cell E → (size : ℕ) → Cell E
  toggle fresh s size =
      if s.cached
      then record s { effective = 0; used = sub64 s.used size; cached = false }
      else record s {
        effective = 0;
        used = add64 s.used size;
        queued = s.queued + 1;
        cached = true;
        memory = fresh;
      }
