-- ===== src/Leaf.antt =====
-- include/backup/BTree.hpp, `BTreeNode<first>`: the nodes without children. A node covers N = 2 ^ n
-- bytes; at n = 64 the code's N is 0, and the node never has a cache.
pub mod Steps
pub mod Reads
pub mod Writes
pub mod Evict
pub mod RoundTrip
use aiotest.Prelude.{ℕ, ◌^◌, Bool, true, false, not, ◌&&◌, ◌||◌, ltb, leb, if◌then◌else◌}
use aiotest.Prelude.Word.{sub64}
use aiotest.Prelude.Bytes.{Bytes}
use aiotest.Engine.{Engine}
use aiotest.Controller.{Limits, usage, is_full}
use aiotest.Cache.{
  Cell, null, itself, nobody, request, valid, io_unlock, unlock, unlock_both, fail_to, fread,
  fwrite, cached_read, cached_write, toggle,
}

-- `!N`
abbrev pub covers_all : ℕ → Bool
covers_all n = leb 64 n

module _ {E : Engine} where
  -- `!N || !data && usage(N) == Full`: the request goes round the cache.
  abbrev pub bypasses : ℕ → Limits → Cell E → Bool
  bypasses n c s = covers_all n || not s.cached && is_full (usage c s.used (2 ^ n))

  -- `if (!data) conf(this, N)`
  unfoldable pub ensure_cache : (fresh : Bytes) → ℕ → Cell E → Cell E
  ensure_cache fresh n s = if s.cached then s else toggle fresh s (2 ^ n)

  unfoldable pub read_to :
      ℕ
      → Limits
      → (fresh : Bytes) → Cell E
      → (begin end : ℕ) → (ptr : Bytes) → (to : ℕ) → Cell E × Bytes
  read_to n c fresh s begin end ptr to =
      let direct = fread s ptr to begin (sub64 end begin) request in
      let r = cached_read n (ensure_cache fresh n s) begin end ptr to request in
      if bypasses n c s then (unlock_both direct.0, direct.1) else (io_unlock r.0, r.1)

  -- The caller's buffer is `ptr`, and the request's bytes start at `to` in it.
  unfoldable pub leaf_read :
      ℕ
      → Limits
      → (fresh : Bytes) → (partial : Bool) → Cell E
      → (begin end : ℕ) → (ptr : Bytes) → (to : ℕ) → Cell E × Bytes
  leaf_read n c fresh partial s begin end ptr to =
      if covers_all n && ltb s.size end
      then (if not partial || leb s.size begin
          then (unlock_both (fail_to request s), ptr)
          else read_to n c fresh s begin s.size ptr to)
      else read_to n c fresh s begin end ptr to

  unfoldable pub write_to :
      ℕ → Limits → (fresh : Bytes) → Cell E → (begin end : ℕ) → (ptr : Bytes) → (from : ℕ) → Cell E
  write_to n c fresh s begin end ptr from =
      if bypasses n c s
      then unlock_both (fwrite s ptr from begin (sub64 end begin) request).0
      else io_unlock (cached_write n (ensure_cache fresh n s) begin end ptr from request).0

  -- `fwrite("0", end - 1, 1, io)` writes the character zero, where the inner nodes write a null byte.
  unfoldable pub leaf_write :
      ℕ → Limits → (fresh : Bytes) → Cell E → (begin end : ℕ) → (ptr : Bytes) → (from : ℕ) → Cell E
  leaf_write n c fresh s begin end ptr from =
      let w = fwrite s (λ _. b'0') 0 (sub64 end 1) 1 request in
      if covers_all n && ltb s.size end
      then (if w.1
          then write_to n c fresh (record (w.0) { size = end }) begin end ptr from
          else unlock_both w.0)
      else write_to n c fresh s begin end ptr from

  unfoldable pub flush : Cell E → Cell E
  flush s =
      let w = fwrite s s.memory 0 s.offset s.effective request in
      if s.dirty then (if w.1 then unlock (record (w.0) { dirty = false }) else w.0) else s

  -- The write-back of `evict`, whose result the code drops.
  unfoldable pub write_back : Cell E → Cell E
  write_back s =
      if s.dirty
      then unlock (record ((fwrite s s.memory 0 s.offset s.effective nobody).0) { dirty = false })
      else s

  unfoldable pub evict : (fresh : Bytes) → ℕ → Cell E → (release : Bool) → Cell E
  evict fresh n s release =
      let t = write_back s in if release && t.cached then toggle fresh t (2 ^ n) else t

  -- `none` is a node that has been deleted; its destructor evicts the cache.
  unfoldable pub suicide : (fresh : Bytes) → ℕ → Cell E → Cell E × Bool
  suicide fresh n s = (evict fresh n s true, true)

  unfoldable pub gc : (fresh : Bytes) → ℕ → Cell E → Cell E × Bool
  gc fresh n s = if valid s then (evict fresh n s true, false) else suicide fresh n s

  unfoldable pub leaf_drop : (fresh : Bytes) → ℕ → Cell E → (force : Bool) → Cell E × Bool
  leaf_drop fresh n s force =
      if s.cached
      then (record s { parent = if force then null else itself }, false)
      else suicide fresh n s

  unfoldable pub leaf_detach : (fresh : Bytes) → ℕ → Cell E → (force : Bool) → Cell E × Bool
  leaf_detach fresh n s force =
      let t = if force then s else evict fresh n s false in
      if s.cached then (record t { parent = null }, false) else suicide fresh n s
