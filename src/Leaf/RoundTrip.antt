-- ===== src/Leaf/RoundTrip.antt =====
-- A write of a leaf, its eviction, and a read of the same leaf.
use aiotest.Prelude.{ℕ, ◌-◌, ◌<◌, ◌≡◌, ◌∙◌, Bool, true, false, leb, arith, inl, inr, Bool-cases}
use aiotest.Prelude.Bytes.{Bytes, copy}
use aiotest.Prelude.Word.{sub64}
use aiotest.Engine.{Engine}
use aiotest.Controller.{Limits}
use aiotest.Cache.{Cell, request, unlock, unlock_both, io_unlock, fwrite, fail_to, fail, toggle}
use aiotest.Cache.View.{view, copy_same, SameBytes, IsCoherent, InPage}
use aiotest.Cache.Effects.{IsFine, fwrite-Effect, cached_write-Effect}
use aiotest.Leaf.{bypasses, ensure_cache, write_to, leaf_write, leaf_read, evict, write_back}
use aiotest.Leaf.Writes.{leaf_write_done}
use aiotest.Leaf.Reads.{leaf_read_data}
use aiotest.Leaf.Evict.{evict_done}

module _ {E : Engine} {n : ℕ} {s : Cell E} (good : IsCoherent n s) (fresh : Bytes) where
  evict-IsCoherent : IsCoherent n (evict fresh n s true)
  unfolding evict write_back fwrite fail_to fail unlock toggle
  evict-IsCoherent = record {
    aligned = ground (arith, good.aligned);
    room = ground (arith, good.room);
    fits = ground (arith, good.fits, good.owned);
    owned = λ d. ground (arith, good.owned);
    clean = λ d i lt. ground (arith, good.owned);
  }

  view-evict :
      (evict fresh n s true).failed ≡ false → SameBytes (view (evict fresh n s true)) (view s)
  view-evict f i =
      let (same, clean, bare, none_left) = evict_done good fresh true f in
      ground (arith, same i, none_left)

  offset-evict : (evict fresh n s true).offset ≡ s.offset
  unfolding evict write_back fwrite fail_to fail unlock toggle
  offset-evict = ground arith

module _ {E : Engine} (s : Cell E) where
  offset-unlock_both : (unlock_both s).offset ≡ s.offset
  unfolding unlock_both unlock io_unlock
  offset-unlock_both = ground arith

  offset-ensure_cache : (fresh : Bytes) (n : ℕ) → (ensure_cache fresh n s).offset ≡ s.offset
  unfolding ensure_cache toggle
  offset-ensure_cache fresh n = ground arith

module _ {E : Engine} (fresh : Bytes) (n : ℕ) (s : Cell E) (c : Limits) (begin end : ℕ)
    (ptr : Bytes) (at : ℕ) where
  offset-write_to : (write_to n c fresh s begin end ptr at).offset ≡ s.offset
  unfolding write_to io_unlock
  offset-write_to =
      let w = fwrite s ptr at begin (sub64 end begin) request in
      elim (Bool-cases (bypasses n c s)) [
        | inl e ↦ rw e (
            offset-unlock_both w.0
            ∙ (fwrite-Effect s ptr at begin (sub64 end begin) request).offset)
        | inr e ↦ rw e (
            (cached_write-Effect n (ensure_cache fresh n s) begin end ptr at request).offset
            ∙ offset-ensure_cache s fresh n)
      ]

  offset-leaf_write : n < 64 → (leaf_write n c fresh s begin end ptr at).offset ≡ s.offset
  unfolding leaf_write
  offset-leaf_write small = let large : leb 64 n ≡ false = ground arith in rw large offset-write_to

module _ {E : Engine} (fresh : Bytes) {n : ℕ} {s : Cell E} (good : IsCoherent n s) (c c' : Limits)
    {begin end from to : ℕ} (ptr out : Bytes) (at at' : ℕ) (page : InPage n s begin end)
    (page' : InPage n s from to) (small : n < 64) (partial : Bool) where
  abbrev after_write : Cell E
  after_write = leaf_write n c fresh s begin end ptr at

  abbrev after_evict : Cell E
  after_evict = evict fresh n after_write true

  -- A range within a coherent leaf of fewer than 2^64 bytes is written, the leaf is evicted with its
  -- cache given back, and a range within it is read, with any memory budget at the write and at the
  -- read. If neither the tree nor the request is marked as failed after any of the three, the reader's
  -- buffer holds what the writer wrote where the ranges meet, what could be read through the leaf
  -- before in the rest of the range, and is otherwise as it was.
  pub write_evict_read :
      IsFine after_write
      → after_evict.failed ≡ false
      → IsFine (leaf_read n c' fresh partial after_evict from to out at').0
      → SameBytes
          (leaf_read n c' fresh partial after_evict from to out at').1
          (copy out at' (copy (view s) begin ptr at (end - begin)) from (to - from))
  write_evict_read fine_w fine_e fine_r i =
      let (same, coherent) = leaf_write_done fresh good c ptr at page small fine_w in
      let here : after_evict.offset ≡ s.offset =
        offset-evict coherent fresh ∙ offset-leaf_write fresh n s c begin end ptr at small in
      let page_e : InPage n after_evict from to = record {
        low = omega (arith, here, page'.low);
        order = page'.order;
        high = omega (arith, here, page'.high);
        word = page'.word;
      } in
      let kept : SameBytes (view after_evict) (copy (view s) begin ptr at (end - begin)) =
        λ j. view-evict coherent fresh fine_e j ∙ same j in
      leaf_read_data fresh (evict-IsCoherent coherent fresh) c' out at' page_e small partial fine_r
        i
      ∙ copy_same out at' from (to - from) kept i
