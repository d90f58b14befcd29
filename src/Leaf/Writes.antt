-- ===== src/Leaf/Writes.antt =====
-- Writes of a leaf, cache allocation and budget included.
use aiotest.Prelude.{
  ℕ, ◌+◌, ◌-◌, ◌<◌, ◌≡◌, refl, ◌∙◌, Bool, true, false, arith, inl, inr, Bool-cases, if◌then◌else◌,
}
use aiotest.Prelude.Bytes.{Bytes, copy}
use aiotest.Prelude.Word.{sub64}
use aiotest.Engine.{Engine}
use aiotest.Controller.{Limits}
use aiotest.Cache.{
  Cell, request, unlock, unlock_both, io_unlock, fwrite, fail_to, fail, cached_write, is_null,
}
use aiotest.Cache.View.{view, SameBytes, IsCoherent, InPage}
use aiotest.Cache.Write.{cached_write_done}
use aiotest.Cache.Effects.{IsFine, locks, fwrite-Effect, cached_write-Effect, cached_write_fine}
use aiotest.Leaf.{covers_all, bypasses, ensure_cache, write_to, leaf_write}
use aiotest.Leaf.Steps.{
  ensure_cache-IsCoherent, view-ensure_cache, ensure_cache-InPage, ensure_cache-fields,
  io_unlock-IsCoherent, unlock_both_fields,
}

module _ {E : Engine} (fresh : Bytes) {n : ℕ} {s : Cell E} (good : IsCoherent n s) (c : Limits)
    {begin end : ℕ} (ptr : Bytes) (at : ℕ) (page : InPage n s begin end) (small : n < 64) where
  abbrev open_cell : Cell E
  open_cell = ensure_cache fresh n s

  abbrev around : Bool
  around = bypasses n c s

  leaf_write_cases : leaf_write n c fresh s begin end ptr at ≡ (
      if around
      then unlock_both (fwrite s ptr at begin (end - begin) request).0
      else io_unlock (cached_write n open_cell begin end ptr at request).0)
  unfolding leaf_write write_to
  leaf_write_cases = rw (large, len) refl
    where
      large : covers_all n ≡ false
      large = ground arith

      len : sub64 end begin ≡ end - begin
      len = ground arith

  direct_write :
      around ≡ true
      → let t = unlock_both (fwrite s ptr at begin (end - begin) request).0 in
        IsFine t → SameBytes (view t) (copy (view s) begin ptr at (end - begin))
  unfolding fwrite fail_to fail unlock_both unlock io_unlock
  direct_write e f i =
      ground (arith, uncached, good.owned, E.write_done s.file ptr at begin (end - begin) i)
    where
      uncached : s.cached ≡ false
      uncached = ground arith

  direct_write-IsCoherent :
      around ≡ true → IsCoherent n (unlock_both (fwrite s ptr at begin (end - begin) request).0)
  unfolding fwrite fail_to fail unlock_both unlock io_unlock
  direct_write-IsCoherent e = record {
    aligned = ground (arith, good.aligned);
    room = ground (arith, good.room);
    fits = ground (arith, good.fits);
    owned = λ d. ground (arith, good.owned);
    clean = λ d i lt. absurd (ground (arith, good.owned));
  }

  present :
      let t = ensure_cache fresh n s in
      (t.cached ≡ true)
      × (t.parent ≡ s.parent)
      × (locks t ≡ locks s)
      × (t.io_unlocks ≡ s.io_unlocks)
  present = ensure_cache-fields fresh good

  written :
      let r = cached_write n open_cell begin end ptr at request in
      IsFine r.0
      → SameBytes (view r.0) (copy (view open_cell) begin ptr at (end - begin)) × IsCoherent n r.0
  written f =
      cached_write_done (ensure_cache-IsCoherent fresh good) ptr at request
        (ensure_cache-InPage fresh good page) present.0
        (cached_write_fine n open_cell begin end ptr at present.0 f)

  view-written :
      let t = (cached_write n open_cell begin end ptr at request).0 in
      IsFine (io_unlock t)
      → SameBytes (view (io_unlock t)) (copy (view s) begin ptr at (end - begin))
  unfolding io_unlock
  view-written f i = (written f).0 i ∙ ground (arith, view-ensure_cache fresh good i)

  -- If neither the tree nor the request is marked as failed after a write of a range within a
  -- coherent leaf of fewer than 2^64 bytes, through the cache or round it, then what can be read
  -- through the leaf is what it was with the range replaced by the caller's bytes, and the leaf
  -- is coherent.
  pub leaf_write_done :
      IsFine (leaf_write n c fresh s begin end ptr at)
      → let t = leaf_write n c fresh s begin end ptr at in
        SameBytes (view t) (copy (view s) begin ptr at (end - begin)) × IsCoherent n t
  leaf_write_done = rw leaf_write_cases (elim (Bool-cases around) [
    | inl e ↦ rw e (λ f. (direct_write e f, direct_write-IsCoherent e))
    | inr e ↦
        rw e (λ f. (view-written f, io_unlock-IsCoherent _ (unfold io_unlock in (written f).1)))
  ])

  -- A write of a range within a coherent leaf of fewer than 2^64 bytes that hangs in the tree
  -- gives back exactly one lock of the parent, counting one that stays for a dirty cache, and
  -- one of the request, whatever fails.
  pub locks-leaf_write :
      is_null s.parent ≡ false
      → let t = leaf_write n c fresh s begin end ptr at in
        (locks t ≡ locks s + 1) × (t.io_unlocks ≡ s.io_unlocks + 1)
  locks-leaf_write p = rw leaf_write_cases (elim (Bool-cases around) [
    | inl e ↦ rw e (
        ground (
          arith,
          fwrite-Effect s ptr at begin (end - begin) request,
          unlock_both_fields (fwrite s ptr at begin (end - begin) request).0,
        ))
    | inr e ↦ rw e (
        unfold io_unlock in
        ground (arith, present, cached_write-Effect n open_cell begin end ptr at request))
  ])
