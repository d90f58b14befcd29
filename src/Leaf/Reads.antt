-- ===== src/Leaf/Reads.antt =====
-- Reads of a leaf, cache allocation and budget included.
use aiotest.Prelude.{
  ℕ, ◌+◌, ◌-◌, ◌<◌, ◌≡◌, refl, ◌∙◌, Bool, true, false, arith, inl, inr, Bool-cases, if◌then◌else◌,
}
use aiotest.Prelude.Bytes.{Bytes, copy}
use aiotest.Prelude.Word.{sub64}
use aiotest.Engine.{Engine}
use aiotest.Controller.{Limits}
use aiotest.Cache.{
  Cell, request, unlock, unlock_both, io_unlock, fread, fail_to, fail, cached_read, is_null,
}
use aiotest.Cache.View.{view, SameBytes, IsCoherent, InPage, fread-IsCoherent}
use aiotest.Cache.Read.{cached_read_keeps, cached_read_data}
use aiotest.Cache.Effects.{IsFine, locks, fread-Effect, cached_read-Effect, cached_read_fine}
use aiotest.Leaf.{covers_all, bypasses, ensure_cache, read_to, leaf_read}
use aiotest.Leaf.Steps.{
  ensure_cache-IsCoherent, view-ensure_cache, ensure_cache-InPage, ensure_cache-fields, view-unlock,
  unlock_both-IsCoherent, view-io_unlock, view-fread, io_unlock-IsCoherent, unlock_both_fields,
}

module _ {E : Engine} (fresh : Bytes) {n : ℕ} {s : Cell E} (good : IsCoherent n s) (c : Limits)
    {begin end : ℕ} (ptr : Bytes) (at : ℕ) (page : InPage n s begin end) (small : n < 64) where
  abbrev open_cell : Cell E
  open_cell = ensure_cache fresh n s

  abbrev around : Bool
  around = bypasses n c s

  leaf_read_cases :
      (partial : Bool)
      → leaf_read n c fresh partial s begin end ptr at ≡ (
          if around
          then (
            unlock_both (fread s ptr at begin (end - begin) request).0,
            (fread s ptr at begin (end - begin) request).1,
          )
          else (
            io_unlock (cached_read n open_cell begin end ptr at request).0,
            (cached_read n open_cell begin end ptr at request).1,
          ))
  unfolding leaf_read read_to
  leaf_read_cases partial = rw (large, len) refl
    where
      large : covers_all n ≡ false
      large = ground arith

      len : sub64 end begin ≡ end - begin
      len = ground arith

  -- A read of a range within a coherent leaf of fewer than 2^64 bytes changes nothing that can
  -- be read through the leaf and leaves it coherent, through the cache or round it and whatever
  -- the engine answers.
  pub leaf_read_keeps :
      (partial : Bool)
      → let t = (leaf_read n c fresh partial s begin end ptr at).0 in
        SameBytes (view t) (view s) × IsCoherent n t
  leaf_read_keeps partial = rw (leaf_read_cases partial) (elim (Bool-cases around) [
    | inl e ↦ rw e (
      (λ i. view-unlock _ i ∙ view-fread s ptr at begin (end - begin) i),
      unlock_both-IsCoherent _ (fread-IsCoherent good ptr at begin (end - begin) request),
    )
    | inr e ↦ rw e (
      (λ i. view-io_unlock _ i ∙ (cached.0 i ∙ view-ensure_cache fresh good i)),
      io_unlock-IsCoherent _ cached.1,
    )
  ])
    where
      cached :
          let t = (cached_read n open_cell begin end ptr at request).0 in
          SameBytes (view t) (view open_cell) × IsCoherent n t
      cached =
          cached_read_keeps (ensure_cache-IsCoherent fresh good) ptr at request
            (ensure_cache-InPage fresh good page)

  uncached : around ≡ true → s.cached ≡ false
  uncached e = ground arith

  direct_data :
      around ≡ true
      → let r = fread s ptr at begin (end - begin) request in
        IsFine (unlock_both r.0) → SameBytes r.1 (copy ptr at (view s) begin (end - begin))
  unfolding fread fail_to fail unlock_both unlock io_unlock
  direct_data e f i =
      ground (arith, uncached e, good.owned, E.read_done s.file ptr at begin (end - begin) i)

  cached_data :
      let r = cached_read n open_cell begin end ptr at request in
      IsFine (io_unlock r.0) → SameBytes r.1 (copy ptr at (view s) begin (end - begin))
  unfolding io_unlock
  cached_data f i =
      cached_read_data (ensure_cache-IsCoherent fresh good) ptr at request page' present.0
        (cached_read_fine n open_cell begin end ptr at present.0 f) i
      ∙ ground (arith, view-ensure_cache fresh good (begin + (i - at)))
    where
      present :
          let t = ensure_cache fresh n s in
          (t.cached ≡ true)
          × (t.parent ≡ s.parent)
          × (locks t ≡ locks s)
          × (t.io_unlocks ≡ s.io_unlocks)
      present = ensure_cache-fields fresh good

      page' : InPage n open_cell begin end
      page' = ensure_cache-InPage fresh good page

  -- If neither the tree nor the request is marked as failed after a read of a range within a
  -- coherent leaf of fewer than 2^64 bytes, the caller's buffer holds the bytes of the range
  -- that can be read through the leaf, and is otherwise as it was.
  pub leaf_read_data :
      (partial : Bool)
      → IsFine (leaf_read n c fresh partial s begin end ptr at).0
      → SameBytes
          (leaf_read n c fresh partial s begin end ptr at).1
          (copy ptr at (view s) begin (end - begin))
  leaf_read_data partial =
      rw (leaf_read_cases partial)
        (elim (Bool-cases around) [ inl e ↦ rw e (direct_data e) | inr e ↦ rw e cached_data ])

  -- A read of a range within a coherent leaf of fewer than 2^64 bytes that hangs in the tree
  -- gives back exactly one lock of the parent, counting one that stays for a dirty cache, and
  -- one of the request.
  pub locks-leaf_read :
      (partial : Bool)
      → is_null s.parent ≡ false
      → let t = (leaf_read n c fresh partial s begin end ptr at).0 in
        (locks t ≡ locks s + 1) × (t.io_unlocks ≡ s.io_unlocks + 1)
  locks-leaf_read partial p = rw (leaf_read_cases partial) (elim (Bool-cases around) [
    | inl e ↦ rw e (
        ground (
          arith,
          fread-Effect s ptr at begin (end - begin) request,
          unlock_both_fields (fread s ptr at begin (end - begin) request).0,
        ))
    | inr e ↦ rw e (
        unfold io_unlock in
        ground (
          arith,
          ensure_cache-fields fresh good,
          cached_read-Effect n open_cell begin end ptr at request,
        ))
  ])
