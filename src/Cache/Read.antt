-- ===== src/Cache/Read.antt =====
-- `cachedRead`: what lands in the caller's buffer, and what stays of the cache.
use aiotest.Prelude.{ℕ, ◌+◌, ◌-◌, ◌≡◌, true, ◌&&◌, ltb, arith, inl, inr, Bool-cases}
use aiotest.Prelude.Word.{sub64}
use aiotest.Prelude.Bytes.{Bytes, copy}
use aiotest.Engine.{Engine}
use aiotest.Cache.{Cell, Owner, nobody, low_bits, fread, fail_to, fail, unlock, cached_read}
use aiotest.Cache.View.{
  view, SameBytes, IsCoherent, InPage, low_bits_page, view-prefetch, prefetch-IsCoherent,
  prefetch_done, fread-IsCoherent, unlock-IsCoherent,
}

module _ {E : Engine} {n : ℕ} {s : Cell E} (good : IsCoherent n s) where
  buffer-cached_read :
      {begin end : ℕ} (ptr : Bytes) (to : ℕ) (io : Owner) (i : ℕ)
      → InPage n s begin end
      → s.cached ≡ true
      → let r = cached_read n s begin end ptr to io in
        r.2 ≡ true → r.1 i ≡ copy ptr to (view s) begin (end - begin) i
  unfolding cached_read fread
  buffer-cached_read {begin} {end} ptr to io i page c done = ground (
    arith,
    good.room,
    low_bits_page good begin,
    E.read_done s.file ptr to begin (end - begin) i,
    prefetch_done good (end - s.offset) (begin - s.offset + (i - to)) nobody,
  )

  view-cached_read :
      {begin end : ℕ} (ptr : Bytes) (to : ℕ) (io : Owner) (i : ℕ)
      → InPage n s begin end
      → view (cached_read n s begin end ptr to io).0 i ≡ view s i
  unfolding cached_read fread fail_to fail unlock
  view-cached_read {begin} {end} ptr to io i page =
      ground
        (arith, good.room, low_bits_page good begin, view-prefetch good (end - s.offset) i nobody)

  cached_read-IsCoherent :
      {begin end : ℕ} (ptr : Bytes) (to : ℕ) (io : Owner)
      → InPage n s begin end
      → IsCoherent n (cached_read n s begin end ptr to io).0
  unfolding cached_read
  cached_read-IsCoherent {begin} {end} ptr to io page =
      elim (Bool-cases (
        ltb s.effective (low_bits n begin)
        && ltb (sub64 end begin) (low_bits n begin - s.effective))) [
          | inl e ↦
              rw e (unlock-IsCoherent (fread-IsCoherent good ptr to begin (sub64 end begin) io))
          | inr e ↦
              rw (e, len)
                (unlock-IsCoherent (
                  prefetch-IsCoherent good (end - s.offset) nobody (ground arith)
                    (ground (arith, good.room))))
        ]
    where
      len : sub64 end s.offset ≡ end - s.offset
      len = ground (arith)

  -- A read of a range within a coherent node changes nothing that can be read through the node
  -- and leaves it coherent, whatever the engine answers.
  pub cached_read_keeps :
      {begin end : ℕ} (ptr : Bytes) (to : ℕ) (io : Owner)
      → InPage n s begin end
      → let t = (cached_read n s begin end ptr to io).0 in
        SameBytes (view t) (view s) × IsCoherent n t
  cached_read_keeps ptr to io page =
      (λ i. view-cached_read ptr to io i page, cached_read-IsCoherent ptr to io page)

  -- If a read of a range within a coherent node that has a cache returns true, the caller's
  -- buffer holds at `to` the bytes that stand in the cache or the file from `begin` up to `end`,
  -- and is otherwise as it was.
  pub cached_read_data :
      {begin end : ℕ} (ptr : Bytes) (to : ℕ) (io : Owner)
      → InPage n s begin end
      → s.cached ≡ true
      → (cached_read n s begin end ptr to io).2 ≡ true
      → SameBytes (cached_read n s begin end ptr to io).1 (copy ptr to (view s) begin (end - begin))
  cached_read_data ptr to io page c done i = buffer-cached_read ptr to io i page c done
