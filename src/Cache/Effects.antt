-- ===== src/Cache/Effects.antt =====
-- What the cache operations do beside the bytes: failure flags, locks given back, the node's place.
use aiotest.Prelude.{ℕ, ◌+◌, ◌-◌, ◌≡◌, Bool, true, false, arith, inl, inr, Bool-cases, ltb, ◌&&◌}
use aiotest.Prelude.Bytes.{Bytes}
use aiotest.Prelude.Word.{sub64}
use aiotest.Engine.{Engine}
use aiotest.Cache.{
  Cell, Owner, request, nobody, fread, fwrite, fail_to, fail, unlock, prefetch, absorb, settle,
  cached_read, cached_write, is_null, low_bits,
}

abbrev pub count : Bool → ℕ
count true = 1
count false = 0

module _ {E : Engine} where
  -- Locks of the parent that this node has given back or holds for its dirty cache.
  abbrev pub locks : Cell E → ℕ
  locks s = s.unlocks + count s.dirty

  -- Neither the request nor the tree is marked as failed.
  abbrev pub IsFine : Cell E → Type 0
  IsFine s = (s.failed ≡ false) × (s.io_failed ≡ false)

  -- What no read or write changes, and how far the locks and the failure flags move.
  pub record Effect (given : ℕ) (s t : Cell E) : Type 0 where
    pub offset : t.offset ≡ s.offset
    pub parent : t.parent ≡ s.parent
    pub cached : t.cached ≡ s.cached
    pub used : t.used ≡ s.used
    pub size : t.size ≡ s.size
    pub io_unlocks : t.io_unlocks ≡ s.io_unlocks
    pub still_failed : t.failed ≡ false → s.failed ≡ false
    pub still_io_failed : t.io_failed ≡ false → s.io_failed ≡ false
    pub given_locks : is_null s.parent ≡ false → locks t ≡ locks s + given

  Effect-trans : {a b : ℕ} {s t u : Cell E} → Effect a s t → Effect b t u → Effect (a + b) s u
  Effect-trans e f = ground arith

  module _ (s : Cell E) where
    pub unlock-Effect : Effect 1 s (unlock s)
    unfolding unlock
    unlock-Effect = ground arith

    pub fread-Effect :
        (buf : Bytes) (to pos len : ℕ) (io : Owner) → Effect 0 s (fread s buf to pos len io).0
    unfolding fread fail_to fail
    fread-Effect buf to pos len io = ground arith

    pub fwrite-Effect :
        (buf : Bytes) (from pos len : ℕ) (io : Owner) → Effect 0 s (fwrite s buf from pos len io).0
    unfolding fwrite fail_to fail
    fwrite-Effect buf from pos len io = ground arith

    prefetch-Effect : (len : ℕ) (io : Owner) → Effect 0 s (prefetch s len io).0
    unfolding prefetch fread fail_to fail
    prefetch-Effect len io = ground arith

    settle-Effect :
        (base last begin len : ℕ) (ptr : Bytes) (from : ℕ) (io : Owner)
        → Effect 1 s (settle (absorb s base last ptr from len) begin len ptr from io)
    unfolding settle absorb fwrite fail_to fail unlock
    settle-Effect base last begin len ptr from io = ground arith

  module _ (n : ℕ) (s : Cell E) (begin end : ℕ) (ptr : Bytes) (to : ℕ) (io : Owner) where
    is_far : Bool
    is_far =
        ltb s.effective (low_bits n begin) && ltb (sub64 end begin) (low_bits n begin - s.effective)

    pub cached_read-Effect : Effect 1 s (cached_read n s begin end ptr to io).0
    unfolding cached_read is_far
    cached_read-Effect = elim (Bool-cases is_far) [
      | inl e ↦
          rw e (Effect-trans (fread-Effect s ptr to begin (sub64 end begin) io) (unlock-Effect _))
      | inr e ↦
          rw e (Effect-trans (prefetch-Effect s (sub64 end s.offset) nobody) (unlock-Effect _))
    ]

    pub cached_write-Effect : Effect 1 s (cached_write n s begin end ptr to io).0
    unfolding cached_write is_far
    cached_write-Effect = elim (Bool-cases is_far) [
      | inl e ↦
          rw e (Effect-trans (fwrite-Effect s ptr to begin (sub64 end begin) io) (unlock-Effect _))
      | inr e ↦ rw e (
          Effect-trans (prefetch-Effect s (low_bits n begin) nobody)
            (settle-Effect _ _ _ _ _ _ _ _))
    ]

  module _ (n : ℕ) (s : Cell E) (begin end : ℕ) (ptr : Bytes) (to : ℕ) (c : s.cached ≡ true) where
    pub cached_read_fine :
        let r = cached_read n s begin end ptr to request in IsFine r.0 → r.2 ≡ true
    unfolding cached_read fread prefetch fail_to fail unlock
    cached_read_fine f = ground arith

    prefetch_fine :
        (len : ℕ) (io : Owner) → IsFine (prefetch s len io).0 → (prefetch s len io).1 ≡ true
    unfolding fread prefetch fail_to fail
    prefetch_fine len io f = ground arith

    fwrite_fine :
        (from pos len : ℕ)
        → IsFine (unlock (fwrite s ptr from pos len request).0)
        → (fwrite s ptr from pos len request).1 ≡ true
    unfolding fwrite fail_to fail unlock
    fwrite_fine from pos len f = ground arith

    pub cached_write_fine :
        let r = cached_write n s begin end ptr to request in IsFine r.0 → r.1 ≡ true
    unfolding cached_write is_far
    cached_write_fine = elim (Bool-cases (is_far n s begin end ptr to request)) [
      | inl e ↦ rw e (fwrite_fine to begin (sub64 end begin))
      | inr e ↦ rw e (λ f.
          let g =
            settle-Effect (prefetch s (low_bits n begin) nobody).0 (low_bits n begin)
              (low_bits n (sub64 end 1)) begin (sub64 end begin) ptr to request in
          prefetch_fine (low_bits n begin) nobody (g.still_failed f.0, g.still_io_failed f.1))
    ]
