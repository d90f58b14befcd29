-- ===== src/Leaf/Steps.antt =====
-- The parts of a leaf's requests: the cache is allocated, locks are given back.
use aiotest.Prelude.{ℕ, ◌+◌, ◌<◌, Bool, inl, inr, Bool-cases, ◌≡◌, refl, ◌∙◌, true, false, arith}
use aiotest.Prelude.Bytes.{Bytes}
use aiotest.Engine.{Engine}
use aiotest.Cache.{
  Cell, request, fwrite, cached_read, cached_write, unlock, unlock_both, io_unlock, fread, fail_to,
  fail, toggle, is_null,
}
use aiotest.Cache.View.{view, unlock-IsCoherent, IsCoherent, InPage}
use aiotest.Cache.Effects.{
  locks, IsFine, Effect, fread-Effect, fwrite-Effect, cached_read-Effect, cached_write-Effect,
}
use aiotest.Leaf.{ensure_cache, covers_all, bypasses, leaf_read, leaf_write, read_to, write_to}
use aiotest.Prelude.Word.{sub64}
use aiotest.Controller.{Limits}

module _ {E : Engine} (fresh : Bytes) {n : ℕ} {s : Cell E} (good : IsCoherent n s) where
  pub ensure_cache-IsCoherent : IsCoherent n (ensure_cache fresh n s)
  unfolding ensure_cache toggle
  ensure_cache-IsCoherent = record {
    aligned = ground (arith, good.aligned);
    room = ground (arith, good.room);
    fits = ground (arith, good.fits);
    owned = λ c. ground (arith);
    clean = λ d i lt. ground (arith, good.clean (ground (arith, good.owned)) i);
  }

  pub view-ensure_cache : (i : ℕ) → view (ensure_cache fresh n s) i ≡ view s i
  unfolding ensure_cache toggle
  view-ensure_cache i = ground (arith, good.owned)

  pub ensure_cache-InPage :
      {begin end : ℕ} → InPage n s begin end → InPage n (ensure_cache fresh n s) begin end
  unfolding ensure_cache toggle
  ensure_cache-InPage page = ground arith

  pub ensure_cache-fields :
      let t = ensure_cache fresh n s in
      (t.cached ≡ true)
      × (t.parent ≡ s.parent)
      × (locks t ≡ locks s)
      × (t.io_unlocks ≡ s.io_unlocks)
  unfolding ensure_cache toggle
  ensure_cache-fields = ground arith

module _ {E : Engine} (s : Cell E) where
  pub view-unlock : (i : ℕ) → view (unlock_both s) i ≡ view s i
  unfolding unlock_both unlock io_unlock
  view-unlock i = ground arith

  pub unlock_both-IsCoherent : {n : ℕ} → IsCoherent n s → IsCoherent n (unlock_both s)
  unfolding unlock_both io_unlock
  unlock_both-IsCoherent good =
      let u = unlock-IsCoherent good in
      record { aligned = u.aligned; room = u.room; fits = u.fits; owned = u.owned; clean = u.clean }

  pub view-io_unlock : (i : ℕ) → view (io_unlock s) i ≡ view s i
  unfolding io_unlock
  view-io_unlock i = refl

  pub view-fread :
      (buf : Bytes) (to pos len : ℕ) (i : ℕ) → view (fread s buf to pos len request).0 i ≡ view s i
  unfolding fread fail_to fail
  view-fread buf to pos len i = ground arith

  pub io_unlock-IsCoherent : {n : ℕ} → IsCoherent n s → IsCoherent n (io_unlock s)
  unfolding io_unlock
  io_unlock-IsCoherent u = record {
    aligned = u.aligned;
    room = u.room;
    fits = u.fits;
    owned = u.owned;
    clean = u.clean;
  }

  pub unlock_both_fields :
      let t = unlock_both s in
      (is_null s.parent ≡ false → locks t ≡ locks s + 1)
      × (t.io_unlocks ≡ s.io_unlocks + 1)
      × (t.failed ≡ s.failed)
      × (t.io_failed ≡ s.io_failed)
  unfolding unlock_both unlock io_unlock
  unlock_both_fields = ground arith

-- The leaf stays where it is, and no failure is forgotten.
module _ {E : Engine} where
  pub record Frame (s t : Cell E) : Type 0 where
    pub offset : t.offset ≡ s.offset
    pub fine : IsFine t → IsFine s

  pub Frame-trans : {s t u : Cell E} → Frame s t → Frame t u → Frame s u
  Frame-trans e f = record { offset = f.offset ∙ e.offset; fine = λ x. e.fine (f.fine x) }

  pub Effect-Frame : {k : ℕ} {s t : Cell E} → Effect k s t → Frame s t
  Effect-Frame e = record {
    offset = e.offset;
    fine = λ f. (e.still_failed f.0, e.still_io_failed f.1);
  }

  pub unlock_both-Frame : (s : Cell E) → Frame s (unlock_both s)
  unfolding unlock_both unlock io_unlock
  unlock_both-Frame s = record { offset = ground arith; fine = λ f. ground (arith, f.0, f.1) }

  pub io_unlock-Frame : (s : Cell E) → Frame s (io_unlock s)
  unfolding io_unlock
  io_unlock-Frame s = record { offset = refl; fine = λ f. f }

  pub ensure_cache-Frame : (fresh : Bytes) (n : ℕ) (s : Cell E) → Frame s (ensure_cache fresh n s)
  unfolding ensure_cache toggle
  ensure_cache-Frame fresh n s = record {
    offset = ground arith;
    fine = λ f. ground (arith, f.0, f.1);
  }

  module _ (fresh : Bytes) {n : ℕ} (small : n < 64) (c : Limits) (s : Cell E) (begin end : ℕ)
      (ptr : Bytes) (at : ℕ) where
    large : covers_all n ≡ false
    large = ground (arith, small)

    write_to-Frame : Frame s (write_to n c fresh s begin end ptr at)
    unfolding write_to
    write_to-Frame = elim (Bool-cases (bypasses n c s)) [
      | inl e ↦
          let w = (fwrite s ptr at begin (sub64 end begin) request).0 in
          rw e (
            Frame-trans (Effect-Frame (fwrite-Effect s ptr at begin (sub64 end begin) request))
              (unlock_both-Frame w))
      | inr e ↦
          let o = ensure_cache fresh n s in
          let w = (cached_write n o begin end ptr at request).0 in
          rw e (
            Frame-trans (ensure_cache-Frame fresh n s) (
              Frame-trans (Effect-Frame (cached_write-Effect n o begin end ptr at request))
                (io_unlock-Frame w)))
    ]

    pub leaf_write-Frame : Frame s (leaf_write n c fresh s begin end ptr at)
    unfolding leaf_write
    leaf_write-Frame = rw large write_to-Frame

    read_to-Frame : Frame s (read_to n c fresh s begin end ptr at).0
    unfolding read_to
    read_to-Frame = elim (Bool-cases (bypasses n c s)) [
      | inl e ↦
          let r = (fread s ptr at begin (sub64 end begin) request).0 in
          rw e (
            Frame-trans (Effect-Frame (fread-Effect s ptr at begin (sub64 end begin) request))
              (unlock_both-Frame r))
      | inr e ↦
          let o = ensure_cache fresh n s in
          let r = (cached_read n o begin end ptr at request).0 in
          rw e (
            Frame-trans (ensure_cache-Frame fresh n s) (
              Frame-trans (Effect-Frame (cached_read-Effect n o begin end ptr at request))
                (io_unlock-Frame r)))
    ]

    pub leaf_read-Frame :
        (partial : Bool) → Frame s (leaf_read n c fresh partial s begin end ptr at).0
    unfolding leaf_read
    leaf_read-Frame partial = rw large read_to-Frame
