-- ===== src/Cache/Write.antt =====
-- `cachedWrite`: a write through the cache is a write to what the node stands for.
use aiotest.Prelude.{
  ℕ, ◌+◌, ◌-◌, ◌≤◌, ◌<◌, ◌≡◌, refl, ◌∙◌, ◌⊎◌, inl, inr, Bool-cases, Bool, true, false, ◌&&◌, ltb,
  arith, if◌then◌else◌,
}
use aiotest.Prelude.Word.{sub64}
use aiotest.Prelude.Bytes.{Bytes, copy}
use aiotest.Engine.{Engine}
use aiotest.Cache.{
  Cell, Owner, nobody, low_bits, fread, fwrite, fail_to, fail, unlock, prefetch, absorb, settle,
  cached_write,
}
use aiotest.Cache.View.{
  view, SameBytes, IsCoherent, InPage, low_bits_page, view-prefetch, prefetch-IsCoherent,
}

module _ {E : Engine} {n : ℕ} {s : Cell E} (good : IsCoherent n s) where
  view-absorb :
      {begin end base last : ℕ} (ptr : Bytes) (from i : ℕ)
      → InPage n s begin end
      → base ≡ begin - s.offset
      → last ≡ end - 1 - s.offset
      → begin ≤ s.offset + s.effective
      → view (absorb s base last ptr from (end - begin)) i
        ≡ copy (view s) begin ptr from (end - begin) i
  unfolding absorb
  view-absorb ptr from i page eb el gap = ground arith

module _ {E : Engine} (s : Cell E) (begin len : ℕ) (ptr : Bytes) (from : ℕ) (io : Owner)
    (low : s.offset ≤ begin) (high : begin + len ≤ s.offset + s.effective) where
  view-settle : (i : ℕ) → view (settle s begin len ptr from io) i ≡ view s i
  unfolding settle fwrite fail_to fail unlock
  view-settle i = ground (arith, E.write_out s.file ptr from begin len i)

  settle-clean :
      (i : ℕ)
      → (s.dirty ≡ false
          → (i < begin - s.offset) ⊎ (begin + len ≤ s.offset + i)
          → s.memory i ≡ E.bytes s.file (s.offset + i))
      → (begin ≤ s.offset + i
          → s.offset + i < begin + len
          → s.memory i ≡ ptr (from + (s.offset + i - begin)))
      → i < s.effective
      → (settle s begin len ptr from io).dirty ≡ false
      → let t = settle s begin len ptr from io in t.memory i ≡ E.bytes t.file (t.offset + i)
  unfolding settle fwrite fail_to fail unlock
  settle-clean i old new lt d = ground (
    arith,
    E.write_out s.file ptr from begin len (s.offset + i),
    E.write_done s.file ptr from begin len (s.offset + i),
  )

  settle-fields :
      let t = settle s begin len ptr from io in
      (t.offset ≡ s.offset) × (t.effective ≡ s.effective) × (t.cached ≡ s.cached)
  unfolding settle fwrite fail_to fail unlock
  settle-fields = ground arith

module _ {E : Engine} {n : ℕ} {s : Cell E} (good : IsCoherent n s) where
  fill-IsCoherent :
      {begin end base last : ℕ} (ptr : Bytes) (from : ℕ) (io : Owner)
      → InPage n s begin end
      → base ≡ begin - s.offset
      → last ≡ end - 1 - s.offset
      → s.cached ≡ true
      → begin ≤ s.offset + s.effective
      → let a = absorb s base last ptr from (end - begin) in
        IsCoherent n (settle a begin (end - begin) ptr from io)
  unfolding absorb
  fill-IsCoherent {begin} {end} {base} {last} ptr from io page eb el c gap = record {
    aligned = ground (arith, good.aligned, fields);
    room = ground (arith, good.room, fields);
    fits = ground (arith, good.fits, fields);
    owned = λ e. (ground (arith, fields), ground (arith, fields));
    clean = λ d i lt.
        let within : i < a.effective = ground (arith, fields) in
        settle-clean a begin (end - begin) ptr from io (ground arith) (ground arith) i
          (λ e out. ground (arith, fields, good.clean e i)) (λ lo hi. ground arith) within d;
  }
    where
      a : Cell E
      a = absorb s base last ptr from (end - begin)

      fields :
          let t = settle a begin (end - begin) ptr from io in
          (t.offset ≡ a.offset) × (t.effective ≡ a.effective) × (t.cached ≡ a.cached)
      fields = settle-fields a begin (end - begin) ptr from io (ground arith) (ground arith)

  prefetch-fields :
      (len : ℕ)
      → let p = prefetch s len nobody in
        ((p.0).offset ≡ s.offset)
        × ((p.0).cached ≡ s.cached)
        × ((p.0).dirty ≡ s.dirty)
        × (p.1 ≡ true → len ≤ (p.0).effective)
  unfolding prefetch fread fail_to fail
  prefetch-fields len = ground arith

module _ {E : Engine} {n : ℕ} {s : Cell E} (good : IsCoherent n s) where
  module _ {begin end : ℕ} (ptr : Bytes) (from : ℕ) (io : Owner) (page : InPage n s begin end)
      (c : s.cached ≡ true) where
    pre : Cell E × Bool
    pre = prefetch s (begin - s.offset) nobody

    pre-IsCoherent : IsCoherent n pre.0
    unfolding pre
    pre-IsCoherent =
        prefetch-IsCoherent good (begin - s.offset) nobody (ground arith)
          (ground (arith, good.room))

    pre-InPage : InPage n pre.0 begin end
    unfolding pre
    pre-InPage = ground (arith, prefetch-fields good (begin - s.offset))

    is_far : Bool
    is_far =
        ltb s.effective (begin - s.offset) && ltb (end - begin) (begin - s.offset - s.effective)

    direct : Cell E × Bool
    direct = fwrite s ptr from begin (end - begin) io

    filled : Cell E
    filled =
        settle (absorb pre.0 (begin - s.offset) (end - 1 - s.offset) ptr from (end - begin)) begin
          (end - begin) ptr from io

    -- The 64-bit arithmetic of the code, on a request within the node.
    cached_write_cases :
        cached_write n s begin end ptr from io
        ≡ (if is_far then (unlock direct.0, direct.1) else (filled, pre.1))
    unfolding cached_write is_far direct filled pre
    cached_write_cases = rw (base, len, last) refl
      where
        base : low_bits n begin ≡ begin - s.offset
        base = low_bits_page good begin page.low (ground arith)

        len : sub64 end begin ≡ end - begin
        len = ground arith

        last : low_bits n (sub64 end 1) ≡ end - 1 - s.offset
        last = ground (arith, low_bits_page good (end - 1))

    view-direct :
        (i : ℕ)
        → is_far ≡ true
        → direct.1 ≡ true
        → view (unlock direct.0) i ≡ copy (view s) begin ptr from (end - begin) i
    unfolding direct is_far fwrite fail_to fail unlock
    view-direct i far done =
        ground (arith, good.room, E.write_done s.file ptr from begin (end - begin) i)

    direct-IsCoherent : is_far ≡ true → IsCoherent n (unlock direct.0)
    unfolding direct is_far fwrite fail_to fail unlock
    direct-IsCoherent far = record {
      aligned = ground (arith, good.aligned);
      room = ground (arith, good.room);
      fits = ground (arith, good.fits);
      owned = λ e. (ground (arith), ground (arith));
      clean = λ d i lt. ground (
        arith,
        good.clean (ground arith) i,
        E.write_out s.file ptr from begin (end - begin) (s.offset + i),
      );
    }

    near : pre.1 ≡ true → begin ≤ (pre.0).offset + (pre.0).effective
    unfolding pre
    near done = ground (arith, prefetch-fields good (begin - s.offset))

    view-filled :
        (i : ℕ) → pre.1 ≡ true → view filled i ≡ copy (view s) begin ptr from (end - begin) i
    unfolding filled pre absorb
    view-filled i done =
        view-settle (absorb pre.0 (begin - s.offset) (end - 1 - s.offset) ptr from (end - begin))
          begin (end - begin) ptr from io (ground (arith, off)) (ground (arith, off)) i
        ∙ view-absorb pre-IsCoherent ptr from i pre-InPage (ground (arith, off))
            (ground (arith, off)) (near done)
        ∙ ground (arith, view-prefetch good (begin - s.offset) i nobody)
      where
        off : (pre.0).offset ≡ s.offset
        off = (prefetch-fields good (begin - s.offset)).0

    filled-IsCoherent : pre.1 ≡ true → IsCoherent n filled
    unfolding filled pre
    filled-IsCoherent done =
        fill-IsCoherent pre-IsCoherent ptr from io pre-InPage
          (ground (arith, prefetch-fields good (begin - s.offset)))
          (ground (arith, prefetch-fields good (begin - s.offset)))
          (ground (arith, prefetch-fields good (begin - s.offset))) (near done)

    -- A write that returns true, of a range within a coherent node that has a cache, is a write
    -- to what can be read through the node: the bytes of the range are those at `from` in the
    -- caller's buffer, all others are as they were; and the node is coherent again.
    pub cached_write_done :
        (cached_write n s begin end ptr from io).1 ≡ true
        → let t = (cached_write n s begin end ptr from io).0 in
          SameBytes (view t) (copy (view s) begin ptr from (end - begin)) × IsCoherent n t
    cached_write_done done = elim (Bool-cases is_far) [
      | inl far ↦
          let e : cached_write n s begin end ptr from io ≡ (unlock direct.0, direct.1) =
            rw cached_write_cases (rw far refl) in
          (λ i. rw e (view-direct i far (rw e at done)), rw e (direct-IsCoherent far))
      | inr close ↦
          let e : cached_write n s begin end ptr from io ≡ (filled, pre.1) =
            rw cached_write_cases (rw close refl) in
          (λ i. rw e (view-filled i (rw e at done)), rw e (filled-IsCoherent (rw e at done)))
    ]
