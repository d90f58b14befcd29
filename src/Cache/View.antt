-- ===== src/Cache/View.antt =====
-- What a node's cache stands for: the file with the cached prefix laid over it, and the invariant
-- that makes the two agree.
use native.Mathlib.Nat.{one-le-pow}
use aiotest.Prelude.{
  ℕ, ◌+◌, ◌-◌, ◌*◌, ◌/◌, ◌%◌, ◌^◌, ◌≤◌, ◌<◌, ◌≡◌, true, false, ◌&&◌, ltb, leb, arith, if◌then◌else◌,
  inl, inr, Bool-cases,
}
use aiotest.Prelude.Word.{sub64, add64, bit_and_low}
use aiotest.Prelude.Bytes.{Bytes, copy}
use aiotest.Engine.{Engine}
use aiotest.Cache.{Cell, Owner, low_bits, fread, fail_to, fail, prefetch, unlock, is_null}

mod-mul-add : (q m r : ℕ) → r < m → (q * m + r) % m ≡ r
mod-mul-add q m r h = grind (arith)

-- The same bytes at every position.
abbrev pub SameBytes : Bytes → Bytes → Type 0
SameBytes f g = (i : ℕ) → f i ≡ g i

pub copy_same :
    (dst : Bytes) (to from len : ℕ) {f g : Bytes}
    → SameBytes f g
    → SameBytes (copy dst to f from len) (copy dst to g from len)
copy_same dst to from len h i = ground (arith, h (from + (i - to)))

module _ {E : Engine} where
  abbrev pub view : Cell E → Bytes
  view s i =
      if leb s.offset i && ltb i (s.offset + s.effective)
      then s.memory (i - s.offset)
      else E.bytes s.file i

  pub record IsCoherent (n : ℕ) (s : Cell E) : Type 0 where
    pub aligned : s.offset % 2 ^ n ≡ 0
    pub room : s.offset + 2 ^ n ≤ 2 ^ 64
    pub fits : s.effective ≤ 2 ^ n
    pub owned : s.cached ≡ false → (s.effective ≡ 0) × (s.dirty ≡ false)
    pub clean :
        s.dirty ≡ false → (i : ℕ) → i < s.effective → s.memory i ≡ E.bytes s.file (s.offset + i)

  -- A request for bytes of this node, as 64-bit positions.
  pub record InPage (n : ℕ) (s : Cell E) (begin end : ℕ) : Type 0 where
    pub low : s.offset ≤ begin
    pub order : begin < end
    pub high : end ≤ s.offset + 2 ^ n
    pub word : end < 2 ^ 64

  module _ {n : ℕ} {s : Cell E} (good : IsCoherent n s) where
    pub low_bits_page : (x : ℕ) → s.offset ≤ x → x < s.offset + 2 ^ n → low_bits n x ≡ x - s.offset
    low_bits_page x lo hi = grind (
      arith,
      bit_and_low n x,
      mod-mul-add (s.offset / 2 ^ n) (2 ^ n) (x - s.offset),
      good.aligned,
      one-le-pow n 2,
    )

    -- Filling the cache changes nothing that can be read, whether it succeeds or not.
    pub view-prefetch :
        (len i : ℕ) (io : Owner) → s.offset + len < 2 ^ 64 → view (prefetch s len io).0 i ≡ view s i
    unfolding prefetch fread fail_to fail
    view-prefetch len i io word = ground (
      arith,
      good.room,
      E.read_done s.file s.memory s.effective (add64 s.offset s.effective) (sub64 len s.effective)
          (i - s.offset),
      E.read_out s.file s.memory s.effective (add64 s.offset s.effective) (sub64 len s.effective)
          (i - s.offset),
    )

    pub prefetch-IsCoherent :
        (len : ℕ) (io : Owner)
        → len ≤ 2 ^ n
        → s.offset + len < 2 ^ 64
        → IsCoherent n (prefetch s len io).0
    unfolding prefetch fread fail_to fail
    prefetch-IsCoherent len io le word = record {
      aligned = ground (arith, good.aligned);
      room = ground (arith, good.room);
      fits = ground (arith, good.fits);
      owned = λ c. (ground (arith, good.owned), ground (arith, good.owned));
      clean = λ d i lt. ground (
        arith,
        good.room,
        good.clean (ground arith) i,
        E.read_done s.file s.memory s.effective (add64 s.offset s.effective) (sub64 len s.effective)
            i,
        E.read_out s.file s.memory s.effective (add64 s.offset s.effective) (sub64 len s.effective)
            i,
      );
    }

    -- A prefetch that returns true has all the bytes before `len` in memory.
    pub prefetch_done :
        (len i : ℕ) (io : Owner)
        → s.cached ≡ true
        → s.offset + len < 2 ^ 64
        → (prefetch s len io).1 ≡ true
        → i < len
        → ((prefetch s len io).0).memory i ≡ view s (s.offset + i)
    unfolding prefetch fread fail_to fail
    prefetch_done len i io c word done lt = ground (
      arith,
      good.room,
      E.read_done s.file s.memory s.effective (add64 s.offset s.effective) (sub64 len s.effective)
          i,
      E.read_out s.file s.memory s.effective (add64 s.offset s.effective) (sub64 len s.effective) i,
    )

  module _ {n : ℕ} {s : Cell E} (good : IsCoherent n s) where
    pub fail_to-IsCoherent : (io : Owner) → IsCoherent n (fail_to io s)
    unfolding fail_to fail
    fail_to-IsCoherent io = record {
      aligned = ground (arith, good.aligned);
      room = ground (arith, good.room);
      fits = ground (arith, good.fits);
      owned = λ c. (ground (arith, good.owned), ground (arith, good.owned));
      clean = λ d i lt. ground (arith, good.clean (ground arith) i);
    }

    pub fread-IsCoherent :
        (buf : Bytes) (to pos len : ℕ) (io : Owner) → IsCoherent n (fread s buf to pos len io).0
    unfolding fread
    fread-IsCoherent buf to pos len io = elim (Bool-cases (E.read s.file buf to pos len).1) [
      | inl e ↦ rw e good
      | inr e ↦ rw e (fail_to-IsCoherent io)
    ]

    pub unlock-IsCoherent : IsCoherent n (unlock s)
    unfolding unlock
    unlock-IsCoherent = elim (Bool-cases (is_null s.parent)) [
      | inl e ↦ rw e good
      | inr e ↦ rw e (record {
        aligned = good.aligned;
        room = good.room;
        fits = good.fits;
        owned = good.owned;
        clean = good.clean;
      })
    ]
