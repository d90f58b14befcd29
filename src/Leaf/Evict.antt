-- ===== src/Leaf/Evict.antt =====
-- Flushing, evicting and collecting a leaf: when the file ends up with what the cache held.
use Prim.{absurd}
use aiotest.Prelude.{
  ℕ, zero, suc, ◌+◌, ◌≤◌, ◌-◌, ◌≡◌, ◌∙◌, Bool, true, false, not, ◌&&◌, arith, inl, inr, Bool-cases,
  if◌then◌else◌, dec_lt, refl,
}
use aiotest.Prelude.Bytes.{Bytes}
use aiotest.Engine.{Engine}
use aiotest.Cache.{Cell, unlock, fwrite, fail_to, fail, toggle, is_null}
use aiotest.Cache.View.{view, SameBytes, IsCoherent}
use aiotest.Cache.Effects.{IsFine, locks}
use aiotest.Leaf.{flush, write_back, evict}

module _ {E : Engine} {n : ℕ} {s : Cell E} (good : IsCoherent n s) where
  -- A clean cache holds nothing that the file does not.
  view-clean : s.dirty ≡ false → SameBytes (E.bytes s.file) (view s)
  view-clean d i = elim (dec_lt i (s.offset + s.effective)) [
    | yes lt ↦ elim (dec_lt i s.offset) [
      | yes lo ↦ ground arith
      | no hi ↦ ground (arith, good.clean d (i - s.offset) (omega arith))
    ]
    | no ge ↦ ground arith
  ]

  written :
      let w = E.write s.file s.memory 0 s.offset s.effective in
      w.1 ≡ true → SameBytes (E.bytes w.0) (view s)
  written ok i = ground (arith, E.write_done s.file s.memory 0 s.offset s.effective i)

  -- A flush leaves in the file what could be read through the leaf.
  pub flush_done :
      IsFine (flush s)
      → let t = flush s in
        SameBytes (E.bytes t.file) (view s) × (t.dirty ≡ false) × (t.effective ≡ s.effective)
  unfolding flush fwrite fail_to fail unlock
  flush_done f = (
    λ i. elim (Bool-cases s.dirty) [
      | inl d ↦ ground (arith, written (ground arith) i)
      | inr d ↦ ground (arith, view-clean d i)
    ],
    ground arith,
    ground arith,
  )

  -- An eviction does so as well.
  pub evict_done :
      (fresh : Bytes) (release : Bool)
      → (evict fresh n s release).failed ≡ false
      → let t = evict fresh n s release in
        SameBytes (E.bytes t.file) (view s)
        × (t.dirty ≡ false)
        × (t.cached ≡ (s.cached && not release))
        × (t.effective ≡ (if release then 0 else s.effective))
  unfolding evict write_back fwrite fail_to fail unlock toggle
  evict_done fresh release f = (
    λ i. elim (Bool-cases s.dirty) [
      | inl d ↦ ground (arith, written (ground arith) i)
      | inr d ↦ ground (arith, view-clean d i)
    ],
    ground arith,
    ground arith,
    ground (arith, good.owned),
  )

  -- A flush, and an eviction, of a coherent leaf after which neither the tree nor the request is marked as
  -- failed leave in the file all that could be read through the leaf, with a clean cache. After the
  -- flush the cache is as long as it was. With `release` the eviction gives the cache back and its
  -- length is 0; without, the cache is there as before and as long as it was.
  pub written_back :
      (fresh : Bytes) (release : Bool)
      → IsFine (flush s)
      → (evict fresh n s release).failed ≡ false
      → let f = flush s in
        let t = evict fresh n s release in
        (SameBytes (E.bytes f.file) (view s) × (f.dirty ≡ false) × (f.effective ≡ s.effective))
        × (SameBytes (E.bytes t.file) (view s)
            × (t.dirty ≡ false)
            × (t.cached ≡ (s.cached && not release))
            × (t.effective ≡ (if release then 0 else s.effective)))
  written_back fresh release fine f = (flush_done fine, evict_done fresh release f)

-- A flush that is tried `k` times in a row.
abbrev pub flushes : {E : Engine} → (k : ℕ) → Cell E → Cell E
flushes zero s = s
flushes (suc k) s = flush (flushes k s)

module _ {E : Engine} {n : ℕ} {s : Cell E} (good : IsCoherent n s) where
  flush-IsCoherent : IsCoherent n (flush s)
  unfolding flush fwrite fail_to fail unlock
  flush-IsCoherent = record {
    aligned = ground (arith, good.aligned);
    room = ground (arith, good.room);
    fits = ground (arith, good.fits);
    owned = λ c. ground (arith, good.owned);
    clean = λ d i lt. elim (Bool-cases s.dirty) [
      | inl e ↦ ground (arith, written good (ground arith) (s.offset + i))
      | inr e ↦ ground (arith, good.clean e i)
    ];
  }

  -- A write that fails may leave anything in its range, which is the range of the cache.
  view-flush : SameBytes (view (flush s)) (view s)
  unfolding flush fwrite fail_to fail unlock
  view-flush i = elim (Bool-cases s.dirty) [
    | inl d ↦ elim (Bool-cases (E.write s.file s.memory 0 s.offset s.effective).1) [
      | inl ok ↦ ground (arith, written good ok i)
      | inr bad ↦ ground (arith, E.write_out s.file s.memory 0 s.offset s.effective i)
    ]
    | inr d ↦ ground arith
  ]

  flush-failed :
      ((flush s).failed ≡ s.failed) × ((flush s).dirty ≡ true → (flush s).io_failed ≡ true)
  unfolding flush fwrite fail_to fail unlock
  flush-failed = (ground arith, ground arith)

-- What holds after flushes that were tried.
record Tried {E : Engine} (n k : ℕ) (s t : Cell E) : Type 0 where
  coherent : IsCoherent n t
  same : SameBytes (view t) (view s)
  tree : t.failed ≡ s.failed
  told : 1 ≤ k → t.dirty ≡ true → t.io_failed ≡ true

flushes-Tried :
    {E : Engine} {n : ℕ} {s : Cell E} → IsCoherent n s → (k : ℕ) → Tried n k s (flushes k s)
flushes-Tried good zero = record {
  coherent = good;
  same = λ i. refl;
  tree = refl;
  told = λ le. absurd (omega (arith, le));
}
flushes-Tried {s} good (suc k) =
    let h = flushes-Tried good k in
    let (tree, told) = flush-failed h.coherent in
    record {
      coherent = flush-IsCoherent h.coherent;
      same = λ i. view-flush h.coherent i ∙ h.same i;
      tree = tree ∙ h.tree;
      told = λ _. told;
    }

-- A leaf that is coherent is flushed any number of times in a row, whichever of the writes fail. Each write
-- that fails may leave anything in the range that it was to write. The leaf stays coherent, what can be
-- read through it stays as it was, and the tree is not marked as failed. While the cache is dirty
-- after at least one of them, the request is marked as failed; as soon as it is clean, the file holds
-- all that could be read through the leaf at first.
pub flushes_keep :
    {E : Engine} {n : ℕ} {s : Cell E}
    → IsCoherent n s
    → (k : ℕ)
    → let t = flushes k s in
      IsCoherent n t
      × SameBytes (view t) (view s)
      × (t.failed ≡ s.failed)
      × (1 ≤ k → t.dirty ≡ true → t.io_failed ≡ true)
      × (t.dirty ≡ false → SameBytes (E.bytes t.file) (view s))
flushes_keep good k =
    let h = flushes-Tried good k in
    (h.coherent, h.same, h.tree, h.told, λ d i. view-clean h.coherent d i ∙ h.same i)

module _ {E : Engine} (s : Cell E) where
  -- A flush leaves the locks of a leaf that hangs in the tree balanced: the lock of a dirty
  -- cache is given back exactly when the cache becomes clean, whether the write succeeds or not.
  pub locks-flush : is_null s.parent ≡ false → locks (flush s) ≡ locks s
  unfolding flush fwrite fail_to fail unlock
  locks-flush p = ground arith

  -- The same of an eviction, which always makes the cache clean.
  locks-evict :
      (fresh : Bytes) (n : ℕ) (release : Bool)
      → is_null s.parent ≡ false
      → locks (evict fresh n s release) ≡ locks s
  unfolding evict write_back fwrite fail_to fail unlock toggle
  locks-evict fresh n release p = ground arith
