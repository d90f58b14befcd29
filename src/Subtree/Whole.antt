-- ===== src/Subtree/Whole.antt =====
-- The merge of a node's children into the node itself.
use Prim.{absurd}
use mathlib.Core.Bool.{false≢true}
use native.Mathlib.Nat.{pow-le-pow_right}
use aiotest.Prelude.{
  ℕ, ◌+◌, ◌-◌, ◌^◌, ◌≤◌, ◌<◌, ◌≡◌, ap, sym, ◌∙◌, true, false, Bool-cases, inl, inr, dec_lt, arith,
}
use aiotest.Prelude.Bytes.{Bytes}
use aiotest.Engine.{Engine}
use aiotest.Controller.{Limits, usage, is_full}
use aiotest.Cache.{Cell, Owner, toggle}
use aiotest.Cache.View.{view, SameBytes, IsCoherent}
use aiotest.Cache.Effects.{IsFine}
use aiotest.Subtree.{Children, merge}
use aiotest.Subtree.Merge.{AreClean, IsFilling, merge_children-IsFilling}

module _ {E : Engine} {nm : ℕ} {s : Cell E} (good : IsCoherent nm s) (bare : s.cached ≡ false) where
  opened-IsFilling :
      (fresh : Bytes) → IsFilling (E.bytes s.file) s.offset s.offset (toggle fresh s (2 ^ nm))
  unfolding toggle
  opened-IsFilling fresh = record {
    at_start = ground (arith, bare);
    present = ground (arith, bare);
    same_file = λ i. ground (arith, bare);
    stays_clean = ground (arith, bare, good.owned bare);
    short = ground (arith, bare);
    filled = λ fine i lt. absurd (ground (arith, bare, lt));
  }

  -- What can be read through a node without a cache is the file.
  pub view-bare : SameBytes (view s) (E.bytes s.file)
  view-bare i = ground (arith, good.owned bare)

module _ {E : Engine} {nm : ℕ} {s t : Cell E} (good : IsCoherent nm s)
    (fill : IsFilling (E.bytes s.file) s.offset (s.offset + 2 ^ nm) t) (fine : IsFine t) where
  filling-IsCoherent : IsCoherent nm t
  filling-IsCoherent = record {
    aligned = rw fill.at_start good.aligned;
    room = omega (arith, fill.at_start, good.room);
    fits = omega (arith, fill.short);
    owned = λ c. absurd (false≢true (sym c ∙ fill.present));
    clean = λ d i lt.
        fill.filled fine i lt
        ∙ (ap (λ o. E.bytes s.file (o + i)) (sym fill.at_start)
            ∙ sym (fill.same_file (t.offset + i)));
  }

  view-filling : SameBytes (view t) (E.bytes s.file)
  view-filling i = elim (dec_lt i (t.offset + t.effective)) [
    | yes below ↦ elim (dec_lt i t.offset) [
      | yes before ↦ ground (arith, fill.same_file i)
      | no within ↦ ground (arith, fill.at_start, fill.filled fine (i - t.offset) (omega arith))
    ]
    | no beyond ↦ ground (arith, fill.same_file i)
  ]

module _ {E : Engine} {nm width : ℕ} {s : Cell E} (cs : Children) (good : IsCoherent nm s)
    (bare : s.cached ≡ false) (small : nm < 64) (wide : 0 < width)
    (below : AreClean (E.bytes s.file) s.offset (2 ^ nm) width cs) (c : Limits) (fresh : Bytes)
    (io : Owner) where
  merged-IsFilling :
      (merge nm c fresh s cs io).2 ≡ true
      → IsFilling (E.bytes s.file) s.offset (s.offset + 2 ^ nm) (merge nm c fresh s cs io).0
  unfolding merge
  merged-IsFilling done = elim (Bool-cases (is_full (usage c s.used (2 ^ nm)))) [
    | inl e ↦ absurd (false≢true (rw e at done))
    | inr e ↦
        let half : 2 ^ nm ≤ 2 ^ 63 =
          pow-le-pow_right {n = 2} (omega arith) {j = 63} (omega (arith, small)) in
        rw e (
          merge_children-IsFilling (E.bytes s.file) s.offset io s.offset (2 ^ nm) width
            (toggle fresh s (2 ^ nm)) cs (omega (arith, half)) good.room wide
            (opened-IsFilling good bare fresh) below)
  ]

  -- Merging the clean children of a node of fewer than 2^64 bytes that has no cache, where the budget
  -- allows it and neither the tree nor the request is marked as failed after it: the node has a clean
  -- cache then and is coherent, and what can be read through it is what could be read before.
  pub merge_done :
      (merge nm c fresh s cs io).2 ≡ true
      → IsFine (merge nm c fresh s cs io).0
      → let t = (merge nm c fresh s cs io).0 in
        (t.cached ≡ true)
        × (t.dirty ≡ false)
        × (t.offset ≡ s.offset)
        × IsCoherent nm t
        × SameBytes (view t) (view s)
  merge_done done fine =
      let fill = merged-IsFilling done in
      (
        fill.present,
        fill.stays_clean,
        fill.at_start,
        filling-IsCoherent good fill fine,
        λ i. view-filling good fill fine i ∙ sym (view-bare good bare i),
      )
