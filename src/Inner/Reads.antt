-- ===== src/Inner/Reads.antt =====
-- Reads that an inner node answers itself: from its cache, or from the file for the whole node.
use native.Mathlib.Nat.{one-le-pow}
use mathlib.Core.Option.{some-injective}
use aiotest.Prelude.{
  ℕ, ◌+◌, ◌-◌, ◌^◌, ◌≤◌, ◌<◌, ◌≡◌, subst, ◌∙◌, Bool, true, false, not, ◌&&◌, some, List, Bool-cases,
  inl, inr, arith,
}
use aiotest.Prelude.Bytes.{Bytes, copy}
use aiotest.Engine.{Engine}
use aiotest.Controller.{Limits}
use aiotest.Cache.{Cell, request, fread, fail_to, fail, unlock, unlock_both, io_unlock, cached_read}
use aiotest.Cache.View.{view, copy_same, SameBytes, IsCoherent, InPage}
use aiotest.Cache.Read.{cached_read_data}
use aiotest.Cache.Effects.{IsFine, cached_read_fine, cached_read-Effect}
use aiotest.Leaf.{covers_all}
use aiotest.Subtree.{Children, merge}
use aiotest.Subtree.Merge.{AreClean}
use aiotest.Subtree.Whole.{merge_done}
use aiotest.Inner.{Call, inner_read, read_within, read_whole, splits}
use aiotest.Inner.Below.{sum}

module _ {E : Engine} {nm : ℕ} {s : Cell E} (good : IsCoherent nm s) (small : nm < 64)
    {begin end : ℕ} (page : InPage nm s begin end) (ptr : Bytes) (to : ℕ) where
  -- A read through the cache, with what the request's unlock adds.
  through_cache :
      s.cached ≡ true
      → let r = cached_read nm s begin end ptr to request in
        IsFine (io_unlock r.0) → SameBytes r.1 (copy ptr to (view s) begin (end - begin))
  unfolding io_unlock
  through_cache c fine =
      cached_read_data good ptr to request page c (cached_read_fine nm s begin end ptr to c fine)

  -- A read of the file round a node that has no cache.
  through_file :
      s.cached ≡ false
      → (len : ℕ) → len ≡ end - begin
      → let r = fread s ptr to begin len request in
        IsFine (unlock_both r.0) → SameBytes r.1 (copy ptr to (view s) begin (end - begin))
  unfolding fread fail_to fail unlock_both unlock io_unlock
  through_file bare len e fine i =
      ground (arith, e, good.owned bare, E.read_done s.file ptr to begin len i)

module _ {E : Engine} {nm width : ℕ} {s : Cell E} (cs : Children) (good : IsCoherent nm s)
    (bare : s.cached ≡ false) (small : nm < 64) (wide : 0 < width)
    (below : AreClean (E.bytes s.file) s.offset (2 ^ nm) width cs) (c : Limits) (fresh : Bytes)
    {begin end : ℕ} (page : InPage nm s begin end) (whole : 2 ^ nm ≤ end - begin) (ptr : Bytes)
    (to lck : ℕ) where
  abbrev result : Call E × Bytes
  result = read_whole nm c fresh s lck cs begin end ptr to

  merged_data :
      (merge nm c fresh s cs request).2 ≡ true
      → let r = cached_read nm (merge nm c fresh s cs request).0 begin end ptr to request in
        IsFine (io_unlock r.0) → SameBytes r.1 (copy ptr to (view s) begin (end - begin))
  merged_data done fine =
      let t = (merge nm c fresh s cs request).0 in
      let fine_t : IsFine t =
        unfold io_unlock in
        ground (arith, fine, cached_read-Effect nm t begin end ptr to request) in
      let (present, clean, offset, coherent, same) =
        merge_done cs good bare small wide below c fresh request done fine_t in
      let page_t : InPage nm t begin end = record {
        low = omega (arith, offset, page.low);
        order = page.order;
        high = omega (arith, offset, page.high);
        word = page.word;
      } in
      λ i.
        through_cache coherent small page_t ptr to present fine i
        ∙ copy_same ptr to begin (end - begin) same i

  read_whole_data :
      IsFine result.0.cell → SameBytes result.1 (copy ptr to (view s) begin (end - begin))
  unfolding read_whole
  read_whole_data = elim (Bool-cases (merge nm c fresh s cs request).2) [
    | inl e ↦ rw e (merged_data e)
    | inr e ↦ rw e (
        through_file good small page ptr to bare (2 ^ nm)
          (omega (arith, page.low, page.high, page.order, whole)))
  ]

pub from_some : {A : Type 0} (P : A → Type 0) {x y : A} → some x ≡ some y → P x → P y
from_some P e h = subst P (some-injective _ _ e) h

module _ {E : Engine} (n : ℕ) (rest : List ℕ) {s : Cell E} (lck : ℕ) (cs : Children) (c : Limits)
    (fresh : Bytes) {begin end : ℕ} (ptr : Bytes) (to : ℕ) where
  -- A read of a range within a coherent inner node of fewer than 2^64 bytes that the node answers
  -- itself: it has a cache, or no child is locked, the request is for the whole node, and the caches
  -- below hold what the file holds. If neither the tree nor the request is marked as failed after it,
  -- the caller's buffer holds the bytes of the range that can be read through the node, and is
  -- otherwise as it was.
  pub inner_read_data :
      (partial : Bool) (r : Call E × Bytes)
      → IsCoherent (n + sum rest) s
      → InPage (n + sum rest) s begin end
      → n + sum rest < 64
      → (s.cached ≡ false → splits (n + sum rest) lck begin end ≡ false)
      → (s.cached ≡ false
          → AreClean (E.bytes s.file) s.offset (2 ^ (n + sum rest)) (2 ^ sum rest) cs)
      → inner_read n rest c fresh partial s lck cs begin end ptr to ≡ some r
      → IsFine r.0.cell
      → SameBytes r.1 (copy ptr to (view s) begin (end - begin))
  unfolding inner_read read_within
  inner_read_data partial r good page small whole below e =
      let P : Call E × Bytes → Type 0 =
        λ x. IsFine x.0.cell → SameBytes x.1 (copy ptr to (view s) begin (end - begin)) in
      let large : covers_all (n + sum rest) ≡ false = ground (arith, small) in
      let guard : Bool = not (covers_all (n + sum rest)) && s.cached in
      elim (Bool-cases s.cached) [
        | inl present ↦
            let g : guard ≡ true = ground (arith, small, present) in
            from_some P (rw (g, large) at e) (through_cache good small page ptr to present)
        | inr bare ↦
            let g : guard ≡ false = ground (arith, small, bare) in
            let len : 2 ^ (n + sum rest) ≤ end - begin =
              ground (arith, whole bare, page.order, page.word) in
            from_some P (rw (g, whole bare, large) at e) (
              read_whole_data cs good bare small (one-le-pow (sum rest) 2 (omega arith))
                (below bare) c fresh page len ptr to lck)
      ]
