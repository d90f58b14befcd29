-- ===== src/Subtree/Merge.antt =====
-- Merging children into the cache of a node above them: when the cache then holds the file.
use native.Mathlib.Nat.{one-le-pow}
use aiotest.Prelude.{
  ℕ, ◌+◌, ◌-◌, ◌^◌, ◌≤◌, ◌<◌, ◌≡◌, subst, Bool, true, false, List, if◌then◌else◌, arith,
}
use aiotest.Prelude.Word.{add64, sub64}
use aiotest.Prelude.Bytes.{Bytes}
use aiotest.Engine.{Engine}
use aiotest.Cache.{Cell, Owner, prefetch, fread, fail_to, fail}
use aiotest.Cache.Effects.{IsFine}
use aiotest.Subtree.{
  Page, Node, leaf, inner, Children, nil, gap, child, merge_page, merge_node, merge_children,
}

-- A page at `base`, of `size` bytes at most, that holds nothing but what the file `f` holds.
pub record IsCleanPage (f : Bytes) (base size : ℕ) (p : Page) : Type 0 where
  pub at_base : p.offset ≡ base
  pub fits : p.effective ≤ size
  pub clean : (i : ℕ) → i < p.effective → p.memory i ≡ f (base + i)

-- The nodes of a subtree that lies at `base` and has `size` bytes, and children of `width` bytes each.
unfoldable mutual
  pub IsClean : (f : Bytes) (base size : ℕ) → Node → Type 0
  IsClean f base size (leaf p) = IsCleanPage f base size p
  IsClean f base size (inner p m cs) = IsCleanPage f base size p × AreClean f base size (2 ^ m) cs

  pub AreClean : (f : Bytes) (base size width : ℕ) → Children → Type 0
  AreClean f base size width nil = Unit {0}
  AreClean f base size width (gap cs) =
      (width ≤ size) × AreClean f (base + width) (size - width) width cs
  AreClean f base size width (child t cs) =
      (width ≤ size) × IsClean f base width t × AreClean f (base + width) (size - width) width cs

module _ {E : Engine} where
  -- The node that is merged into, with a cache for what ends before `end`: its cache holds the file, unless the tree
  -- or the request is marked as failed.
  pub record IsFilling (f : Bytes) (start end : ℕ) (s : Cell E) : Type 0 where
    pub at_start : s.offset ≡ start
    pub present : s.cached ≡ true
    pub same_file : (i : ℕ) → E.bytes s.file i ≡ f i
    pub stays_clean : s.dirty ≡ false
    pub short : start + s.effective ≤ end
    pub filled : IsFine s → (i : ℕ) → i < s.effective → s.memory i ≡ f (start + i)

  module _ {f : Bytes} {start base : ℕ} {s : Cell E} (io : Owner)
      (fill : IsFilling f start base s) where
    prefetch-filled :
        (i : ℕ)
        → base < 2 ^ 64
        → IsFine (prefetch s (base - start) io).0
        → i < base - start
        → ((prefetch s (base - start) io).0).memory i ≡ f (start + i)
    unfolding prefetch fread fail_to fail
    prefetch-filled i word fine lt = ground (
      arith,
      fill.at_start,
      fill.present,
      fill.same_file (start + i),
      fill.short,
      fill.filled (ground arith) i,
      E.read_done s.file s.memory s.effective (add64 s.offset s.effective)
          (sub64 (base - start) s.effective) i,
      E.read_out s.file s.memory s.effective (add64 s.offset s.effective)
          (sub64 (base - start) s.effective) i,
    )

  module _ {f : Bytes} {start base size : ℕ} {s : Cell E} {p : Page} (io : Owner)
      (fill : IsFilling f start base s) (page : IsCleanPage f base size p)
      (room : base + size ≤ start + 2 ^ 63) (word : base < 2 ^ 64) where
    shift_lem : sub64 p.offset s.offset ≡ base - start
    shift_lem = omega (arith, fill.at_start, fill.short, page.at_base)

    merged-filled :
        (i : ℕ)
        → IsFine (merge_page s p io)
        → i < (merge_page s p io).effective
        → (merge_page s p io).memory i ≡ f (start + i)
    unfolding merge_page
    merged-filled = rw shift_lem (λ i fine lt. ground (
      arith,
      fill.short,
      page.fits,
      prefetch-filled io fill i word (subst (λ k. IsFine (prefetch s k io).0) shift_lem fine),
      page.clean (i - (base - start)),
    ))

    merge_page-IsFilling : IsFilling f start (base + size) (merge_page s p io)
    unfolding merge_page prefetch fread fail_to fail
    merge_page-IsFilling = record {
      at_start = ground (arith, fill.at_start);
      present = ground (arith, fill.present);
      same_file = λ i. ground (arith, fill.same_file i);
      stays_clean = ground (arith, fill.stays_clean);
      short = ground (arith, fill.at_start, fill.short, page.at_base, page.fits);
      filled = λ fine i lt. merged-filled i fine lt;
    }

  -- A node that is further from the end of the cache may be filled as well.
  widen :
      {f : Bytes} {start end end' : ℕ} {s : Cell E}
      → end ≤ end'
      → IsFilling f start end s
      → IsFilling f start end' s
  widen le fill = record {
    at_start = fill.at_start;
    present = fill.present;
    same_file = fill.same_file;
    stays_clean = fill.stays_clean;
    short = omega (arith, fill.short, le);
    filled = fill.filled;
  }

module _ {E : Engine} (f : Bytes) (start : ℕ) (io : Owner) where
  either-IsFilling :
      {end : ℕ} (b : Bool) (x y : Cell E × List Page)
      → IsFilling f start end x.0
      → IsFilling f start end y.0
      → IsFilling f start end (if b then x else y).0
  either-IsFilling true x y h g = h
  either-IsFilling false x y h g = g

  mutual
    unfolding IsClean merge_node

    merge_node-IsFilling :
        (base size : ℕ) (s : Cell E) (t : Node)
        → base + size ≤ start + 2 ^ 63
        → base + size ≤ 2 ^ 64
        → 0 < size
        → IsFilling f start base s
        → IsClean f base size t
        → IsFilling f start (base + size) (merge_node s t io).0
    merge_node-IsFilling base size s (leaf p) room word some_size fill clean =
        either-IsFilling p.cached _ _
          (merge_page-IsFilling io fill clean room (omega (arith, word, some_size)))
          (widen (omega arith) fill)
    merge_node-IsFilling base size s (inner p m cs) room word some_size fill clean =
        either-IsFilling p.cached _ _
          (merge_page-IsFilling io fill clean.0 room (omega (arith, word, some_size)))
          (merge_children-IsFilling base size (2 ^ m) s cs room word (one-le-pow m 2 (omega arith))
            fill clean.1)

    pub merge_children-IsFilling :
        (base size width : ℕ) (s : Cell E) (cs : Children)
        → base + size ≤ start + 2 ^ 63
        → base + size ≤ 2 ^ 64
        → 0 < width
        → IsFilling f start base s
        → AreClean f base size width cs
        → IsFilling f start (base + size) (merge_children s cs io).0
    merge_children-IsFilling base size width s nil room word some_width fill clean =
        widen (omega arith) fill
    merge_children-IsFilling base size width s (gap cs) room word some_width fill clean =
        subst (λ e. IsFilling f start e (merge_children s cs io).0) (omega (arith, clean.0))
          (merge_children-IsFilling (base + width) (size - width) width s cs
            (omega (arith, clean.0, room)) (omega (arith, clean.0, word)) some_width
            (widen (omega arith) fill) clean.1)
    merge_children-IsFilling base size width s (child t cs) room word some_width fill clean =
        subst (λ e. IsFilling f start e (merge_children (merge_node s t io).0 cs io).0)
          (omega (arith, clean.0))
          (merge_children-IsFilling (base + width) (size - width) width (merge_node s t io).0 cs
            (omega (arith, clean.0, room)) (omega (arith, clean.0, word)) some_width
            (merge_node-IsFilling base width s t (omega (arith, clean.0, room))
              (omega (arith, clean.0, word)) some_width fill clean.1)
            clean.2)
