-- ===== src/Collector/Eviction.antt =====
-- What a worker does to a node in the flushing phase, as it is seen from the nodes and the file.
use aiotest.Prelude.{
  ℕ, ◌+◌, ◌-◌, ◌≤◌, ◌<◌, ◌≡◌, refl, ap, ◌∙◌, Bool, true, false, not, ◌&&◌, ◌||◌, ◌==◌,
  if◌then◌else◌, Bool-cases, inl, inr, ◌⊎◌, arith,
}
use aiotest.Prelude.Bytes.{Bytes}
use aiotest.Engine.{Engine}
use aiotest.Cache.{Cell, fail, fail_to, fwrite, unlock, toggle, is_null}
use aiotest.Leaf.{evict, suicide, write_back}
use aiotest.Subtree.{Page}
use aiotest.Collector.{Shared, cell_at, with_cell, with_node, page_of}

-- Outside the cached prefix of a node.
abbrev pub Outside : Page → ℕ → Type 0
Outside p i = (i < p.offset) ⊎ (p.offset + p.effective ≤ i)

-- The write of a cache.
module _ (E : Engine) (f : E.File) (p : Page) where
  abbrev pub write_page : E.File × Bool
  write_page = E.write f p.memory 0 p.offset p.effective

  pub write_within :
      (j : ℕ)
      → write_page.1 ≡ true
      → j < p.effective
      → E.bytes write_page.0 (p.offset + j) ≡ p.memory j
  write_within j ok lt =
      let back : 0 + (p.offset + j - p.offset) ≡ j = omega arith in
      E.write_done f p.memory 0 p.offset p.effective (p.offset + j) ok
      ∙ ground (arith, ap p.memory back)

  pub write_away : (i : ℕ) → Outside p i → E.bytes write_page.0 i ≡ E.bytes f i
  write_away i out = E.write_out f p.memory 0 p.offset p.effective i out

-- A node after the phase: evicted, or deleted if it is not in the tree any more.
abbrev pub cleaned : Page → Page
cleaned p =
    if is_null p.parent
    then record p { effective = 0; dirty = false; cached = false }
    else record p { dirty = false }

module _ {E : Engine} (fresh : Bytes) (k : ℕ) (c : Cell E) where
  page-evict : page_of (evict fresh k c false) ≡ record (page_of c) { dirty = false }
  unfolding evict write_back fwrite fail_to fail unlock
  page-evict = ground arith

  page-suicide :
      c.cached ≡ true
      → page_of (evict fresh k c true)
        ≡ record (page_of c) { effective = 0; dirty = false; cached = false }
  unfolding evict write_back fwrite fail_to fail unlock toggle
  page-suicide h = ground arith

  -- The write of a dirty cache.
  abbrev pub stored : E.File × Bool
  stored = E.write c.file c.memory 0 c.offset c.effective

  file-evict :
      (release : Bool) → (evict fresh k c release).file ≡ (if c.dirty then stored.0 else c.file)
  unfolding evict write_back fwrite fail_to fail unlock toggle
  file-evict release = ground arith

  failed-evict :
      (release : Bool) → (evict fresh k c release).failed ≡ (c.failed || c.dirty && not stored.1)
  unfolding evict write_back fwrite fail_to fail unlock toggle
  failed-evict release = ground arith

module _ {E : Engine} (s : Shared E) (x : ℕ) where
  -- The write of the node's cache into the file, if the cache is dirty.
  abbrev pub file_after : E.File
  file_after = if (s.page x).dirty then (write_page E s.file (s.page x)).0 else s.file

  abbrev pub failed_after : Bool
  failed_after = s.failed || (s.page x).dirty && not (write_page E s.file (s.page x)).1

  -- What a step with the node in its hands makes of the nodes and the file.
  pub record Handled (s' : Shared E) : Type 0 where
    pub pages : (y : ℕ) → s'.page y ≡ (if y == x then cleaned (s.page x) else s.page y)
    pub gone :
        (y : ℕ) → s'.deleted y ≡ (if y == x && is_null (s.page x).parent then true else s.deleted y)
    pub queue : s'.cache ≡ s.cache
    pub contents : s'.file ≡ file_after
    pub failure : s'.failed ≡ failed_after

module _ {E : Engine} (bits : ℕ → ℕ) (fresh : Bytes) (s : Shared E) (x : ℕ) where
  abbrev cell : Cell E
  cell = cell_at s x

  pub suicide-Handled :
      is_null (s.page x).parent ≡ true
      → (s.page x).cached ≡ true
      → Handled s x (with_node s x (suicide fresh (bits x) cell))
  unfolding with_node with_cell suicide cell_at
  suicide-Handled orphan h = record {
    pages = λ y. elim (Bool-cases (y == x)) [
      | inl e ↦ rw e (page-suicide fresh (bits x) cell h ∙ rw orphan refl)
      | inr e ↦ rw e refl
    ];
    gone = λ y. ground arith;
    queue = refl;
    contents = file-evict fresh (bits x) cell true;
    failure = failed-evict fresh (bits x) cell true;
  }

  pub evict-Handled :
      is_null (s.page x).parent ≡ false
      → Handled s x (with_cell s x (evict fresh (bits x) cell false))
  unfolding with_cell cell_at
  evict-Handled there = record {
    pages = λ y. elim (Bool-cases (y == x)) [
      | inl e ↦ rw e (page-evict fresh (bits x) cell ∙ rw there refl)
      | inr e ↦ rw e refl
    ];
    gone = λ y. ground arith;
    queue = refl;
    contents = file-evict fresh (bits x) cell false;
    failure = failed-evict fresh (bits x) cell false;
  }
