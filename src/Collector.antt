-- ===== src/Collector.antt =====
-- Controller::cache, the queue of the nodes with a cache, and the two phases in which all workers take
-- nodes from it: the loops of the cases GC and Flushing of src/backup/Worker.cpp, with `gc`, `evict` and
-- `suicide` of the nodes. The queue is a parameter of the program (boost::lockfree::queue), used as
-- documented: first in, first out, and each push and pop is one step. The nodes belong to one tree.
pub mod Hands
pub mod Rounds
pub mod Accounts
pub mod Sweep
pub mod Steps
pub mod Tokens
pub mod Eviction
pub mod Flushing
pub mod Written
pub mod Flushed
use aiotest.Prelude.{
  ℕ, zero, suc, ◌^◌, Bool, true, false, Option, none, some, List, [], ◌∷◌, ◌++◌, ◌==◌, ltb,
  get_elem?, if◌then◌else◌,
}
use aiotest.Prelude.Bytes.{Bytes}
use aiotest.Engine.{Engine}
use aiotest.Cache.{Cell, is_null, toggle}
use aiotest.Leaf.{evict, gc, suicide}
use aiotest.Subtree.{Page}

-- What the workers share: `cache` oldest first, where `none` is a null pointer, and the nodes by their
-- address. `unlocks` counts the tasks that a node's `unlock` pushed.
pub record Shared (E : Engine) : Type 0 where
  pub file : E.File
  pub failed : Bool
  pub used : ℕ
  pub cache : List (Option ℕ)
  pub page : ℕ → Page
  pub deleted : ℕ → Bool
  pub unlocks : ℕ → ℕ

-- Where a worker is in its loop: at the test of the budget, at the pop, with a node in its hands, with a
-- node that it puts back, or behind the loop.
pub data Pc : Type 0 where
  testing popping through : Pc
  holding returning : (node : ℕ) → Pc

pub record System (E : Engine) : Type 0 where
  pub shared : Shared E
  pub workers : List Pc

abbrev pub put {ℓ} : {A : Type ℓ} → (ℕ → A) → ℕ → A → ℕ → A
put f x v y = if y == x then v else f y

-- The worker with the given number goes to another place.
abbrev pub set_pc : List Pc → ℕ → Pc → List Pc
set_pc [] i p = []
set_pc (q ∷ qs) zero p = p ∷ qs
set_pc (q ∷ qs) (suc i) p = q ∷ set_pc qs i p

module _ {E : Engine} where
  -- A node with the members that it shares, as its methods see it.
  unfoldable pub cell_at : Shared E → ℕ → Cell E
  cell_at s x =
      let p = s.page x in
      record {
        offset = p.offset;
        parent = p.parent;
        cached = p.cached;
        memory = p.memory;
        effective = p.effective;
        dirty = p.dirty;
        unlocks = s.unlocks x;
        file = s.file;
        size = 0;
        failed = s.failed;
        io_failed = false;
        io_unlocks = 0;
        used = s.used;
        queued = 0;
      }

  abbrev pub page_of : Cell E → Page
  page_of c = record {
    offset = c.offset;
    parent = c.parent;
    cached = c.cached;
    memory = c.memory;
    effective = c.effective;
    dirty = c.dirty;
  }

  unfoldable pub with_cell : Shared E → ℕ → Cell E → Shared E
  with_cell s x c = record s {
    file = c.file;
    failed = c.failed;
    used = c.used;
    page = put s.page x (page_of c);
    unlocks = put s.unlocks x c.unlocks;
  }

  -- A node that may have been deleted by the call.
  unfoldable pub with_node : Shared E → ℕ → Cell E × Bool → Shared E
  with_node s x r =
      let t = with_cell s x r.0 in if r.1 then record t { deleted = put t.deleted x true } else t

  -- What the pop of the two loops finds.
  unfoldable pub sweep_pop : Shared E → List (Option ℕ) → Shared E × Pc
  sweep_pop s [] = (s, through)
  sweep_pop s (none ∷ rest) = (record s { cache = rest }, testing)
  sweep_pop s (some x ∷ rest) = (record s { cache = rest }, holding x)

  unfoldable pub flush_pop : Shared E → List (Option ℕ) → Shared E × Pc
  flush_pop s [] = (s, through)
  flush_pop s (none ∷ rest) = (record s { cache = rest }, through)
  flush_pop s (some x ∷ rest) = (record s { cache = rest }, holding x)

  -- What the code of every phase is given: the bits of a node's size, and what `new char[size]` holds.
  module _ (bits : ℕ → ℕ) (fresh : Bytes) where
    -- `while (used > lower && cache.consume_one([](auto i){ if (i) i->gc(); }));`
    unfoldable pub sweep_move : (lower : ℕ) → Shared E → Pc → Shared E × Pc
    sweep_move lower s testing = if ltb lower s.used then (s, popping) else (s, through)
    sweep_move lower s popping = sweep_pop s s.cache
    sweep_move lower s (holding x) = (with_node s x (gc fresh (bits x) (cell_at s x)), testing)
    sweep_move lower s other = (s, other)

    -- `for (i = nullptr; cache.pop(i) && i;) if (i->valid()) { i->evict(false); cache.push(i); } else
    -- i->suicide();`
    unfoldable pub flush_move : Shared E → Pc → Shared E × Pc
    flush_move s popping = flush_pop s s.cache
    flush_move s (holding x) =
        let c = cell_at s x in
        if is_null c.parent
        then (with_node s x (suicide fresh (bits x) c), popping)
        else (with_cell s x (evict fresh (bits x) c false), returning x)
    flush_move s (returning x) = (record s { cache = s.cache ++ some x ∷ [] }, popping)
    flush_move s other = (s, other)

    -- BTreeConfig::operator() for a node without a cache, which is pushed.
    unfoldable pub allocate : Shared E → ℕ → Shared E
    allocate s x =
        let t = with_cell s x (toggle fresh (cell_at s x) (2 ^ bits x)) in
        record t { cache = t.cache ++ some x ∷ [] }

-- One step of the worker with the given number; no other worker has it.
unfoldable pub advance : {E : Engine} → (Shared E → Pc → Shared E × Pc) → ℕ → System E → System E
advance move i s = elim (get_elem? s.workers i) [
  | none ↦ s
  | some p ↦ let r = move s.shared p in record { shared = r.0; workers = set_pc s.workers i r.1 }
]

-- The workers take their steps in the order of the list.
unfoldable pub run_schedule :
    {E : Engine} → (Shared E → Pc → Shared E × Pc) → List ℕ → System E → System E
run_schedule move [] s = s
run_schedule move (i ∷ is) s = run_schedule move is (advance move i s)

abbrev pub all_at : Pc → (workers : ℕ) → List Pc
all_at p zero = []
all_at p (suc n) = p ∷ all_at p n

-- `for (auto i = workers.size(); i--; cache.push(nullptr));`
unfoldable pub push_nulls : (workers : ℕ) → List (Option ℕ) → List (Option ℕ)
push_nulls zero c = c
push_nulls (suc n) c = push_nulls n (c ++ none ∷ [])
