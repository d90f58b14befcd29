-- ===== src/Collector/Steps.antt =====
-- The accounts over any course of the program: tasks that use the nodes and allocate caches, and the two
-- phases of collection, by all workers in any order.
use aiotest.Prelude.{
  ℕ, zero, suc, ◌+◌, ◌^◌, ◌<◌, ◌≡◌, refl, ap, Bool, true, false, Option, none, some, List, [], ◌∷◌,
  ◌++◌, arith,
}
use aiotest.Prelude.Word.{add64}
use aiotest.Prelude.Bytes.{Bytes}
use aiotest.Engine.{Engine}
use aiotest.Cache.{Cell, toggle}
use aiotest.Subtree.{Page}
use aiotest.Collector.{
  Shared, System, testing, popping, through, cell_at, with_cell, allocate, push_nulls, sweep_move,
  flush_move, advance, all_at, put,
}
use aiotest.Collector.Hands.{
  total, total_each, carries, carried, entries, budget, entries-append, budget-append,
}
use aiotest.Collector.Accounts.{Accounts, flag, advance-Accounts, sweep-Balance, flush-Balance}

-- `uses` is what a task does to a node without allocating or giving up its cache, and `stores` what it
-- does to the file. The phases begin when all `n` workers are out of their loops.
pub data Step {E : Engine} (bits : ℕ → ℕ) (fresh : Bytes) (n : ℕ) (s : System E)
    : System E → Type 0 where
  allocates :
      (x : ℕ)
      → (s.shared.page x).cached ≡ false
      → s.shared.used + 2 ^ bits x < 2 ^ 64
      → Step bits fresh n s (record s { shared = allocate bits fresh s.shared x })
  uses :
      (x : ℕ) (p : Page)
      → p.cached ≡ (s.shared.page x).cached
      → Step bits fresh n s
          (record s { shared = record (s.shared) { page = put s.shared.page x p } })
  stores :
      (f : E.File) (failed : Bool)
      → Step bits fresh n s (record s { shared = record (s.shared) { file = f; failed = failed } })
  begins_sweep :
      s.workers ≡ all_at through n → Step bits fresh n s (record s { workers = all_at testing n })
  begins_flush :
      s.workers ≡ all_at through n
      → Step bits fresh n s (record {
        shared = record (s.shared) { cache = push_nulls n s.shared.cache };
        workers = all_at popping n;
      })
  sweeps : (lower i : ℕ) → Step bits fresh n s (advance (sweep_move bits fresh lower) i s)
  flushes : (i : ℕ) → Step bits fresh n s (advance (flush_move bits fresh) i s)

-- At the start no node has a cache, and the queue is empty.
pub data Reach {E : Engine} (bits : ℕ → ℕ) (fresh : Bytes) (n : ℕ) : System E → Type 0 where
  start :
      (s : Shared E)
      → ((x : ℕ) → (s.page x).cached ≡ false)
      → s.cache ≡ []
      → s.used ≡ 0
      → Reach bits fresh n (record { shared = s; workers = all_at through n })
  later : {s t : System E} → Reach bits fresh n s → Step bits fresh n s t → Reach bits fresh n t

pub entries-push_nulls : (x n : ℕ) (c : List (Option ℕ)) → entries x (push_nulls n c) ≡ entries x c
unfolding push_nulls
entries-push_nulls x zero c = refl
entries-push_nulls x (suc n) c =
    omega (arith, entries-push_nulls x n (c ++ none ∷ []), entries-append x c (none ∷ []))

pub budget-push_nulls :
    (bits : ℕ → ℕ) (n : ℕ) (c : List (Option ℕ)) → budget bits (push_nulls n c) ≡ budget bits c
unfolding push_nulls
budget-push_nulls bits zero c = refl
budget-push_nulls bits (suc n) c =
    omega (arith, budget-push_nulls bits n (c ++ none ∷ []), budget-append bits c (none ∷ []))

taken :
    {E : Engine} (fresh : Bytes) (k : ℕ) (c : Cell E)
    → c.cached ≡ false
    → ((toggle fresh c (2 ^ k)).cached ≡ true)
      × ((toggle fresh c (2 ^ k)).used ≡ add64 c.used (2 ^ k))
unfolding toggle
taken fresh k c free = (rw free refl, rw free refl)

module _ {E : Engine} (bits : ℕ → ℕ) (fresh : Bytes) (n : ℕ) where
  allocate-Accounts :
      (s : System E) (x : ℕ)
      → (s.shared.page x).cached ≡ false
      → s.shared.used + 2 ^ bits x < 2 ^ 64
      → Accounts bits s
      → Accounts bits (record s { shared = allocate bits fresh s.shared x })
  unfolding allocate with_cell cell_at toggle
  allocate-Accounts s x free small a = record {
    owned = λ y. ground (
      arith,
      a.owned y,
      entries-append y s.shared.cache (some x ∷ []),
      taken fresh (bits x) (cell_at s.shared x) free,
    );
    spent = ground (
      arith,
      a.spent,
      small,
      budget-append bits s.shared.cache (some x ∷ []),
      taken fresh (bits x) (cell_at s.shared x) free,
    );
    word = ground (arith, small, taken fresh (bits x) (cell_at s.shared x) free);
  }

  pub Step-Accounts : {s t : System E} → Step bits fresh n s t → Accounts bits s → Accounts bits t
  Step-Accounts {s = s} (allocates x free small) a = allocate-Accounts s x free small a
  Step-Accounts {s = s} (uses x p same) a = record {
    owned = λ y. ground (arith, same, a.owned y);
    spent = a.spent;
    word = a.word;
  }
  Step-Accounts {s = s} (stores f failed) a = record {
    owned = a.owned;
    spent = a.spent;
    word = a.word;
  }
  Step-Accounts {s = s} (begins_sweep e) a = record {
    owned = λ y. omega (
      arith,
      a.owned y,
      ap (total (carries y)) e,
      total_each (carries y) through n,
      total_each (carries y) testing n,
    );
    spent = omega (
      arith,
      a.spent,
      ap (total (carried bits)) e,
      total_each (carried bits) through n,
      total_each (carried bits) testing n,
    );
    word = a.word;
  }
  Step-Accounts {s = s} (begins_flush e) a = record {
    owned = λ y. omega (
      arith,
      a.owned y,
      entries-push_nulls y n s.shared.cache,
      ap (total (carries y)) e,
      total_each (carries y) through n,
      total_each (carries y) popping n,
    );
    spent = omega (
      arith,
      a.spent,
      budget-push_nulls bits n s.shared.cache,
      ap (total (carried bits)) e,
      total_each (carried bits) through n,
      total_each (carried bits) popping n,
    );
    word = a.word;
  }
  Step-Accounts {s = s} (sweeps lower i) a =
      advance-Accounts bits (sweep_move bits fresh lower) (sweep-Balance bits fresh lower) i s a
  Step-Accounts {s = s} (flushes i) a =
      advance-Accounts bits (flush_move bits fresh) (flush-Balance bits fresh) i s a

  -- In every state that the program reaches, with tasks that use nodes and allocate caches and with the
  -- phases of collection by `n` workers, whose steps come in any order: each node with a cache stands in
  -- the queue or is with a worker, once, no other node does, and the memory in use is the sum of the
  -- sizes of these nodes.
  pub Reach-Accounts : {s : System E} → Reach bits fresh n s → Accounts bits s
  Reach-Accounts (start s free empty none_used) = record {
    owned = λ y.
        omega (arith, ap (entries y) empty, total_each (carries y) through n, ap flag (free y));
    spent = omega (arith, none_used, ap (budget bits) empty, total_each (carried bits) through n);
    word = omega (arith, none_used);
  }
  Reach-Accounts (later r st) = Step-Accounts st (Reach-Accounts r)
