-- ===== src/Tests/Collector.antt =====
-- Tests of the queue of the nodes with a cache.
use aiotest.Prelude.{
  ℕ, zero, suc, ◌+◌, ◌≤◌, ◌<◌, ◌≡◌, refl, true, false, some, List, [], ◌∷◌, ◌==◌, arith,
  if◌then◌else◌,
}
use aiotest.Prelude.Bytes.{Bytes}
use aiotest.Cache.{above, null, toggle, fwrite, unlock}
use aiotest.Leaf.{evict, suicide, gc, write_back}
use aiotest.Subtree.{Page}
use aiotest.Tests.{disk}
use aiotest.Collector.{
  Shared, testing, popping, through, sweep_move, flush_move, run_schedule, all_at, push_nulls,
  advance, allocate, with_cell, with_node, cell_at, sweep_pop, flush_pop,
}
use aiotest.Collector.Accounts.{Accounts}
use aiotest.Collector.Steps.{Reach, start, later, allocates, begins_sweep, sweeps, Reach-Accounts}
use aiotest.Collector.Sweep.{sweep_done}
use aiotest.Collector.Written.{IsOrderly}
use aiotest.Collector.Flushed.{IsFlushed, at_flush, flush_phase}
use aiotest.Worker.Ids.{count}

abbrev eight : ℕ → ℕ
eight x = 3

abbrev blank : Bytes
blank i = 0

-- Nodes of 8 bytes. The first hangs in the tree and is dirty, the second has been dropped and is clean.
abbrev page_at : ℕ → Page
page_at x =
    if x == 0
    then record {
      offset = 8;
      parent = above;
      cached = true;
      memory = λ i. i + 108;
      effective = 4;
      dirty = true;
    }
    else if x == 1
    then record {
      offset = 16;
      parent = null;
      cached = true;
      memory = λ i. i + 16;
      effective = 8;
      dirty = false;
    }
    else record {
      offset = 0;
      parent = null;
      cached = false;
      memory = blank;
      effective = 0;
      dirty = false;
    }

abbrev two_nodes : Shared disk
two_nodes = record {
  file = λ i. i;
  failed = false;
  used = 16;
  cache = some 0 ∷ some 1 ∷ [];
  page = page_at;
  deleted = λ x. false;
  unlocks = λ x. 0;
}

-- Two workers in turn.
abbrev alternate : ℕ → List ℕ
alternate zero = []
alternate (suc k) = 0 ∷ 1 ∷ alternate k

enough_turns : (i : ℕ) → i < 2 → 10 < count i (alternate 11)
enough_turns zero h = omega arith
enough_turns (suc zero) h = omega arith
enough_turns (suc (suc i)) h = omega (arith, h)

paid : Accounts eight (record { shared = two_nodes; workers = all_at testing 2 })
paid = record { owned = λ x. ground arith; spent = omega arith; word = omega arith }

paid_through : Accounts eight (record { shared = two_nodes; workers = all_at through 2 })
paid_through = record { owned = λ x. ground arith; spent = omega arith; word = omega arith }

-- The budget is 8 bytes, so one of the nodes is given up.
sweep_done_example :
    let t =
      run_schedule
        (sweep_move eight blank 8)
        (alternate 11)
        (record { shared = two_nodes; workers = all_at testing 2 }) in
    (t.workers ≡ through ∷ through ∷ []) × (t.shared.used ≤ 8) × Accounts eight t
sweep_done_example =
    sweep_done eight blank 8 2 (alternate 11) two_nodes (omega arith) paid enough_turns

two_nodes-IsOrderly : IsOrderly two_nodes
two_nodes-IsOrderly = record {
  apart = λ x y e f q. ground arith;
  clean = λ x j e d lt. ground arith;
}

flush_phase_example :
    let t = run_schedule (flush_move eight blank) (alternate 11) (at_flush 2 two_nodes) in
    (t.workers ≡ through ∷ through ∷ []) × IsFlushed two_nodes t.shared × Accounts eight t
flush_phase_example =
    flush_phase eight blank 2 two_nodes (omega arith) refl paid_through two_nodes-IsOrderly
      (alternate 11) (λ i lt. omega (arith, enough_turns i lt))

-- No node has a cache at first; one is allocated, and a worker looks at the budget.
abbrev nothing : Shared disk
nothing = record two_nodes {
  used = 0;
  cache = [];
  page = λ x. record (page_at x) { cached = false };
}

busy_twice : Reach {E = disk} eight blank 2 (
    advance
      (sweep_move eight blank 4)
      1
      (record { shared = allocate eight blank nothing 5; workers = testing ∷ testing ∷ [] }))
busy_twice =
    later
      (later (later (start nothing (λ x. refl) refl refl) (allocates 5 refl (omega arith)))
        (begins_sweep refl))
      (sweeps 4 1)

Reach-Accounts_example : Accounts eight (
    advance
      (sweep_move eight blank 4)
      1
      (record { shared = allocate eight blank nothing 5; workers = testing ∷ testing ∷ [] }))
Reach-Accounts_example = Reach-Accounts eight blank 2 busy_twice

-- The second worker sees the budget exceeded.
sweeping :
    (advance (sweep_move eight blank 4) 1 (record {
      shared = allocate eight blank nothing 5;
      workers = testing ∷ testing ∷ [];
    })).workers
    ≡ testing ∷ popping ∷ []
unfolding advance sweep_move allocate with_cell cell_at toggle
sweeping = refl

flushed_byte :
    (run_schedule (flush_move eight blank) (alternate 11) (at_flush 2 two_nodes)).shared.file 10
    ≡ 110
unfolding run_schedule advance flush_move flush_pop with_cell with_node cell_at toggle evict suicide
    write_back fwrite unlock push_nulls
flushed_byte = refl

-- Both workers test the budget before one of them collects, so both nodes are given up.
swept :
    let t =
      run_schedule
        (sweep_move eight blank 8)
        (alternate 11)
        (record { shared = two_nodes; workers = all_at testing 2 }) in
    (t.shared.used ≡ 0) × (t.shared.cache ≡ []) × (t.shared.file 11 ≡ 111)
unfolding run_schedule advance sweep_move sweep_pop with_cell with_node cell_at toggle evict suicide
    gc write_back fwrite unlock
swept = (refl, refl, refl)
