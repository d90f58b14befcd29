-- ===== src/Tests/Machine.antt =====
-- Tests of the workers and the destructor as one machine, with one worker besides the first.
use aiotest.Prelude.{
  ◌^◌, ◌-◌, ℕ, zero, suc, ◌≡◌, refl, length, ◌++◌, true, false, List, [], ◌∷◌, arith,
}
use aiotest.Controller.{Limits, concurrency}
use aiotest.Worker.{pending, unlocking, decide, body, shift_right, keeps_cache, collect}
use aiotest.Worker.Barrier.{
  in_body, waiting, code, same, master_move, worker_move, after_master, after_worker,
}
use aiotest.Worker.Machine.{
  Move, first, other, closes, ended, built, run_moves, move, first_move, other_move, close_move,
}
use aiotest.Worker.Machine.Fair.{IsBlock, AreBlocks, run_blocks}
use aiotest.Worker.Machine.Waits.{IsOut, wait-IsOut}
use aiotest.Worker.Machine.Returns.{Returned, enough_blocks, destructor-Returned}
use aiotest.Tests.{roomy}
use aiotest.Tests.Rounds.{masked}

abbrev tight : Limits
tight = record { lower = 0; upper = 4096 }

-- The destructor comes up to its wait while both workers are at the first barrier.
abbrev to_wait : List Move
to_wait = first true false ∷ other 0 ∷ closes ∷ closes ∷ closes ∷ other 0 ∷ closes ∷ closes ∷ []

abbrev each_moves : List Move
each_moves = other 0 ∷ closes ∷ first false true ∷ []

abbrev blocks_of : ℕ → List (List Move)
blocks_of zero = []
blocks_of (suc k) = each_moves ∷ blocks_of k

each_moves-IsBlock : IsBlock 1 each_moves
each_moves-IsBlock = record {
  by_first = refl;
  by_others = λ i lt. ground (arith, lt);
  by_closer = refl;
}

blocks_of-AreBlocks : (k : ℕ) → AreBlocks 1 (blocks_of k)
blocks_of-AreBlocks zero = tt
blocks_of-AreBlocks (suc k) = (each_moves-IsBlock, blocks_of-AreBlocks k)

length-blocks_of : (k : ℕ) → length (blocks_of k) ≡ k
length-blocks_of zero = refl
length-blocks_of (suc k) = omega (arith, length-blocks_of k)

destructor-Returned_example : Returned 1 (
    run_blocks roomy masked 1
      (blocks_of (enough_blocks 1))
      (run_moves roomy masked 1 to_wait built))
unfolding run_moves move first_move other_move close_move after_master after_worker master_move
    worker_move same code decide body
destructor-Returned_example =
    destructor-Returned roomy masked 1 to_wait (blocks_of (enough_blocks 1)) (omega arith)
      (omega arith) refl (blocks_of-AreBlocks (enough_blocks 1))
      (omega (arith, length-blocks_of (enough_blocks 1)))

-- With no lower limit, 40 blocks are enough.
end_comes :
    (run_blocks tight masked 1 (blocks_of 40) (run_moves tight masked 1 to_wait built)).closer
    ≡ ended
unfolding run_moves move first_move other_move close_move after_master after_worker master_move
    worker_move same code decide body collect keeps_cache shift_right
end_comes = refl

-- All moves of those blocks in a row
abbrev all_moves : ℕ → List Move
all_moves zero = []
all_moves (suc k) = other 0 ∷ closes ∷ first false true ∷ all_moves k

wait-IsOut_example : IsOut 1 (run_moves tight masked 1 (to_wait ++ all_moves 40) built).system
unfolding run_moves move first_move other_move close_move after_master after_worker master_move
    worker_move same code decide body collect keeps_cache shift_right
wait-IsOut_example = wait-IsOut tight masked 1 (to_wait ++ all_moves 40) 1 refl (omega arith)

abbrev firsts : ℕ → List Move
firsts zero = []
firsts (suc k) = first false true ∷ firsts k

-- The first worker comes through Running, GC and Flushing while the other one waits at its first barrier
-- and does not look: the barrier does not hold it back.
phases_missed :
    let s = (run_moves tight masked 1 (firsts 1 ++ other 0 ∷ other 0 ∷ firsts 15) built).system in
    (s.master ≡ in_body unlocking) × ((s.worker 0).pc ≡ waiting pending)
unfolding run_moves move first_move other_move close_move after_master after_worker master_move
    worker_move same code decide body collect keeps_cache shift_right
phases_missed = (refl, refl)

-- As aio_init passes -1, one hardware thread leaves no worker.
no_workers : concurrency (2 ^ 64 - 1) 1 ≡ 0
unfolding concurrency
no_workers = refl
