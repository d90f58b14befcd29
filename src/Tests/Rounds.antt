-- ===== src/Tests/Rounds.antt =====
-- Tests of the queues and of the workers' rounds.
use aiotest.Prelude.{
  ℕ, zero, suc, ◌+◌, ◌<◌, ◌≤◌, length, ltb, if◌then◌else◌, ◌≡◌, refl, true, false, List, [], ◌∷◌,
  arith, Option, some,
}
use aiotest.Worker.Ids.{
  Pool, at_first, construct, destruct, constructs, destructs, initially, then_step, count,
  ids-apart,
}
use aiotest.Worker.Ids as Ids
use aiotest.Worker.Levels.{Event, submits, goes_round, after, round, submit}
use aiotest.Worker.Levels.Arrival.{rounds_more, sync-arrives}
use aiotest.Worker.Levels.Counts.{lowest, reach, asked}
use aiotest.Worker.Levels.Notice.{notice-last}
use aiotest.Worker.Stealing.{steal, steal_all}
use aiotest.Queue.{Queue, queue_of, claim, pos, on_ready, on_done, setup}
use aiotest.Queue.Drain.{claims, drained}
use aiotest.Queue.Round.{for_wait, for_done, for_pending, after_ready, after_done, rounds}
use aiotest.Worker.{running, Inputs, start, turn, decide, body}
use aiotest.Worker.Phases.{run, phases, round_after, running-unlocking}
use aiotest.Worker.Barrier.{
  System, Reach, init, of_master, of_worker, after_master, after_worker, master_move, worker_move,
  same, code,
}
use aiotest.Worker.Barrier.Agreement.{last_entry, is_deciding, phases-agree}
use aiotest.Tests.{roomy}

abbrev busy : Queue ℕ
busy = record {
  pending = 9 ∷ 8 ∷ [];
  wait = 1 ∷ [];
  ready = 2 ∷ 3 ∷ 4 ∷ [];
  done = 5 ∷ [];
  remain = pos 0;
  current = on_done;
}

drained_example :
    ((claims 2 (setup busy on_ready)).0 ≡ 4 ∷ 3 ∷ []) × ((claims 2 (setup busy on_ready)).2 ≡ true)
drained_example = drained 2 busy on_ready

rounds_example :
    ((after_ready busy (for_wait 6 ∷ for_done 7 ∷ [])).done ≡ 5 ∷ 7 ∷ [])
    × ((after_ready busy (for_wait 6 ∷ for_done 7 ∷ [])).remain ≡ pos 2)
    × ((after_ready busy (for_wait 6 ∷ for_done 7 ∷ [])).current ≡ on_done)
    × (after_done (after_ready busy (for_wait 6 ∷ for_done 7 ∷ [])) (for_pending 10 ∷ []) 0 ≡ (
      record {
        pending = 8 ∷ 10 ∷ [];
        wait = [];
        ready = 1 ∷ 6 ∷ 9 ∷ [];
        done = [];
        remain = pos 3;
        current = on_ready;
      },
      3,
    ))
rounds_example = rounds busy (for_wait 6 ∷ for_done 7 ∷ []) (for_pending 10 ∷ []) 0

-- What a shift by too much yields.
abbrev pub masked : ℕ → ℕ → ℕ
masked a n = a

abbrev closing_inputs : ℕ → Inputs
closing_inputs i = record { closing = true; any_todo = true; flush = true }

abbrev open_inputs : ℕ → Inputs
open_inputs i = record { closing = false; any_todo = true; flush = false }

running-unlocking_example :
    phases roomy masked
      (run roomy masked 1 open_inputs start)
      (open_inputs 0 ∷ closing_inputs 0 ∷ open_inputs 0 ∷ closing_inputs 0 ∷ [])
    ≡ round_after (closing_inputs 0) (closing_inputs 0)
unfolding run turn decide body
running-unlocking_example =
    running-unlocking roomy masked 1 open_inputs (open_inputs 0) (closing_inputs 0) (open_inputs 0)
      (closing_inputs 0) refl

-- Thread 3 asks for its item in a table of one.
abbrev table : List (Option ℕ)
table = some 7 ∷ []

-- One worker besides the first, which both come through the first barrier: the states after each step.
abbrev master_step : System → System
master_step s = after_master 1 running s

abbrev worker_step : System → System
worker_step s = after_worker 0 s

abbrev first_barrier : System
first_barrier = worker_step (
    worker_step (
      worker_step
        (master_step (master_step (master_step (worker_step (worker_step (master_step init))))))))

first_barrier-Reach : Reach 1 first_barrier
unfolding same code
first_barrier-Reach =
    let m = λ (s : System) (r : Reach 1 s). Reach.later r (of_master running refl) in
    let w = λ (s : System) (r : Reach 1 s). Reach.later r (of_worker 0 (omega arith)) in
    w _ (w _ (w _ (m _ (m _ (m _ (w _ (w _ (m _ Reach.start))))))))

phases-agree_example :
    (running ≡ last_entry first_barrier.master) × (is_deciding first_barrier.master ≡ false)
unfolding after_master after_worker master_move worker_move same code
phases-agree_example = phases-agree first_barrier-Reach 0 running (omega arith) refl

-- Three workers; the first is destroyed and a fourth gets its identifier.
abbrev two_workers : Pool
two_workers = construct (construct at_first)

abbrev reused : Pool
reused = construct (destruct 0 two_workers)

reused-Reach : Ids.Reach reused
unfolding construct
reused-Reach =
    then_step
      (then_step (then_step (then_step initially constructs) constructs)
        (destructs 0 (omega arith)))
      constructs

ids-apart_example :
    ((x : ℕ) → count x reused.live + count x reused.free ≤ 1)
    × ((x : ℕ) → reused.next ≤ x → count x reused.live ≡ 0)
ids-apart_example = ids-apart reused reused-Reach

-- The queues of three workers, with one to three tasks that are ready.
abbrev three_queues : ℕ → Queue ℕ
three_queues zero = record busy { ready = 10 ∷ [] }
three_queues (suc zero) = record busy { ready = 20 ∷ 21 ∷ [] }
three_queues (suc (suc i)) = record busy { ready = 30 ∷ 31 ∷ 32 ∷ [] }

three_queues-short : (i : ℕ) → length (queue_of on_ready (three_queues i)) < 4
three_queues-short zero = omega arith
three_queues-short (suc zero) = omega arith
three_queues-short (suc (suc i)) = omega arith

steal_all_example :
    (r : ℕ → Queue ℕ) × (steal 4 1 3 (λ i. setup (three_queues i) on_ready)
      ≡ some (21 ∷ 20 ∷ 32 ∷ 31 ∷ 30 ∷ 10 ∷ [], r))
    × ((i : ℕ) → count i (1 ∷ 2 ∷ 0 ∷ []) ≡ (if ltb i 3 then 1 else 0))
    × ((i : ℕ) → i < 3 → (claim (r i)).2 ≡ false)
steal_all_example = steal_all on_ready three_queues 4 1 3 (omega arith) three_queues-short

-- A request on a tree of three levels, whose root pushes three tasks and another node two, and a second
-- request after it. The sync of the first comes to the leaves in the fourth round.
abbrev three_levels : List Event
three_levels =
    goes_round (λ i. 2)
    ∷ goes_round (λ i. 2)
    ∷ submits
    ∷ goes_round (λ i. 3)
    ∷ goes_round (λ i. 0)
    ∷ submits
    ∷ []

notice-last_example :
    (reach 0 (after 2 three_levels).ready ≡ 0) × (asked 0 (after 2 three_levels).pending ≡ 0)
notice-last_example = notice-last 2 three_levels 0 (unfold after round submit in refl)

-- A request is submitted while another one is pending: four rounds and two more for the levels.
sync-arrives_example :
    lowest 1 2
      (after 2 (rounds_more 2 (λ k i. 2) (rounds_more 4 (λ k i. 3) (submits ∷ submits ∷ [])))).ready
    ≡ 0
unfolding after submit
sync-arrives_example = sync-arrives 2 (submits ∷ []) (λ k i. 3) (λ k i. 2)
