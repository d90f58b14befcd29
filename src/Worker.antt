-- ===== src/Worker.antt =====
-- src/backup/Worker.cpp and include/backup/State.hpp: the rounds of the workers. At every barrier the
-- first worker decides which phase comes next and prepares the queues for it; then each worker runs the
-- body of the phase. Modelled is the first worker, which runs every body and makes every decision.
pub mod Phases
pub mod Barrier
pub mod Local
pub mod Shutdown
pub mod Ids
pub mod Stealing
pub mod Levels
pub mod Machine
use aiotest.Prelude.{
  ℕ, suc, ◌-◌, ◌/◌, ◌^◌, Bool, true, false, not, ◌||◌, List, [], ◌∷◌, ltb, ◌==◌, if◌then◌else◌,
}
use aiotest.Controller.{Limits}
use aiotest.Queue.{Queue, roll}

pub data WorkerState : Type 0 where
  pending created pulling running unlocking cleanup idle gc flushing quit sync : WorkerState

-- The closures that `decision` holds, named for the phase that stores them: `at_start` before the
-- loop, `after_gc` where the budget allows cached data, `after_idle` where it does not.
pub data Decision : Type 0 where
  at_start after_running after_unlocking after_gc after_idle after_flushing : Decision

-- What a decision does to the queue of every worker.
pub data QueueStep : Type 0 where
  clears rolls sets_done : QueueStep

-- What a decision reads: the main loop's switch, whether the roll found tasks, and the flush switch.
pub record Inputs : Type 0 where
  pub closing : Bool
  pub any_todo : Bool
  pub flush : Bool

-- `round_idle` counts the rounds since the last one with tasks, `cleaning` is the member `cleanup`.
pub record Master : Type 0 where
  pub entry : WorkerState
  pub decision : Decision
  pub round_idle : ℕ
  pub cleaning : Bool

-- Controller::roundIdle
abbrev pub idle_limit : ℕ
idle_limit = 10

unfoldable pub decide : Decision → Inputs → WorkerState × List QueueStep
decide at_start i = (running, [])
decide after_running i = (gc, clears ∷ [])
decide after_unlocking i =
    if i.closing
    then (cleanup, clears ∷ [])
    else (if i.any_todo then running else idle, clears ∷ rolls ∷ [])
decide after_gc i = if i.flush then (flushing, []) else (unlocking, sets_done ∷ [])
decide after_idle i =
    if i.closing then (quit, []) else (if i.any_todo then running else idle, rolls ∷ [])
decide after_flushing i = (unlocking, sets_done ∷ [])

-- Shifting a word by 64 or more is undefined in the source: `over` says what it yields.
module _ (limits : Limits) (over : ℕ → ℕ → ℕ) where
  unfoldable pub shift_right : ℕ → ℕ → ℕ
  shift_right a n = if ltb n 64 then a / 2 ^ n else over a n

  -- `exceed` and `exceed - 1` are compared with 0 and never below it.
  abbrev pub exceed : ℕ → ℕ
  exceed round_idle = round_idle - idle_limit

  unfoldable pub keeps_cache : ℕ → Bool
  keeps_cache round_idle =
      (round_idle == 0) || not (shift_right limits.lower (exceed round_idle - 1) == 0)

  -- What the garbage collector goes down to.
  unfoldable pub gc_bound : (cleaning : Bool) → ℕ → ℕ
  gc_bound cleaning round_idle =
      if cleaning then 0 else shift_right limits.lower (exceed round_idle)

  -- The cases Cleanup, Idle and GC, which fall through, from the third on.
  unfoldable pub collect : Master → Master
  collect m = record m { decision = if keeps_cache m.round_idle then after_gc else after_idle }

  -- One turn of the loop: the barrier's decision, and the body of the phase.
  unfoldable pub body : Master → WorkerState → Master
  body m running = record m { entry = running; round_idle = 0; decision = after_running }
  body m unlocking = record m { entry = unlocking; decision = after_unlocking }
  body m cleanup =
      collect (record m { entry = cleanup; cleaning = true; round_idle = suc m.round_idle })
  body m idle = collect (record m { entry = idle; round_idle = suc m.round_idle })
  body m gc = collect (record m { entry = gc })
  body m flushing = record m { entry = flushing; decision = after_flushing }
  body m other = record m { entry = other }

  unfoldable pub turn : Master → Inputs → Master
  turn m i = elim m.entry [ quit ↦ m | _ ↦ body m (decide m.decision i).0 ]

abbrev pub start : Master
start = record { entry = idle; decision = at_start; round_idle = 0; cleaning = false }
