-- ===== src/Worker/Machine.antt =====
-- All workers of a controller and the thread that destroys it, as one machine: run and barrier of
-- src/backup/Worker.cpp with the decisions of the first worker, and ~Controller and wait of
-- src/backup/Controller.cpp. Each load and store of a shared atomic is a move, and the moves come in any
-- order. There are `n` workers besides the first.
pub mod Bodies
pub mod Closing
pub mod Sound
pub mod Turns
pub mod Way
pub mod Blocks
pub mod Fair
pub mod Stops
pub mod Exits
pub mod Quits
pub mod Waits
pub mod Returns
use aiotest.Prelude.{
  ℕ, zero, suc, ◌+◌, ◌≤◌, Bool, true, false, not, ◌&&◌, List, [], ◌∷◌, ltb, leb, if◌then◌else◌,
}
use aiotest.Controller.{Limits}
use aiotest.Worker.{WorkerState, quit, Inputs, Master, decide, body}
use aiotest.Worker as Worker
use aiotest.Worker.Barrier.{
  same, System, init, MasterPc, in_body, scanning, deciding, WorkerPc, at_work, storing, waiting,
  taking, confirming, after_master, after_worker,
}

-- Where the thread that destroys the controller is: before, at the store to `reject` of a worker, at the
-- store to `ready`, at the load of a worker's `state`, or behind.
pub data Closer : Type 0 where
  not_begun stopping ended : Closer
  rejecting awaiting : (worker : ℕ) → Closer

-- `mind` has the local variables of the first worker's run; `rejects` is how many workers reject.
pub record Machine : Type 0 where
  pub system : System
  pub mind : Master
  pub ready : Bool
  pub rejects : ℕ
  pub closer : Closer

pub data Move : Type 0 where
  first : (any_todo flush : Bool) → Move
  other : (i : ℕ) → Move
  closes : Move

-- `state` of a worker, of which the first has the number 0
abbrev pub state_of : System → ℕ → WorkerState
state_of s zero = s.published
state_of s (suc i) = (s.worker i).state

-- The end of `for (auto entry = Idle; entry != Quit;)`
abbrev pub has_left : MasterPc → Bool
has_left (in_body entry) = same entry quit
has_left (scanning entry next) = false
has_left (deciding entry) = false

abbrev pub worker_left : WorkerPc → Bool
worker_left (at_work entry) = same entry quit
worker_left (storing prev) = false
worker_left (waiting prev) = false
worker_left (taking prev post) = false
worker_left (confirming prev post) = false

abbrev pub inputs_of : (ready any_todo flush : Bool) → Inputs
inputs_of ready any_todo flush = record { closing = not ready; any_todo = any_todo; flush = flush }

-- The destructor, and the wait for Quit at its end.
unfoldable pub close_move : (n : ℕ) → Closer → Machine → Machine
close_move n not_begun s = record s { closer = rejecting 0 }
close_move n (rejecting worker) s =
    if leb worker n
    then record s { rejects = worker + 1; closer = rejecting (worker + 1) }
    else record s { closer = stopping }
close_move n stopping s = record s { ready = false; closer = awaiting 0 }
close_move n (awaiting worker) s =
    if leb worker n
    then (if same (state_of s.system worker) quit
        then record s { closer = awaiting (worker + 1) }
        else s)
    else record s { closer = ended }
close_move n ended s = s

module _ (limits : Limits) (over : ℕ → ℕ → ℕ) (n : ℕ) where
  -- What the next decision is, from what it would read now.
  abbrev pub post_of : (any_todo flush : Bool) → Machine → WorkerState
  post_of any_todo flush s = (decide s.mind.decision (inputs_of s.ready any_todo flush)).0

  abbrev pub stepped : (any_todo flush : Bool) → Machine → System
  stepped any_todo flush s = after_master n (post_of any_todo flush s) s.system

  -- A step of the barrier; at `f()` the decision is made, and the body of its phase follows.
  unfoldable pub first_move : (any_todo flush : Bool) → MasterPc → Machine → Machine
  first_move any_todo flush (in_body entry) s =
      if same entry quit then s else record s { system = stepped any_todo flush s }
  first_move any_todo flush (scanning entry next) s = record s { system = stepped any_todo flush s }
  first_move any_todo flush (deciding entry) s = record s {
    system = stepped any_todo flush s;
    mind = body limits over s.mind (post_of any_todo flush s);
  }

  unfoldable pub other_move : (i : ℕ) → Machine → Machine
  other_move i s =
      if ltb i n && not (worker_left (s.system.worker i).pc)
      then record s { system = after_worker i s.system }
      else s

  unfoldable pub move : Move → Machine → Machine
  move (first any_todo flush) s = first_move any_todo flush s.system.master s
  move (other i) s = other_move i s
  move closes s = close_move n s.closer s

  unfoldable pub run_moves : List Move → Machine → Machine
  run_moves [] s = s
  run_moves (m ∷ ms) s = run_moves ms (move m s)

-- The controller after its constructor, with all workers started.
abbrev pub built : Machine
built = record { system = init; mind = Worker.start; ready = true; rejects = 0; closer = not_begun }
