-- ===== src/Worker/Barrier.antt =====
-- Worker::barrier of src/backup/Worker.cpp, by every worker: the first worker, which publishes phases,
-- and the others, which are numbered from 0 here. Each load and store of an atomic `state` is a step,
-- and the steps of the workers come in any order, as seq_cst gives them. The spins with a yield are
-- steps that change nothing.
pub mod Codes
pub mod Agreement
use aiotest.Prelude.{ℕ, ◌+◌, ◌<◌, ◌≡◌, Bool, false, ◌||◌, ◌==◌, ltb, if◌then◌else◌}
use aiotest.Worker.{
  WorkerState, pending, created, pulling, running, unlocking, cleanup, idle, gc, flushing, quit,
  sync,
}

-- The number of a state, as the enum has it.
unfoldable pub code : WorkerState → ℕ
code pending = 0
code created = 1
code pulling = 2
code running = 3
code unlocking = 4
code cleanup = 5
code idle = 6
code gc = 7
code flushing = 8
code quit = 9
code sync = 10

unfoldable pub same : WorkerState → WorkerState → Bool
same s t = code s == code t

-- Where the first worker is: in the body of a phase, in the loop that waits for worker `next`, or at
-- `f()`. `entry` is the phase that it came from.
pub data MasterPc : Type 0 where
  in_body : (entry : WorkerState) → MasterPc
  scanning : (entry : WorkerState) → (next : ℕ) → MasterPc
  deciding : (entry : WorkerState) → MasterPc

-- Where another worker is: in a body, before the store of Sync, in the loop of loads, before the store
-- of `post`, or before the load that compares with `post`.
pub data WorkerPc : Type 0 where
  at_work : (entry : WorkerState) → WorkerPc
  storing waiting : (prev : WorkerState) → WorkerPc
  taking confirming : (prev post : WorkerState) → WorkerPc

pub record Local : Type 0 where
  pub state : WorkerState
  pub pc : WorkerPc

pub record System : Type 0 where
  pub published : WorkerState  -- the first worker's `state`
  pub master : MasterPc
  pub worker : ℕ → Local

-- `post` is what `f()` returns where the step is at it.
unfoldable pub master_move :
    (n : ℕ)
    → (post : WorkerState) → (published : WorkerState) → MasterPc
    → (ℕ → Local)
    → WorkerState × MasterPc
master_move n post published (in_body entry) workers = (sync, scanning entry 0)
master_move n post published (scanning entry next) workers = (
  published,
  (if ltb next n
      then (if same (workers next).state sync
          then scanning entry (next + 1)
          else scanning entry next)
      else deciding entry),
)
master_move n post published (deciding entry) workers = (post, in_body post)

unfoldable pub worker_move : (published : WorkerState) → (state : WorkerState) → WorkerPc → Local
worker_move published state (at_work entry) = record { state = state; pc = storing state }
worker_move published state (storing prev) = record { state = sync; pc = waiting prev }
worker_move published state (waiting prev) = record {
  state = state;
  pc = if same published prev || same published sync then waiting prev else taking prev published;
}
worker_move published state (taking prev post) = record { state = post; pc = confirming prev post }
worker_move published state (confirming prev post) = record {
  state = state;
  pc = if same published post then at_work post else storing prev;
}

abbrev pub update : (ℕ → Local) → ℕ → Local → ℕ → Local
update f i l j = if j == i then l else f j

unfoldable pub after_master : ℕ → WorkerState → System → System
after_master n post s =
    let m = master_move n post s.published s.master s.worker in
    record { published = m.0; master = m.1; worker = s.worker }

unfoldable pub after_worker : ℕ → System → System
after_worker i s =
    let l = s.worker i in
    record s { worker = update s.worker i (worker_move s.published l.state l.pc) }

-- A step of one of the workers, of which there are `n` besides the first. No phase is called Sync.
pub data Step (n : ℕ) (s : System) : System → Type 0 where
  of_master : (post : WorkerState) → same post sync ≡ false → Step n s (after_master n post s)
  of_worker : (i : ℕ) → i < n → Step n s (after_worker i s)

-- Every worker is created in the state Pending and starts with a barrier.
abbrev pub init : System
init = record {
  published = pending;
  master = in_body pending;
  worker = λ _. record { state = pending; pc = at_work pending };
}

pub data Reach (n : ℕ) : System → Type 0 where
  start : Reach n init
  later : {s t : System} → Reach n s → Step n s t → Reach n t
