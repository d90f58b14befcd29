-- ===== src/Worker/Levels.antt =====
-- The tasks of requests on their way down a tree of include/backup/BTree.hpp, with one worker: read, write
-- and Root::sync of a node push tasks for the level below with pushWait, which run in the next round, and
-- every round takes one task from the pending queue. How many tasks a node pushes is an argument.
pub mod Counts
pub mod Notice
pub mod Arrival
use aiotest.Prelude.{ℕ, zero, suc, ◌+◌, List, [], ◌∷◌, ◌++◌}
use aiotest.Queue.{pulled, unpulled}

-- A task for a node, at `depth` levels above the leaves: a part of the request `io`, or its sync.
pub data Job : Type 0 where
  work notice : (io depth : ℕ) → Job

-- What a client queues for a request: the call of the root, and then the sync.
pub data Root : Type 0 where
  asks ends : (io : ℕ) → Root

pub record Jobs : Type 0 where
  pub pending : List Root
  pub ready : List Job
  pub next : ℕ  -- how many requests there have been

abbrev pub at_root : (top : ℕ) → List Root → List Job
at_root top [] = []
at_root top (asks io ∷ rs) = work io top ∷ at_root top rs
at_root top (ends io ∷ rs) = notice io top ∷ at_root top rs

abbrev pub repeat : ℕ → Job → List Job
repeat zero j = []
repeat (suc k) j = j ∷ repeat k j

-- What a task pushes. A leaf pushes nothing, and its sync notifies.
abbrev pub spawn : (kids : ℕ) → Job → List Job
spawn kids (work io zero) = []
spawn kids (work io (suc d)) = repeat kids (work io d)
spawn kids (notice io zero) = []
spawn kids (notice io (suc d)) = notice io d ∷ []

-- The tasks of a round, the i-th of which pushes `kids i` tasks, or none where it answers itself.
abbrev pub run_jobs : (kids : ℕ → ℕ) → List Job → List Job
run_jobs kids [] = []
run_jobs kids (j ∷ js) = spawn (kids 0) j ++ run_jobs (λ i. kids (suc i)) js

unfoldable pub submit : Jobs → Jobs
submit s = record s { pending = s.pending ++ asks s.next ∷ ends s.next ∷ []; next = s.next + 1 }

unfoldable pub round : (top : ℕ) → (kids : ℕ → ℕ) → Jobs → Jobs
round top kids s = record s {
  pending = unpulled s.pending;
  ready = run_jobs kids s.ready ++ at_root top (pulled s.pending);
}

pub data Event : Type 0 where
  submits : Event
  goes_round : (kids : ℕ → ℕ) → Event

abbrev pub no_jobs : Jobs
no_jobs = record { pending = []; ready = []; next = 0 }

-- The jobs after the events, the last of which comes first.
unfoldable pub after : (top : ℕ) → List Event → Jobs
after top [] = no_jobs
after top (submits ∷ es) = submit (after top es)
after top (goes_round kids ∷ es) = round top kids (after top es)
