-- ===== src/Benchmark/Callbacks.antt =====
-- AIOWrite of include/iotest.hpp: the control blocks that each thread hands to POSIX AIO, and the waits
-- for them. What aio_read, aio_write, aio_fsync and aio_error return are arguments. A call that ends
-- the program is `none`, or `survived = false` in a wait.
pub mod Waits
use aiotest.Prelude.{
  ℕ, zero, suc, ◌+◌, ap, Bool, true, false, ◌&&◌, ◌==◌, Option, none, some, List, [], ◌∷◌, ◌++◌,
  if◌then◌else◌,
}
use aiotest.Benchmark.{Settings}

-- The members of an aiocb that are set; `buf` is a pointer.
pub record Block : Type 0 where
  pub fildes : Option ℕ
  pub nbytes : ℕ
  pub buf : ℕ
  pub offset : ℕ

pub record Blocks : Type 0 where
  pub cbs : (tid : ℕ) → List Block

abbrev pub set_blocks : Blocks → (tid : ℕ) → List Block → Blocks
set_blocks c tid bs = record { cbs = λ i. if i == tid then bs else c.cbs i }

pub data Op : Type 0 where
  writes reads : (offset data_at : ℕ) → Op
  syncs : Op

-- The block after memset and the assignments.
abbrev pub block_of : Settings → (fd : Option ℕ) → Op → Block
block_of st fd (writes offset data_at) = record {
  fildes = fd;
  nbytes = st.write_size;
  buf = data_at;
  offset = offset;
}
block_of st fd (reads offset data_at) = record {
  fildes = fd;
  nbytes = st.read_size;
  buf = data_at;
  offset = offset;
}
block_of st fd syncs = record { fildes = fd; nbytes = 0; buf = 0; offset = 0 }

-- `writeop`, `readop` and `syncop`, where the call of the system returns `err`.
unfoldable pub operate :
    Settings → (fd : Option ℕ) → Blocks → (tid : ℕ) → Op → (err : ℕ) → Option Blocks
operate st fd c tid op err =
    if err == 0 then some (set_blocks c tid (c.cbs tid ++ block_of st fd op ∷ [])) else none

unfoldable pub reset_cbs : Blocks → (tid : ℕ) → Blocks
reset_cbs c tid = set_blocks c tid []

-- The inner loop, where the k-th call of aio_error returns `answer k`: what it returned last, and how
-- often it was EINPROGRESS before that. `none` is no end within the fuel.
unfoldable pub poll_error : (in_progress : ℕ) → (answer : ℕ → ℕ) → (fuel : ℕ) → Option (ℕ × ℕ)
poll_error p answer zero = none
poll_error p answer (suc fuel) =
    let rest = poll_error p (λ k. answer (suc k)) fuel in
    if answer 0 == p
    then elim rest [ none ↦ none | some r ↦ some (r.0, suc r.1) ]
    else some (answer 0, 0)

-- What a wait does: the blocks given to aio_return, the calls of sleep_for, and whether it returns.
pub record Waited : Type 0 where
  pub returned : List Block
  pub sleeps : ℕ
  pub survived : Bool

abbrev pub naps : (busy : Bool) → (times : ℕ) → ℕ
naps busy times = if busy then 0 else times

-- The outer loop; `answers i` are those for the i-th block that is left.
unfoldable pub wait_blocks :
    (busy : Bool)
    → (in_progress : ℕ) → (answers : ℕ → ℕ → ℕ) → (fuel : ℕ) → List Block
    → Option Waited
wait_blocks busy p answers fuel [] = some (record { returned = []; sleeps = 0; survived = true })
wait_blocks busy p answers fuel (b ∷ bs) =
    let rest = wait_blocks busy p (λ i. answers (suc i)) fuel bs in
    elim (poll_error p (answers 0) fuel) [
      | none ↦ none
      | some r ↦
          if r.0 == 0
          then elim rest [
            | none ↦ none
            | some w ↦ some (record {
              returned = b ∷ w.returned;
              sleeps = naps busy r.1 + w.sleeps;
              survived = w.survived;
            })
          ]
          else some (record { returned = []; sleeps = naps busy r.1; survived = false })
    ]

unfoldable pub wait_cb_common :
    (busy : Bool)
    → (in_progress : ℕ) → (answers : ℕ → ℕ → ℕ) → (fuel : ℕ) → Blocks
    → (tid : ℕ) → Option (Blocks × Waited)
wait_cb_common busy p answers fuel c tid = elim (wait_blocks busy p answers fuel (c.cbs tid)) [
  | none ↦ none
  | some w ↦ some (if w.survived then reset_cbs c tid else c, w)
]

-- A call by a thread, and what the system returned to it.
pub data Call : Type 0 where
  call : (tid : ℕ) → Op → (err : ℕ) → Call

unfoldable pub run_calls : Settings → (fd : Option ℕ) → Blocks → List Call → Option Blocks
run_calls st fd c [] = some c
run_calls st fd c (call tid op err ∷ es) = elim (operate st fd c tid op err) [
  | none ↦ none
  | some c' ↦ run_calls st fd c' es
]

-- The calls of one thread.
abbrev pub own : (tid : ℕ) → List Call → List Op
own tid [] = []
own tid (call t op err ∷ es) = let rest = own tid es in if tid == t then op ∷ rest else rest

abbrev pub accepted : List Call → Bool
accepted [] = true
accepted (call t op err ∷ es) = err == 0 && accepted es
