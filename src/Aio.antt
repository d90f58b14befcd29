-- ===== src/Aio.antt =====
-- include/backup/aio.hpp and src/backup/aio.cpp: the wrapper with the interface of POSIX AIO. `bts` is a
-- map from file descriptors to trees; a descriptor past its 65536 slots is out of range in the source.
-- `Tree` is the type of the trees and `open_tree path` what constructing one from a path gives: the
-- tree, and whether its engine failed. Error numbers are those of Linux.
pub mod Slots
pub mod Calls
use aiotest.Prelude.{
  ℕ, zero, suc, Bool, true, false, not, ◌&&◌, Option, none, some, ◌==◌, if◌then◌else◌,
}
use aiotest.Request.{Request, State, running, failed, rejected, done, poll}

abbrev pub einprogress : ℕ
einprogress = 115

abbrev pub ebadf : ℕ
ebadf = 9

-- The table `translate`, by the state.
unfoldable pub translate : State → ℕ
translate running = einprogress
translate failed = ebadf
translate rejected = ebadf
translate done = 0

-- aiocb::status, and aio_error, which calls it: the request it polls, and the error.
unfoldable pub status : Request → Request × ℕ
status io = let (io', state) = poll io in (io', translate state)

-- What aio_read, aio_write and aio_fsync return for the request that the call made: 1 or 0.
unfoldable pub submitted : Request → Request × Bool
submitted io = let (io', error) = status io in (io', not (error == einprogress) && not (error == 0))

abbrev pub slots : ℕ
slots = 65536

pub record Registry (Tree : Type 0) : Type 0 where
  pub initialised : Bool  -- _AIO_INIT_
  pub bts : ℕ → Option Tree

module _ {Tree : Type 0} where
  abbrev pub put : (ℕ → Option Tree) → ℕ → Option Tree → ℕ → Option Tree
  put bts fd tree = λ i. if i == fd then tree else bts i

  -- The path is what `open_tree` is given in `opened`.
  unfoldable pub register_fd :
      Registry Tree → (fd : ℕ) → (opened : Tree × Bool) → Registry Tree × Bool
  register_fd s fd opened = if not s.initialised then (s, false) else elim (s.bts fd) [
    | some _ ↦ (s, false)
    | none ↦
        if opened.1 then (s, false) else (record s { bts = put s.bts fd (some opened.0) }, true)
  ]

  -- The tree that is synced, detached and destroyed, if there is one.
  unfoldable pub deregister_fd : Registry Tree → (fd : ℕ) → Registry Tree × Option Tree
  deregister_fd s fd = if not s.initialised then (s, none) else elim (s.bts fd) [
    | some tree ↦ (record s { bts = put s.bts fd none }, some tree)
    | none ↦ (s, none)
  ]

  unfoldable pub aio_init : Registry Tree → Registry Tree
  aio_init s = record s { initialised = true }

  unfoldable pub deregister_below : Registry Tree → ℕ → Registry Tree
  deregister_below s zero = s
  deregister_below s (suc i) = deregister_below (deregister_fd s i).0 i

  unfoldable pub aio_end : Registry Tree → Registry Tree
  aio_end s = record (deregister_below s slots) { initialised = false }
