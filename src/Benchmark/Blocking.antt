-- ===== src/Benchmark/Blocking.antt =====
-- BlockingWrite and FstreamWrite of include/iotest.hpp, over pread, pwrite and std::fstream. `none` ends
-- the program. The mutex of a concurrent FstreamWrite makes a write or a read one step.
use aiotest.Prelude.{ℕ, ◌≡◌, Bool, false, ◌==◌, Option, none, some, if◌then◌else◌}
use aiotest.Prelude.Bytes.{Bytes}
use aiotest.Engine.Posix.{Kernel, Returned, failed, moved}
use aiotest.Engine.Fstream.{Fstream, both}
use aiotest.Benchmark.{Settings}
use aiotest.Benchmark.Handle.{Handle, enter, finish_open, decrement}

module _ (K : Kernel) where
  abbrev unless_failed : {A : Type 0} → Returned → A → Option A
  unless_failed failed a = none
  unless_failed (moved k) a = some a

  -- The error test of the source is `< 0`, so that a short count goes unnoticed.
  unfoldable pub writeop :
      Settings → (fd : Option ℕ) → K.File → (offset : ℕ) → (dat : Bytes) → Option K.File
  writeop st fd f offset dat =
      let w = K.pwrite f fd dat 0 st.write_size offset in unless_failed w.1 w.0

  unfoldable pub readop :
      Settings → (fd : Option ℕ) → K.File → (offset : ℕ) → (dat : Bytes) → Option Bytes
  readop st fd f offset dat =
      let r = K.pread f fd dat 0 st.read_size offset in unless_failed r.1 r.0

  unfoldable pub syncop : (fd : Option ℕ) → K.File → Option K.File
  syncop fd f = if K.fsync f fd then some f else none

module _ (L : Fstream) where
  -- An FstreamWrite: the members of RandomWrite, and its stream.
  pub record StreamFile : Type 0 where
    pub handle : Handle
    pub stream : L.State

  unfoldable pub stream_write : Settings → L.State → (offset : ℕ) → (dat : Bytes) → L.State
  stream_write st s offset dat = L.write (L.seek s offset) dat 0 st.write_size

  unfoldable pub stream_read : Settings → L.State → (offset : ℕ) → (dat : Bytes) → L.State × Bytes
  stream_read st s offset dat = L.read (L.seek s offset) dat 0 st.read_size

  -- `synced` is whether fsync returned 0.
  unfoldable pub stream_sync : L.State → (synced : Bool) → Option L.State
  stream_sync s synced = if synced then some (L.flush s) else none

  -- `none` is a wait that never ends, where no other thread comes between.
  unfoldable pub stream_open : StreamFile → (fd : Option ℕ) → Option StreamFile
  stream_open s fd =
      let (h, first) = enter s.handle in
      let closed = if L.is_open s.stream then L.close s.stream else s.stream in
      if first
      then some (record { handle = finish_open h fd; stream = L.open_file closed both })
      else if h.opened
      then some (record s { handle = h })
      else none

  unfoldable pub stream_close : StreamFile → (synced : Bool) → Option StreamFile
  stream_close s synced =
      let h : Handle = record (s.handle) { opencnt = decrement s.handle.opencnt } in
      if h.opencnt == 0
      then elim (stream_sync s.stream synced) [
        | none ↦ none
        | some t ↦ some (record { handle = h; stream = L.close t })
      ]
      else some (record s { handle = h })

  module _ (st : Settings) (s : L.State) (offset : ℕ) (dat : Bytes) where
    stream_write-bad : L.bad (stream_write st s offset dat) ≡ false → L.bad s ≡ false
    unfolding stream_write
    stream_write-bad good =
        L.seek_bad s offset (L.write_bad (L.seek s offset) dat 0 st.write_size good)
