-- ===== src/Tests/Files.antt =====
-- Tests of the wrapper and of the benchmark.
use aiotest.Engine.Posix.{
  Kernel, PosixEngine, Returned, failed, moved, open_path, posix_read, posix_write, posix_read_done,
  posix_write_done,
}
use aiotest.Benchmark.Callbacks.{Blocks, Call, call, writes, reads, syncs}
use aiotest.Prelude.{
  ℕ, zero, suc, ◌+◌, ◌-◌, ◌%◌, ◌^◌, ◌≤◌, ◌<◌, ◌≡◌, refl, ap, true, none, some, List, ◌==◌, ltb,
  if◌then◌else◌, arith, [], ◌∷◌,
}
use aiotest.Prelude.Bytes.{Bytes, copy}
use aiotest.Tests.{copy_out, text}
use aiotest.Aio.{Registry}
use aiotest.Aio.Calls.{Aiocb}
use aiotest.Aio.Calls.Answers.{Answers}
use aiotest.Tree.{Task}
use aiotest.Benchmark.{Settings, defaults}

-- One tree, named 70, at descriptor 3.
abbrev one_file : Registry ℕ
one_file = record { initialised = true; bts = λ i. if i == 3 then some 70 else none }

-- 8 workers; four bytes at 8 are asked for through descriptor 3, and one interval has a failed task.
abbrev of_eight : ℕ → ℕ
of_eight tree = tree % 8

abbrev block : Aiocb ℕ
block = record { fildes = 3; offset = 8; buf = 0; nbytes = 4; io = none }

abbrev no_tasks : ℕ → List (Task ℕ)
no_tasks worker = []

-- As set by the arguments, with a file of 2^31 bytes.
abbrev pub settings : Settings
settings = record defaults { file_size = 2 ^ 31 }

abbrev count_of : Returned → ℕ
count_of failed = 0
count_of (moved k) = k

pub copy_in :
    (dst : Bytes) (to : ℕ) (src : Bytes) (from count k i : ℕ)
    → moved count ≡ moved k
    → to ≤ i
    → i < to + k
    → copy dst to src from count i ≡ src (from + (i - to))
copy_in dst to src from count k i e lo hi =
    let same : count ≡ k = ap count_of e in ground (arith, same)

-- A system whose calls move all the bytes there are asked for.
abbrev pub working : Kernel
working = record {
  File = Bytes;
  bytes = λ f. f;
  o_creat = 64;
  o_rdwr = 2;
  o_rdonly = 0;
  o_sync = 1052672;
  open_file = λ f flags. (f, some 3);
  seek_end = λ f fd. 100;
  pread = λ f fd dat to count pos. (copy dat to f pos count, moved count);
  pwrite = λ f fd dat from count pos. (copy f pos dat from count, moved count);
  fsync = λ f fd. true;
  pread_moved = λ f fd dat to count pos k i e lo hi. copy_in dat to f pos count k i e lo hi;
  pread_out = λ f fd dat to count pos i out. copy_out dat to f pos count i out;
  pwrite_moved = λ f fd dat from count pos k i e lo hi. copy_in f pos dat from count k i e lo hi;
  pwrite_out = λ f fd dat from count pos i out. copy_out f pos dat from count i out;
}

abbrev pub positions : Bytes
positions i = i

abbrev pub opened_engine : PosixEngine
opened_engine = (open_path working positions).1

-- Of the five bytes from 40 on, the one at 42 comes to 4 in the buffer, and the other way round.
posix_read_done_example : (posix_read working opened_engine positions text 2 40 5).0 4 ≡ 42
unfolding posix_read
posix_read_done_example =
    posix_read_done working opened_engine positions text 2 40 5 (omega arith) refl 4

posix_write_done_example : (posix_write working opened_engine positions text 2 40 5).0 42 ≡ text 4
unfolding posix_write
posix_write_done_example =
    posix_write_done working opened_engine positions text 2 40 5 (omega arith) refl 42

-- Thread 1 writes and syncs, thread 0 reads; the write is polled twice before it has ended.
abbrev two_threads : List Call
two_threads = call 1 (writes 0 500) 0 ∷ call 0 (reads 64 600) 0 ∷ call 1 syncs 0 ∷ []

abbrev no_blocks : Blocks
no_blocks = record { cbs = λ i. [] }

abbrev two_polls : ℕ → ℕ
two_polls zero = 2
two_polls (suc i) = 0

abbrev answers : ℕ → ℕ → ℕ
answers i k = if ltb k (two_polls i) then 115 else 0
