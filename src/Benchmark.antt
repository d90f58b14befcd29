-- ===== src/Benchmark.antt =====
-- include/iotest.hpp and src/iotest.cpp: the live part of the benchmark, which are its settings, the
-- random offsets, and the choice of the backend.
pub mod Offsets
pub mod Handle
pub mod Pending
pub mod Callbacks
pub mod Blocking
pub mod Driver
use Prim.Native.Nat.{bit_and}
use aiotest.Prelude.{
  ℕ, ◌-◌, ◌*◌, ◌%◌, ◌^◌, Bool, true, false, Option, none, some, List, [], ◌∷◌, ◌==◌, ltb,
  if◌then◌else◌,
}
use aiotest.Prelude.Word.{add64, sub64, neg64}

-- The globals that the arguments set.
pub record Settings : Type 0 where
  pub test_type : ℕ
  pub workload : ℕ
  pub thread_num : ℕ
  pub single_file : ℕ
  pub file_size : ℕ
  pub read_size : ℕ
  pub write_size : ℕ
  pub io_round : ℕ
  pub sync_rate : ℕ
  pub wait_rate : ℕ

-- What the globals hold before. `1 << 31` is the smallest int, and made a word with its sign.
abbrev pub defaults : Settings
defaults = record {
  test_type = 0;
  workload = 0;
  thread_num = 1;
  single_file = 0;
  file_size = 2 ^ 64 - 2 ^ 31;
  read_size = 2 ^ 12;
  write_size = 2 ^ 12;
  io_round = 2 ^ 10;
  sync_rate = 1;
  wait_rate = 1;
}

-- `1ll << n` and `n << 10`, kept in 64 bits; the source leaves shifts by 64 and more undefined.
abbrev pub power : ℕ → ℕ
power n = 2 ^ n % 2 ^ 64

abbrev pub kibi : ℕ → ℕ
kibi n = n * 2 ^ 10 % 2 ^ 64

-- The arguments after the program's name, each as `stoll` reads it; fewer than ten end the program.
unfoldable pub process_args : List ℕ → Option Settings
process_args
      (test_type ∷ workload ∷ threads ∷ single ∷ file ∷ read ∷ write ∷ round ∷ sync ∷ wait ∷ _) =
    some (record {
      test_type = test_type;
      workload = workload;
      thread_num = threads;
      single_file = single;
      file_size = power file;
      read_size = kibi read;
      write_size = kibi write;
      io_round = power round;
      sync_rate = power sync;
      wait_rate = power wait;
    })
process_args _ = none

-- What randgen draws from: the offsets at which the larger of the two sizes still fits.
unfoldable pub random_range : Settings → ℕ
random_range s =
    add64 (sub64 s.file_size (if ltb s.write_size s.read_size then s.read_size else s.write_size)) 1

-- `random` is what rand() returned; `random_range` is computed once, from the settings of the first
-- call. A range of 0 divides by zero in the source.
unfoldable pub randgen : (range random align : ℕ) → ℕ
randgen range random align = bit_and (random % range) (neg64 align)

-- The backends, and whether they are the ones with a lock.
pub data Backend : Type 0 where
  blocking : (direct : Bool) → Backend  -- `direct`: opened with O_DIRECT and O_SYNC
  fstream lib_aio : (concurrent : Bool) → Backend
  posix_aio : Backend

-- RandomWrite::getInstance; an illegal type ends the program. `-testType & flags` has the flags at 1,
-- where -1 has all bits set, and none at 0.
unfoldable pub get_instance : (test_type : ℕ) → (concurrent : Bool) → Option Backend
get_instance test_type concurrent =
    if test_type == 0
    then some (blocking false)
    else if test_type == 1
    then some (blocking true)
    else if test_type == 2
    then some (fstream concurrent)
    else if test_type == 3
    then some posix_aio
    else if test_type == 4
    then some (lib_aio concurrent)
    else none
