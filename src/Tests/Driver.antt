-- ===== src/Tests/Driver.antt =====
-- Tests of the thread of the benchmark.
use aiotest.Prelude.{ℕ, ◌*◌, ◌+◌, ◌≤◌, ◌≡◌, refl, true, false, [], ◌∷◌, arith}
use aiotest.Benchmark.{Settings, defaults}
use aiotest.Benchmark.Driver.{
  to_write, to_read, to_sync, to_wait, run_common, first_rounds, one_round, before, read_back,
  on_rate,
}
use aiotest.Benchmark.Driver.Reads.{written, read_from}
use aiotest.Benchmark.Driver.ReadBack.{run_reads_back}
use aiotest.Benchmark.Driver.Capacity.{taken}
use aiotest.Benchmark.Driver.Buffer.{fits, run-fits}

-- 4 rounds, a sync in each of them and a wait in every second.
abbrev short : Settings
short = record defaults { io_round = 4; sync_rate = 1; wait_rate = 2 }

abbrev tens : ℕ → ℕ
tens j = j * 10

short_run :
    run_common short tens true true
    ≡ to_write 0
      ∷ to_sync
      ∷ to_write 10
      ∷ to_sync
      ∷ to_read 0 0
      ∷ to_read 10 4096
      ∷ to_wait
      ∷ to_write 20
      ∷ to_sync
      ∷ to_write 30
      ∷ to_read 20 0
      ∷ to_read 30 4096
      ∷ []
unfolding run_common first_rounds one_round before read_back on_rate
short_run = refl

run_reads_back_example :
    (written (run_common short tens true true) ≡ 0 ∷ 10 ∷ 20 ∷ 30 ∷ [])
    × (read_from (run_common short tens true true) ≡ 0 ∷ 10 ∷ 20 ∷ 30 ∷ [])
    × (taken (run_common short tens true true) + 1 ≤ 32)
run_reads_back_example =
    run_reads_back short tens 0 1 2 (omega arith) (omega arith) (omega arith) refl refl refl

run-fits_example : fits short (run_common short tens true false) ≡ true
run-fits_example = run-fits short tens 1 (omega arith) refl (omega arith) true false
