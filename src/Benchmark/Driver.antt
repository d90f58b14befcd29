-- ===== src/Benchmark/Driver.antt =====
-- run_common of test/multi_thread_comp.cpp: the calls that one thread makes on its backend between openfile
-- and closefile. `offs j` is the offset that the thread draws in its j-th round.
pub mod Rates
pub mod Reads
pub mod Buffer
pub mod Capacity
pub mod ReadBack
use Prim.Native.Nat.{bit_and}
use aiotest.Prelude.{
  ℕ, zero, suc, ◌+◌, ◌-◌, ◌*◌, Bool, true, false, ◌&&◌, List, [], ◌∷◌, ◌++◌, ◌==◌, ltb,
  if◌then◌else◌,
}
use aiotest.Prelude.Word.{sub64}
use aiotest.Benchmark.{Settings}

-- A call of writeop, readop, syncop or wait_cb; `place` is where in `buf` a read goes.
pub data Act : Type 0 where
  to_write : (offset : ℕ) → Act
  to_read : (offset place : ℕ) → Act
  to_sync to_wait : Act

-- `!(i & ~-rate)`, where `~-rate` is `rate - 1`
unfoldable pub on_rate : (i rate : ℕ) → Bool
on_rate i rate = bit_and i (sub64 rate 1) == 0

-- `buf + (j & ~-WAIT_RATE) * READ_SIZE`
abbrev pub place_of : Settings → (j : ℕ) → ℕ
place_of st j = bit_and j (sub64 st.wait_rate 1) * st.read_size

module _ (st : Settings) (offs : ℕ → ℕ) where
  unfoldable pub read_back : (j count : ℕ) → List Act
  read_back j zero = []
  read_back j (suc count) = to_read (offs j) (place_of st j) ∷ read_back (suc j) count

  -- `for (auto j = end_ - WAIT_RATE; j < end_; ++j)`
  abbrev pub read_window : (end_ : ℕ) → List Act
  read_window end_ = read_back (sub64 end_ st.wait_rate) (end_ - sub64 end_ st.wait_rate)

  module _ (reads writes : Bool) where
    -- What comes before the write or the read of a round.
    unfoldable pub before : (i : ℕ) → List Act
    before i =
        if writes
        then (if ltb 0 i && on_rate i st.sync_rate
            then to_sync
              ∷ (if on_rate i st.wait_rate
                  then (if reads then read_window i else []) ++ to_wait ∷ []
                  else [])
            else [])
        else if reads && ltb 0 i && on_rate i st.wait_rate
        then to_wait ∷ []
        else []

    unfoldable pub one_round : (i : ℕ) → List Act
    one_round i =
        before i
        ++ (if writes
            then to_write (offs i) ∷ []
            else if reads
            then to_read (offs i) (place_of st i) ∷ []
            else [])

    -- The first `n` rounds
    unfoldable pub first_rounds : (n : ℕ) → List Act
    first_rounds zero = []
    first_rounds (suc n) = first_rounds n ++ one_round n

    unfoldable pub run_common : List Act
    run_common =
        first_rounds st.io_round ++ (if reads && writes then read_window st.io_round else [])
