-- ===== src/Benchmark/Callbacks/Waits.antt =====
-- What a wait of AIOWrite of include/iotest.hpp gives back of what its thread has submitted.
use aiotest.Prelude.{
  ℕ, zero, suc, ◌+◌, ◌<◌, ◌≡◌, Bool, false, ◌==◌, List, length, take, if◌then◌else◌,
}
use aiotest.Benchmark.Callbacks.{Block, Waited, naps}

-- How many of the first errors are 0, and how often the blocks up to the first other one are polled in
-- vain.
abbrev pub fine : (errs : ℕ → ℕ) → ℕ → ℕ
fine errs zero = 0
fine errs (suc n) = let rest = fine (λ i. errs (suc i)) n in if errs 0 == 0 then suc rest else 0

abbrev pub vain : (errs times : ℕ → ℕ) → ℕ → ℕ
vain errs times zero = 0
vain errs times (suc n) =
    let rest = vain (λ i. errs (suc i)) (λ i. times (suc i)) n in
    if errs 0 == 0 then times 0 + rest else times 0

-- A request that ends with `err` when it has been polled `times` times, within the fuel.
pub record Settles (in_progress : ℕ) (answer : ℕ → ℕ) (fuel err times : ℕ) : Type 0 where
  pub soon : times < fuel
  pub before : (k : ℕ) → k < times → answer k ≡ in_progress
  pub last : answer times ≡ err
  pub settled : (err == in_progress) ≡ false

module _ (busy : Bool) (p : ℕ) (fuel : ℕ) where
  -- What a wait does to the blocks, by their errors.
  abbrev waited : (errs times : ℕ → ℕ) → List Block → Waited
  waited errs times bs = record {
    returned = take (fine errs (length bs)) bs;
    sleeps = naps busy (vain errs times (length bs));
    survived = fine errs (length bs) == length bs;
  }
