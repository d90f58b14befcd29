-- ===== src/Benchmark/Driver/Capacity.antt =====
-- The control blocks that run_common of test/multi_thread_comp.cpp makes an AIOWrite of include/iotest.hpp
-- fill: one for each write, read and sync. The constructor reserves 8 * IO_ROUND of them.
use aiotest.Prelude.{
  ℕ, zero, suc, ◌+◌, ◌-◌, ◌≤◌, ◌≡◌, refl, true, ◌&&◌, List, [], ◌∷◌, ◌++◌, length, ltb, inl, inr,
  Bool-cases, arith,
}
use aiotest.Prelude.Word.{sub64}
use aiotest.Benchmark.{Settings}
use aiotest.Benchmark.Driver.{
  Act, to_write, to_read, to_sync, to_wait, on_rate, read_back, read_window, before, one_round,
  first_rounds, run_common,
}
use aiotest.Benchmark.Driver.Reads.{written, read_from, drawn}

-- The calls that sync
abbrev pub syncs : List Act → ℕ
syncs [] = 0
syncs (to_write offset ∷ acts) = syncs acts
syncs (to_read offset place ∷ acts) = syncs acts
syncs (to_sync ∷ acts) = suc (syncs acts)
syncs (to_wait ∷ acts) = syncs acts

-- The control blocks that the calls take.
abbrev pub taken : List Act → ℕ
taken acts = length (written acts) + length (read_from acts) + syncs acts

pub length-drawn : (offs : ℕ → ℕ) (j n : ℕ) → length (drawn offs j n) ≡ n
length-drawn offs j zero = refl
length-drawn offs j (suc n) = omega (arith, length-drawn offs (suc j) n)

syncs-append : (xs ys : List Act) → syncs (xs ++ ys) ≡ syncs xs + syncs ys
syncs-append [] ys = omega arith
syncs-append (to_write o ∷ xs) ys = syncs-append xs ys
syncs-append (to_read o p ∷ xs) ys = syncs-append xs ys
syncs-append (to_sync ∷ xs) ys = omega (arith, syncs-append xs ys)
syncs-append (to_wait ∷ xs) ys = syncs-append xs ys

module _ (st : Settings) (offs : ℕ → ℕ) where
  read_back-syncs : (j n : ℕ) → syncs (read_back st offs j n) ≡ 0
  unfolding read_back
  read_back-syncs j zero = refl
  read_back-syncs j (suc n) = read_back-syncs (suc j) n

  window-syncs : (i : ℕ) → syncs (read_window st offs i) ≡ 0
  window-syncs i = let w = sub64 i st.wait_rate in read_back-syncs w (i - w)

  before-syncs : (i : ℕ) → syncs (before st offs true true i) ≤ 1
  unfolding before
  before-syncs i = elim (Bool-cases (ltb 0 i && on_rate i st.sync_rate)) [
    | inl e ↦ rw e elim (Bool-cases (on_rate i st.wait_rate)) [
      | inl f ↦
          rw f omega (arith, syncs-append (read_window st offs i) (to_wait ∷ []), window-syncs i)
      | inr f ↦ rw f (omega arith)
    ]
    | inr e ↦ rw e (omega arith)
  ]

  rounds-syncs : (n : ℕ) → syncs (first_rounds st offs true true n) ≤ n
  unfolding first_rounds one_round
  rounds-syncs zero = omega arith
  rounds-syncs (suc n) =
      let b = before st offs true true n in
      let last : List Act = to_write (offs n) ∷ [] in
      omega (
        arith,
        syncs-append (first_rounds st offs true true n) (b ++ last),
        syncs-append b last,
        before-syncs n,
        rounds-syncs n,
      )

  pub run-syncs : syncs (run_common st offs true true) ≤ st.io_round
  unfolding run_common
  run-syncs = omega (
    arith,
    syncs-append (first_rounds st offs true true st.io_round) (read_window st offs st.io_round),
    window-syncs st.io_round,
    rounds-syncs st.io_round,
  )
