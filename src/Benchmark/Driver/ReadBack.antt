-- ===== src/Benchmark/Driver/ReadBack.antt =====
-- run_common of test/multi_thread_comp.cpp, where it writes and reads: the offsets of its writes and of its reads.
use Prim.{absurd}
use mathlib.Core.List.{append-nil}
use native.Mathlib.Nat.{mod-eq_of_lt, mod_self, one-le-pow, zero-mod}
use aiotest.Prelude.{
  ℕ, zero, suc, ◌+◌, ◌-◌, ◌%◌, ◌^◌, ◌≤◌, ◌<◌, ◌≡◌, refl, sym, ap, ◌∙◌, true, false, ◌++◌, ◌==◌, ltb,
  inl, inr, Bool-cases, ==_iff, subst, arith, List, length, ◌*◌,
}
use aiotest.Prelude.Word.{sub64}
use aiotest.Benchmark.{Settings}
use aiotest.Benchmark.Driver.{first_rounds, on_rate, read_window, before, run_common}
use aiotest.Benchmark.Driver.Rates.{on_rate_lem, pow-le, pow-mod, mod_mod_pow, mod_shift}
use aiotest.Benchmark.Driver.Capacity.{taken, length-drawn, run-syncs}
use aiotest.Benchmark.Driver.Reads.{
  written, read_from, drawn, drawn_split, written-append, read_from-append, read_back-written,
  read_back-drawn, both_rounds, rounds-written, before-due, before-idle, round-reads,
}

module _ (st : Settings) (offs : ℕ → ℕ) (a b c : ℕ) (sync_le : a ≤ b) (wait_le : b ≤ c)
    (word : c < 64) (sync : st.sync_rate ≡ 2 ^ a) (wait : st.wait_rate ≡ 2 ^ b)
    (total : st.io_round ≡ 2 ^ c) where
  -- After `n` rounds the reads have come to a multiple of the rate, at most one rate behind.
  record Behind (n : ℕ) : Type 0 where
    reached : ℕ
    rest : ℕ
    split : n ≡ reached + rest
    some_rest : 0 < rest
    within : rest ≤ 2 ^ b
    multiple : reached % 2 ^ b ≡ 0
    reads : read_from (both_rounds st offs n) ≡ drawn offs 0 reached

  small : 2 ^ b ≤ 2 ^ 63
  small = pow-le b 63 (omega (arith, wait_le, word))

  due : (n : ℕ) → n % 2 ^ b ≡ 0 → on_rate n st.wait_rate ≡ true
  due n e = ap (on_rate n) wait ∙ on_rate_lem n b (omega (arith, wait_le, word)) ∙ ground (arith, e)

  due_sync : (n : ℕ) → n % 2 ^ b ≡ 0 → on_rate n st.sync_rate ≡ true
  due_sync n e =
      ap (on_rate n) sync
      ∙ on_rate_lem n a (omega (arith, sync_le, wait_le, word))
      ∙ ground (arith, mod_mod_pow a b n sync_le e)

  not_due : (n : ℕ) → 0 < n % 2 ^ b → on_rate n st.wait_rate ≡ false
  not_due n e =
      ap (on_rate n) wait ∙ on_rate_lem n b (omega (arith, wait_le, word)) ∙ ground (arith, e)

  -- The window before round `m + 2 ^ b` is the rounds from `m` on.
  window_lem :
      (m : ℕ)
      → m + 2 ^ b < 2 ^ 64
      → read_from (read_window st offs (m + 2 ^ b)) ≡ drawn offs m (2 ^ b)
  window_lem m lt =
      let n = m + 2 ^ b in
      let from : sub64 n st.wait_rate ≡ m = ap (sub64 n) wait ∙ omega (arith, lt) in
      let count : n - sub64 n st.wait_rate ≡ 2 ^ b = omega (arith, from) in
      read_back-drawn st offs (sub64 n st.wait_rate) (n - sub64 n st.wait_rate)
      ∙ ap (λ i. drawn offs i (n - sub64 n st.wait_rate)) from
      ∙ ap (drawn offs m) count

  mod_full : (m : ℕ) → m % 2 ^ b ≡ 0 → (m + 2 ^ b) % 2 ^ b ≡ 0
  mod_full m e = mod_shift (2 ^ b) m (2 ^ b) e ∙ mod_self (2 ^ b)

  window_step :
      (m : ℕ)
      → m % 2 ^ b ≡ 0
      → m + 2 ^ b < 2 ^ 64
      → read_from (both_rounds st offs (m + 2 ^ b)) ≡ drawn offs 0 m
      → read_from (both_rounds st offs (suc (m + 2 ^ b))) ≡ drawn offs 0 (m + 2 ^ b)
  window_step m e lt reads =
      let n = m + 2 ^ b in
      let later : ltb 0 n ≡ true = ground (arith, one-le-pow b 2) in
      let from : 0 + m ≡ m = omega arith in
      round-reads st offs n
      ∙ ap (λ l. l ++ read_from (before st offs true true n)) reads
      ∙ ap (λ l. drawn offs 0 m ++ l)
          (before-due st offs n later (due_sync n (mod_full m e)) (due n (mod_full m e))
            ∙ window_lem m lt)
      ∙ ap (λ i. drawn offs 0 m ++ drawn offs i (2 ^ b)) (sym from)
      ∙ drawn_split offs 0 m (2 ^ b)

  first-Behind : Behind 1
  first-Behind = record {
    reached = 0;
    rest = 1;
    split = omega arith;
    some_rest = omega arith;
    within = one-le-pow b 2 (omega arith);
    multiple = zero-mod (2 ^ b);
    reads = round-reads st offs 0 ∙ unfold first_rounds before in refl;
  }

  next-Behind : (n : ℕ) → n < 2 ^ c → Behind n → Behind (suc n)
  next-Behind n lt h = elim (Bool-cases (h.rest == 2 ^ b)) [
    | inl q ↦
        let full : h.rest ≡ 2 ^ b = (==_iff h.rest (2 ^ b)).0 q in
        let at : n ≡ h.reached + 2 ^ b = omega (arith, h.split, full) in
        let below : h.reached + 2 ^ b < 2 ^ 64 =
          omega (arith, at, lt, pow-le c 63 (omega (arith, word))) in
        record {
          reached = h.reached + 2 ^ b;
          rest = 1;
          split = omega (arith, at);
          some_rest = omega arith;
          within = one-le-pow b 2 (omega arith);
          multiple = mod_full h.reached h.multiple;
          reads =
              ap (λ k. read_from (both_rounds st offs (suc k))) at
              ∙ window_step h.reached h.multiple below
                  (ap (λ k. read_from (both_rounds st offs k)) (sym at) ∙ h.reads);
        }
    | inr q ↦
        let less : h.rest < 2 ^ b = ground (arith, q, h.within) in
        let rem : n % 2 ^ b ≡ h.rest =
          ap (λ k. k % 2 ^ b) h.split
          ∙ mod_shift (2 ^ b) h.reached h.rest h.multiple
          ∙ mod-eq_of_lt less in
        record {
          reached = h.reached;
          rest = h.rest + 1;
          split = omega (arith, h.split);
          some_rest = omega arith;
          within = omega (arith, less);
          multiple = h.multiple;
          reads =
              round-reads st offs n
              ∙ ap (λ l. read_from (both_rounds st offs n) ++ l)
                  (before-idle st offs n (not_due n (omega (arith, rem, h.some_rest))))
              ∙ append-nil (read_from (both_rounds st offs n))
              ∙ h.reads;
        }
  ]

  rounds-Behind : (n : ℕ) → n < 2 ^ c → Behind (suc n)
  rounds-Behind zero lt = first-Behind
  rounds-Behind (suc n) lt = next-Behind (suc n) lt (rounds-Behind n (omega (arith, lt)))

  last-Behind : Behind (2 ^ c)
  last-Behind =
      let e : suc (2 ^ c - 1) ≡ 2 ^ c = omega (arith, one-le-pow c 2) in
      subst Behind e (rounds-Behind (2 ^ c - 1) (omega (arith, one-le-pow c 2)))

  -- What is left after the last round is one whole window.
  last_rest : last-Behind.rest ≡ 2 ^ b
  last_rest =
      let h = last-Behind in
      let rem : h.rest % 2 ^ b ≡ 0 =
        sym (mod_shift (2 ^ b) h.reached h.rest h.multiple)
        ∙ ap (λ k. k % 2 ^ b) (sym h.split)
        ∙ pow-mod b c wait_le in
      elim (Bool-cases (h.rest == 2 ^ b)) [
        | inl q ↦ (==_iff h.rest (2 ^ b)).0 q
        | inr q ↦
            let less : h.rest < 2 ^ b = ground (arith, q, h.within) in
            absurd (omega (arith, rem, mod-eq_of_lt less, h.some_rest))
      ]

  run_offsets :
      (written (run_common st offs true true) ≡ drawn offs 0 st.io_round)
      × (read_from (run_common st offs true true) ≡ drawn offs 0 st.io_round)
  unfolding run_common
  run_offsets =
      let h = last-Behind in
      let io = st.io_round in
      let window = read_window st offs io in
      let start = sub64 io st.wait_rate in
      let at : h.reached + 2 ^ b ≡ io = omega (arith, total, h.split, last_rest) in
      let below : h.reached + 2 ^ b < 2 ^ 64 =
        omega (arith, at, total, pow-le c 63 (omega (arith, word))) in
      let from : 0 + h.reached ≡ h.reached = omega arith in
      (
        written-append (both_rounds st offs io) window
            ∙ ap (λ l. written (both_rounds st offs io) ++ l)
                (read_back-written st offs start (io - start))
            ∙ append-nil (written (both_rounds st offs io))
            ∙ rounds-written st offs io,
        read_from-append (both_rounds st offs io) window
            ∙ ap (λ k. read_from (both_rounds st offs k) ++ read_from window) total
            ∙ ap (λ l. l ++ read_from window) h.reads
            ∙ ap (λ k. drawn offs 0 h.reached ++ read_from (read_window st offs k)) (sym at)
            ∙ ap (λ l. drawn offs 0 h.reached ++ l) (window_lem h.reached below)
            ∙ ap (λ i. drawn offs 0 h.reached ++ drawn offs i (2 ^ b)) (sym from)
            ∙ drawn_split offs 0 h.reached (2 ^ b)
            ∙ ap (drawn offs 0) at,
      )

  -- A thread that writes and reads, with rates and a number of rounds that are powers of two below 2^64,
  -- where the rate of syncs is at most that of waits, and this at most the number of rounds. Its writes
  -- are one to each of the offsets that its rounds draw, in their order; its reads are one from each
  -- of them, in the same order. With the sync of closefile, its calls take at most as many control
  -- blocks as an AIOWrite reserves, which is 8 for each round.
  pub run_reads_back :
      (written (run_common st offs true true) ≡ drawn offs 0 st.io_round)
      × (read_from (run_common st offs true true) ≡ drawn offs 0 st.io_round)
      × (taken (run_common st offs true true) + 1 ≤ 8 * st.io_round)
  run_reads_back =
      let (writes_eq, reads_eq) = run_offsets in
      let len = λ (l : List ℕ) (e : l ≡ drawn offs 0 st.io_round).
        ap length e ∙ length-drawn offs 0 st.io_round in
      (
        writes_eq,
        reads_eq,
        omega (
          arith,
          len (written (run_common st offs true true)) writes_eq,
          len (read_from (run_common st offs true true)) reads_eq,
          run-syncs st offs,
          total,
          one-le-pow c 2,
        ),
      )
