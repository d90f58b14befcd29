-- ===== src/Benchmark/Driver/Buffer.antt =====
-- Where the reads of run_common in test/multi_thread_comp.cpp go: a buffer of READ_SIZE * WAIT_RATE bytes.
use native.Mathlib.Nat.{mod-lt, mod-eq_of_lt, one-le-pow, mul-le-mul_right}
use aiotest.Prelude.{
  ℕ, zero, suc, ◌+◌, ◌*◌, ◌-◌, ◌%◌, ◌^◌, ◌≤◌, ◌<◌, ◌≡◌, refl, ap, ◌∙◌, Bool, true, false, ◌&&◌,
  List, [], ◌∷◌, ◌++◌, leb, ltb, inl, inr, Bool-cases, arith,
}
use Prim.Native.Nat.{bit_and}
use aiotest.Prelude.Word.{sub64}
use aiotest.Benchmark.{Settings}
use aiotest.Benchmark.Driver.{
  Act, to_write, to_read, to_sync, to_wait, on_rate, place_of, read_back, read_window, before,
  one_round, first_rounds, run_common,
}
use aiotest.Benchmark.Driver.Rates.{mask_lem}

-- `new char[READ_SIZE * WAIT_RATE]`
unfoldable pub buffer_size : Settings → ℕ
buffer_size st = st.read_size * st.wait_rate % 2 ^ 64

-- Each read ends within the buffer.
abbrev pub fits : Settings → List Act → Bool
fits st [] = true
fits st (to_write offset ∷ acts) = fits st acts
fits st (to_read offset place ∷ acts) = leb (place + st.read_size) (buffer_size st) && fits st acts
fits st (to_sync ∷ acts) = fits st acts
fits st (to_wait ∷ acts) = fits st acts

module _ (st : Settings) (offs : ℕ → ℕ) (b : ℕ) (word : b < 64) (wait : st.wait_rate ≡ 2 ^ b)
    (room : st.read_size * 2 ^ b < 2 ^ 64) where
  fits-append :
      (xs ys : List Act) → fits st xs ≡ true → fits st ys ≡ true → fits st (xs ++ ys) ≡ true
  fits-append [] ys p q = q
  fits-append (to_write o ∷ xs) ys p q = fits-append xs ys p q
  fits-append (to_read o at ∷ xs) ys p q =
      elim (Bool-cases (leb (at + st.read_size) (buffer_size st))) [
        | inl e ↦ rw e (fits-append xs ys (ground (arith, p, e)) q)
        | inr e ↦ ground (arith, p, e)
      ]
  fits-append (to_sync ∷ xs) ys p q = fits-append xs ys p q
  fits-append (to_wait ∷ xs) ys p q = fits-append xs ys p q

  place_lem : (j : ℕ) → leb (place_of st j + st.read_size) (buffer_size st) ≡ true
  unfolding buffer_size
  place_lem j =
      let low : place_of st j ≡ j % 2 ^ b * st.read_size =
        ap (λ w. bit_and j (sub64 w 1) * st.read_size) wait
        ∙ ap (λ x. x * st.read_size) (mask_lem j b word) in
      let next : (j % 2 ^ b + 1) * st.read_size ≡ j % 2 ^ b * st.read_size + st.read_size =
        grind arith in
      let turn : 2 ^ b * st.read_size ≡ st.read_size * 2 ^ b = grind arith in
      let below : (j % 2 ^ b + 1) * st.read_size ≤ 2 ^ b * st.read_size =
        mul-le-mul_right st.read_size (ground (arith, mod-lt j (one-le-pow b 2 (omega arith)))) in
      let size : st.read_size * st.wait_rate % 2 ^ 64 ≡ st.read_size * 2 ^ b =
        ap (λ w. st.read_size * w % 2 ^ 64) wait ∙ mod-eq_of_lt room in
      ap (λ p. leb (p + st.read_size) (buffer_size st)) low
      ∙ ap (λ s. leb (j % 2 ^ b * st.read_size + st.read_size) s) size
      ∙ ground (arith, below, next, turn)

  read_back-fits : (j n : ℕ) → fits st (read_back st offs j n) ≡ true
  unfolding read_back
  read_back-fits j zero = refl
  read_back-fits j (suc n) = rw (place_lem j) (read_back-fits (suc j) n)

  window-fits : (end_ : ℕ) → fits st (read_window st offs end_) ≡ true
  window-fits end_ = let start = sub64 end_ st.wait_rate in read_back-fits start (end_ - start)

  before-fits : (reads writes : Bool) (i : ℕ) → fits st (before st offs reads writes i) ≡ true
  unfolding before
  before-fits true true i = elim (Bool-cases (ltb 0 i && on_rate i st.sync_rate)) [
    | inl e ↦ rw e elim (Bool-cases (on_rate i st.wait_rate)) [
      | inl f ↦ rw f (fits-append (read_window st offs i) (to_wait ∷ []) (window-fits i) refl)
      | inr f ↦ rw f refl
    ]
    | inr e ↦ rw e refl
  ]
  before-fits false true i = elim (Bool-cases (ltb 0 i && on_rate i st.sync_rate)) [
    | inl e ↦
        rw e elim (Bool-cases (on_rate i st.wait_rate)) [ inl f ↦ rw f refl | inr f ↦ rw f refl ]
    | inr e ↦ rw e refl
  ]
  before-fits true false i = elim (Bool-cases (ltb 0 i && on_rate i st.wait_rate)) [
    | inl e ↦ rw e refl
    | inr e ↦ rw e refl
  ]
  before-fits false false i = refl

  round-fits : (reads writes : Bool) (i : ℕ) → fits st (one_round st offs reads writes i) ≡ true
  unfolding one_round
  round-fits reads true i =
      fits-append (before st offs reads true i) (to_write (offs i) ∷ []) (before-fits reads true i)
        refl
  round-fits true false i =
      fits-append (before st offs true false i) (to_read (offs i) (place_of st i) ∷ [])
        (before-fits true false i) (rw (place_lem i) refl)
  round-fits false false i =
      fits-append (before st offs false false i) [] (before-fits false false i) refl

  rounds-fits : (reads writes : Bool) (n : ℕ) → fits st (first_rounds st offs reads writes n) ≡ true
  unfolding first_rounds
  rounds-fits reads writes zero = refl
  rounds-fits reads writes (suc n) =
      fits-append (first_rounds st offs reads writes n) (one_round st offs reads writes n)
        (rounds-fits reads writes n) (round-fits reads writes n)

  -- A thread that reads, writes or does both, with a rate of waits that is a power of two below 2^64, and a
  -- buffer whose size fits a word: every read of the whole run ends within the buffer.
  pub run-fits : (reads writes : Bool) → fits st (run_common st offs reads writes) ≡ true
  unfolding run_common
  run-fits true true =
      fits-append (first_rounds st offs true true st.io_round) (read_window st offs st.io_round)
        (rounds-fits true true st.io_round) (window-fits st.io_round)
  run-fits true false =
      fits-append (first_rounds st offs true false st.io_round) []
        (rounds-fits true false st.io_round) refl
  run-fits false writes =
      fits-append (first_rounds st offs false writes st.io_round) []
        (rounds-fits false writes st.io_round) refl
