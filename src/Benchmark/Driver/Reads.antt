-- ===== src/Benchmark/Driver/Reads.antt =====
-- The writes and the reads of run_common in test/multi_thread_comp.cpp.
use mathlib.Core.List.{append-nil}
use aiotest.Prelude.{
  ℕ, zero, suc, ◌+◌, ◌-◌, ◌&&◌, ◌≡◌, refl, sym, ap, ◌∙◌, true, false, List, [], ◌∷◌, ◌++◌, ltb, inl,
  inr, Bool-cases, arith,
}
use aiotest.Prelude.Word.{sub64}
use aiotest.Benchmark.{Settings}
use aiotest.Benchmark.Driver.{
  Act, to_write, to_read, to_sync, to_wait, on_rate, read_back, read_window, before, one_round,
  first_rounds,
}

abbrev pub written : List Act → List ℕ
written [] = []
written (to_write offset ∷ acts) = offset ∷ written acts
written (to_read offset place ∷ acts) = written acts
written (to_sync ∷ acts) = written acts
written (to_wait ∷ acts) = written acts

abbrev pub read_from : List Act → List ℕ
read_from [] = []
read_from (to_write offset ∷ acts) = read_from acts
read_from (to_read offset place ∷ acts) = offset ∷ read_from acts
read_from (to_sync ∷ acts) = read_from acts
read_from (to_wait ∷ acts) = read_from acts

pub written-append : (xs ys : List Act) → written (xs ++ ys) ≡ written xs ++ written ys
written-append [] ys = refl
written-append (to_write o ∷ xs) ys = ap (λ l. o ∷ l) (written-append xs ys)
written-append (to_read o p ∷ xs) ys = written-append xs ys
written-append (to_sync ∷ xs) ys = written-append xs ys
written-append (to_wait ∷ xs) ys = written-append xs ys

pub read_from-append : (xs ys : List Act) → read_from (xs ++ ys) ≡ read_from xs ++ read_from ys
read_from-append [] ys = refl
read_from-append (to_write o ∷ xs) ys = read_from-append xs ys
read_from-append (to_read o p ∷ xs) ys = ap (λ l. o ∷ l) (read_from-append xs ys)
read_from-append (to_sync ∷ xs) ys = read_from-append xs ys
read_from-append (to_wait ∷ xs) ys = read_from-append xs ys

module _ (offs : ℕ → ℕ) where
  -- The offsets of `n` rounds from the j-th on.
  abbrev pub drawn : (j n : ℕ) → List ℕ
  drawn j zero = []
  drawn j (suc n) = offs j ∷ drawn (suc j) n

  pub drawn_split : (j m n : ℕ) → drawn j m ++ drawn (j + m) n ≡ drawn j (m + n)
  drawn_split j zero n =
      let e : j + 0 ≡ j = omega arith in
      let f : 0 + n ≡ n = omega arith in ap (λ i. drawn i n) e ∙ ap (drawn j) (sym f)
  drawn_split j (suc m) n =
      let e : j + suc m ≡ suc j + m = omega arith in
      let f : suc m + n ≡ suc (m + n) = omega arith in
      ap (λ i. offs j ∷ (drawn (suc j) m ++ drawn i n)) e
      ∙ ap (λ l. offs j ∷ l) (drawn_split (suc j) m n)
      ∙ ap (drawn j) (sym f)

module _ (st : Settings) (offs : ℕ → ℕ) where
  pub read_back-drawn : (j n : ℕ) → read_from (read_back st offs j n) ≡ drawn offs j n
  unfolding read_back
  read_back-drawn j zero = refl
  read_back-drawn j (suc n) = ap (λ l. offs j ∷ l) (read_back-drawn (suc j) n)

  pub read_back-written : (j n : ℕ) → written (read_back st offs j n) ≡ []
  unfolding read_back
  read_back-written j zero = refl
  read_back-written j (suc n) = read_back-written (suc j) n

  abbrev pub both_rounds : ℕ → List Act
  both_rounds n = first_rounds st offs true true n

  window-written : (i : ℕ) → written (read_window st offs i ++ to_wait ∷ []) ≡ []
  window-written i =
      let w = sub64 i st.wait_rate in
      written-append (read_window st offs i) (to_wait ∷ [])
      ∙ ap (λ l. l ++ []) (read_back-written w (i - w))

  before-written : (i : ℕ) → written (before st offs true true i) ≡ []
  unfolding before
  before-written i = elim (Bool-cases (ltb 0 i && on_rate i st.sync_rate)) [
    | inl e ↦ rw e elim (Bool-cases (on_rate i st.wait_rate)) [
      | inl f ↦ rw f (window-written i)
      | inr f ↦ rw f refl
    ]
    | inr e ↦ rw e refl
  ]

  drawn_last : (n : ℕ) → drawn offs 0 n ++ offs n ∷ [] ≡ drawn offs 0 (suc n)
  drawn_last n =
      let e : 0 + n ≡ n = omega arith in
      let f : n + 1 ≡ suc n = omega arith in
      ap (λ i. drawn offs 0 n ++ offs i ∷ []) (sym e) ∙ drawn_split offs 0 n 1 ∙ ap (drawn offs 0) f

  -- Each round writes once, to the offset that it draws.
  pub rounds-written : (n : ℕ) → written (both_rounds n) ≡ drawn offs 0 n
  unfolding first_rounds one_round
  rounds-written zero = refl
  rounds-written (suc n) =
      let b = before st offs true true n in
      let last : List Act = to_write (offs n) ∷ [] in
      written-append (both_rounds n) (b ++ last)
      ∙ ap (λ l. l ++ written (b ++ last)) (rounds-written n)
      ∙ ap (λ l. drawn offs 0 n ++ l)
          (written-append b last ∙ ap (λ l. l ++ offs n ∷ []) (before-written n))
      ∙ drawn_last n

  pub before-due :
      (i : ℕ)
      → ltb 0 i ≡ true
      → on_rate i st.sync_rate ≡ true
      → on_rate i st.wait_rate ≡ true
      → read_from (before st offs true true i) ≡ read_from (read_window st offs i)
  unfolding before
  before-due i later sync due = rw later rw sync rw due (
      read_from-append (read_window st offs i) (to_wait ∷ [])
      ∙ append-nil (read_from (read_window st offs i)))

  pub before-idle :
      (i : ℕ) → on_rate i st.wait_rate ≡ false → read_from (before st offs true true i) ≡ []
  unfolding before
  before-idle i idle = elim (Bool-cases (ltb 0 i && on_rate i st.sync_rate)) [
    | inl e ↦ rw e rw idle refl
    | inr e ↦ rw e refl
  ]

  pub round-reads :
      (n : ℕ)
      → read_from (both_rounds (suc n))
        ≡ read_from (both_rounds n) ++ read_from (before st offs true true n)
  unfolding first_rounds one_round
  round-reads n =
      let b = before st offs true true n in
      read_from-append (both_rounds n) (b ++ to_write (offs n) ∷ [])
      ∙ ap (λ l. read_from (both_rounds n) ++ l)
          (read_from-append b (to_write (offs n) ∷ []) ∙ append-nil (read_from b))
