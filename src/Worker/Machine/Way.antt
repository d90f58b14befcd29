-- ===== src/Worker/Machine/Way.antt =====
-- Whose move brings the first worker's next decision nearer, and how far that is at most.
use Prim.{absurd}
use mathlib.Core.Bool.{false≢true}
use aiotest.Prelude.{
  ℕ, ◌+◌, ◌-◌, ◌*◌, ◌≤◌, ◌<◌, ◌≡◌, refl, ap, inl, inr, Bool, true, false, ◌==◌, ==_iff, Bool-cases,
  arith,
}
use aiotest.Worker.{WorkerState}
use aiotest.Worker.Barrier.{Local, MasterPc, in_body, scanning, deciding, update}
use aiotest.Worker.Machine.{Move, first, other, closes}
use aiotest.Worker.Machine.Turns.{rank, ranks}

-- Whose move it is; the last is that of the destructor.
pub data Who : Type 0 where
  the_first the_closer : Who
  the_other : (i : ℕ) → Who

abbrev pub serves : Who → Move → Bool
serves the_first (first any_todo flush) = true
serves (the_other j) (other i) = i == j
serves the_closer closes = true
serves the_first _ = false
serves the_closer _ = false
serves (the_other j) _ = false

-- A move that brings the next decision nearer.
abbrev pub Pend : (n : ℕ) → Who → MasterPc → (ℕ → Local) → Type 0
Pend n the_first (scanning entry next) w = next < n → rank (w next).pc ≡ 0
Pend n the_first (in_body entry) w = Unit {0}
Pend n the_first (deciding entry) w = Unit {0}
Pend n the_closer _ w = false ≡ true
Pend n (the_other j) (scanning entry next) w = (j ≡ next) × (j < n) × (0 < rank (w j).pc)
Pend n (the_other j) (in_body entry) w = false ≡ true
Pend n (the_other j) (deciding entry) w = false ≡ true

-- A bound of the moves to the next decision.
abbrev pub way : (n : ℕ) → MasterPc → (ℕ → Local) → ℕ
way n (in_body entry) w = 4 * n + 2
way n (scanning entry next) w = ranks n w + (n - next) + 1
way n (deciding entry) w = ranks n w

module _ (n : ℕ) where
  pub not_first :
      (who : Who) (entry : WorkerState) (next : ℕ) (w : ℕ → Local) (any_todo flush : Bool)
      → Pend n who (scanning entry next) w
      → next < n
      → 0 < rank (w next).pc
      → serves who (first any_todo flush) ≡ false
  not_first the_first entry next w any_todo flush pend lt far = absurd (omega (arith, pend lt, far))
  not_first the_closer entry next w any_todo flush pend lt far = refl
  not_first (the_other j) entry next w any_todo flush pend lt far = refl

  -- Where the first worker does not scan, its own move is what is waited for.
  pub body-Pend :
      (who : Who) (entry : WorkerState) (i : ℕ) (w w' : ℕ → Local)
      → Pend n who (in_body entry) w
      → (serves who (other i) ≡ false) × Pend n who (in_body entry) w'
  body-Pend the_first entry i w w' pend = (refl, tt)
  body-Pend the_closer entry i w w' pend = absurd (false≢true pend)
  body-Pend (the_other j) entry i w w' pend = absurd (false≢true pend)

  pub deciding-Pend :
      (who : Who) (entry : WorkerState) (i : ℕ) (w w' : ℕ → Local)
      → Pend n who (deciding entry) w
      → (serves who (other i) ≡ false) × Pend n who (deciding entry) w'
  deciding-Pend the_first entry i w w' pend = (refl, tt)
  deciding-Pend the_closer entry i w w' pend = absurd (false≢true pend)
  deciding-Pend (the_other j) entry i w w' pend = absurd (false≢true pend)

  -- A worker that waits goes on waiting.
  pub scanning-Pend :
      (who : Who) (entry : WorkerState) (next i : ℕ) (w : ℕ → Local) (l : Local)
      → rank (w i).pc ≡ 0
      → rank l.pc ≤ 0
      → Pend n who (scanning entry next) w
      → (serves who (other i) ≡ false) × Pend n who (scanning entry next) (update w i l)
  scanning-Pend the_first entry next i w l none_left still pend = (
    refl,
    λ lt. elim (Bool-cases (next == i)) [
      | inl e ↦ rw e (omega (arith, still))
      | inr e ↦ rw e (pend lt)
    ],
  )
  scanning-Pend the_closer entry next i w l none_left still pend = absurd (false≢true pend)
  scanning-Pend (the_other j) entry next i w l none_left still (at_next, lt, far) =
      elim (Bool-cases (j == i)) [
        | inl e ↦
            let here : rank (w j).pc ≡ rank (w i).pc = ap (λ x. rank (w x).pc) ((==_iff j i).0 e) in
            absurd (omega (arith, here, none_left, far))
        | inr e ↦ (ground (arith, e), (at_next, lt, rw e far))
      ]

  pub not_closer :
      (who : Who) (pc : MasterPc) (w : ℕ → Local) → Pend n who pc w → serves who closes ≡ false
  not_closer the_first pc w pend = refl
  not_closer the_closer pc w pend = absurd (false≢true pend)
  not_closer (the_other j) pc w pend = refl
