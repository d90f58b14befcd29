-- ===== src/Worker/Machine/Closing.antt =====
-- ~Controller of src/backup/Controller.cpp: what it has stored at each of its steps.
use aiotest.Prelude.{
  ℕ, ◌+◌, ◌≤◌, ◌≡◌, refl, sym, subst, inl, inr, Bool, false, leb, Bool-cases, arith,
}
use aiotest.Worker.{quit}
use aiotest.Worker.Barrier.{same}
use aiotest.Worker.Machine.{
  Machine, Closer, not_begun, rejecting, stopping, awaiting, ended, close_move, state_of,
}

-- What the destructor has stored.
abbrev pub CloseOk : (n : ℕ) → Closer → (ready : Bool) → (rejects : ℕ) → Type 0
CloseOk n not_begun ready rejects = rejects ≡ 0
CloseOk n (rejecting k) ready rejects = (rejects ≡ k) × (k ≤ n + 1)
CloseOk n stopping ready rejects = rejects ≡ n + 1
CloseOk n (awaiting k) ready rejects = (ready ≡ false) × (rejects ≡ n + 1)
CloseOk n ended ready rejects = (ready ≡ false) × (rejects ≡ n + 1)

-- The moves of the destructor are no step of the workers.
pub close_shape :
    (n : ℕ) (c : Closer) (s : Machine)
    → (r : Bool) × (k : ℕ) × (c' : Closer) × (close_move n c s
        ≡ record s { ready = r; rejects = k; closer = c' })
      × (s.ready ≡ false → r ≡ false)
unfolding close_move
close_shape n not_begun s = (s.ready, s.rejects, rejecting 0, refl, λ h. h)
close_shape n (rejecting k) s = elim (Bool-cases (leb k n)) [
  | inl e ↦ (s.ready, k + 1, rejecting (k + 1), rw e refl, λ h. h)
  | inr e ↦ (s.ready, s.rejects, stopping, rw e refl, λ h. h)
]
close_shape n stopping s = (false, s.rejects, awaiting 0, refl, λ h. refl)
close_shape n (awaiting k) s = elim (Bool-cases (leb k n)) [
  | inl e ↦ elim (Bool-cases (same (state_of s.system k) quit)) [
    | inl g ↦ (s.ready, s.rejects, awaiting (k + 1), rw (e, g) refl, λ h. h)
    | inr g ↦ (s.ready, s.rejects, s.closer, rw (e, g) refl, λ h. h)
  ]
  | inr e ↦ (s.ready, s.rejects, ended, rw e refl, λ h. h)
]
close_shape n ended s = (s.ready, s.rejects, s.closer, refl, λ h. h)

pub close-CloseOk :
    (n : ℕ) (c : Closer) (s : Machine)
    → s.closer ≡ c
    → CloseOk n c s.ready s.rejects
    → let t = close_move n c s in CloseOk n t.closer t.ready t.rejects
unfolding close_move
close-CloseOk n not_begun s e h = (h, omega arith)
close-CloseOk n (rejecting k) s e h = elim (Bool-cases (leb k n)) [
  | inl g ↦ rw g (refl, ground (arith, g))
  | inr g ↦ rw g (ground (arith, h.0, h.1, g))
]
close-CloseOk n stopping s e h = (refl, h)
close-CloseOk n (awaiting k) s e h = elim (Bool-cases (leb k n)) [
  | inl g ↦ elim (Bool-cases (same (state_of s.system k) quit)) [
    | inl q ↦ rw (g, q) h
    | inr q ↦ rw (g, q) (subst (λ x. CloseOk n x s.ready s.rejects) (sym e) h)
  ]
  | inr g ↦ rw g h
]
close-CloseOk n ended s e h = subst (λ x. CloseOk n x s.ready s.rejects) (sym e) h
