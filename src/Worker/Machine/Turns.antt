-- ===== src/Worker/Machine/Turns.antt =====
-- How far the workers are from the first worker's next decision, and from its last one.
use Prim.{absurd}
use mathlib.Core.Bool.{true≢false}
use aiotest.Prelude.{
  ℕ, zero, suc, ◌+◌, ◌-◌, ◌*◌, ◌≤◌, ◌<◌, ◌≡◌, refl, sym, ap, ◌∙◌, inl, inr, true, false, ◌==◌,
  ==_iff, Bool-cases, arith,
}
use aiotest.Controller.{Limits}
use aiotest.Worker.{WorkerState, quit, sync, Inputs, Master, turn}
use aiotest.Worker.Phases.{run}
use aiotest.Worker.Shutdown.{QuitsIn}
use aiotest.Worker.Barrier.{
  same, Local, MasterPc, scanning, WorkerPc, at_work, storing, waiting, taking, confirming,
  worker_move, update,
}
use aiotest.Worker.Barrier.Codes.{same_eq, same_refl}
use aiotest.Worker.Barrier.Agreement.{WorkerOk}
use aiotest.Worker.Machine.{worker_left, inputs_of}
use aiotest.Worker.Machine.Bodies.{is_quit}

-- How many moves a worker is from waiting, while Sync is published.
abbrev pub rank : WorkerPc → ℕ
rank (at_work entry) = 2
rank (storing prev) = 1
rank (waiting prev) = 0
rank (taking prev post) = 3
rank (confirming prev post) = 2

rank-bound : (pc : WorkerPc) → rank pc ≤ 3
rank-bound (at_work entry) = omega arith
rank-bound (storing prev) = omega arith
rank-bound (waiting prev) = omega arith
rank-bound (taking prev post) = omega arith
rank-bound (confirming prev post) = omega arith

abbrev pub ranks : (k : ℕ) → (ℕ → Local) → ℕ
ranks zero w = 0
ranks (suc k) w = rank (w k).pc + ranks k w

pub ranks-bound : (k : ℕ) (w : ℕ → Local) → ranks k w ≤ 3 * k
ranks-bound zero w = omega arith
ranks-bound (suc k) w = omega (arith, rank-bound (w k).pc, ranks-bound k w)

ranks-beyond : (k i : ℕ) (w : ℕ → Local) (l : Local) → k ≤ i → ranks k (update w i l) ≡ ranks k w
ranks-beyond zero i w l h = refl
ranks-beyond (suc k) i w l h =
    let other_one : (k == i) ≡ false = ground (arith, h) in
    rw other_one (ap (λ r. rank (w k).pc + r) (ranks-beyond k i w l (omega (arith, h))))

pub ranks-update :
    (k i : ℕ) (w : ℕ → Local) (l : Local)
    → i < k
    → ranks k (update w i l) + rank (w i).pc ≡ ranks k w + rank l.pc
ranks-update zero i w l h = absurd (omega (arith, h))
ranks-update (suc k) i w l h = elim (Bool-cases (k == i)) [
  | inl e ↦
      let here : k ≡ i = (==_iff k i).0 e in
      let at : rank (w k).pc ≡ rank (w i).pc = ap (λ j. rank (w j).pc) here in
      rw e (omega (arith, at, ranks-beyond k i w l (omega (arith, here))))
  | inr e ↦ rw e (omega (arith, ranks-update k i w l (ground (arith, h, e))))
]

-- A move of a worker that has not left, while Sync is published.
pub sinks :
    (m : MasterPc) (i : ℕ) (state : WorkerState) (pc : WorkerPc)
    → WorkerOk m i state pc
    → rank (worker_move sync state pc).pc ≤ rank pc - 1
unfolding worker_move
sinks m i state (at_work entry) ok = omega arith
sinks m i state (storing prev) ok = omega arith
sinks m i state (waiting prev) ok = elim (Bool-cases (same sync prev)) [
  | inl e ↦ rw e (omega arith)
  | inr e ↦ rw (e, same_refl sync) (omega arith)
]
sinks m i state (taking prev post) ok = omega arith
sinks m i state (confirming prev post) ok = elim (Bool-cases (same sync post)) [
  | inl e ↦
      absurd
        (true≢false (sym (same_refl sync) ∙ ap (λ p. same p sync) (same_eq sync post e) ∙ ok.1))
  | inr e ↦ rw e (omega arith)
]

-- A worker that waits has Sync as its state.
pub waits-sync :
    (m : MasterPc) (i : ℕ) (state : WorkerState) (pc : WorkerPc)
    → WorkerOk m i state pc
    → rank pc ≡ 0
    → same state sync ≡ true
waits-sync m i state (at_work entry) ok e = absurd (omega (arith, e))
waits-sync m i state (storing prev) ok e = absurd (omega (arith, e))
waits-sync m i state (waiting prev) ok e = ap (λ p. same p sync) ok ∙ same_refl sync
waits-sync m i state (taking prev post) ok e = absurd (omega (arith, e))
waits-sync m i state (confirming prev post) ok e = absurd (omega (arith, e))

-- No worker has left while the first one scans.
pub scanned-stays :
    (entry : WorkerState) (next i : ℕ) (state : WorkerState) (pc : WorkerPc)
    → is_quit entry ≡ false
    → WorkerOk (scanning entry next) i state pc
    → worker_left pc ≡ false
scanned-stays entry next i state (at_work phase) open_entry ok = ap is_quit ok.2.0 ∙ open_entry
scanned-stays entry next i state (storing prev) open_entry ok = refl
scanned-stays entry next i state (waiting prev) open_entry ok = refl
scanned-stays entry next i state (taking prev post) open_entry ok = refl
scanned-stays entry next i state (confirming prev post) open_entry ok = refl

-- The inputs `i`, and then those of `f`.
abbrev then_reads : Inputs → (ℕ → Inputs) → ℕ → Inputs
then_reads i f zero = i
then_reads i f (suc k) = f k

then_reads-closing :
    (i : Inputs) (f : ℕ → Inputs)
    → i.closing ≡ true
    → ((k : ℕ) → (f k).closing ≡ true)
    → (k : ℕ) → (then_reads i f k).closing ≡ true
then_reads-closing i f c h zero = c
then_reads-closing i f c h (suc k) = h k

module _ (limits : Limits) (over : ℕ → ℕ → ℕ) where
  -- The next decision takes one of the turns that are left.
  pub turn-QuitsIn :
      (b : ℕ) (m : Master) (i : Inputs)
      → i.closing ≡ true
      → QuitsIn limits over (suc b) m
      → QuitsIn limits over b (turn limits over m i)
  unfolding run
  turn-QuitsIn b m i c h k f closing enough =
      h (suc k) (then_reads i f) (then_reads-closing i f c closing) (omega (arith, enough))

  pub no_turns : (m : Master) → QuitsIn limits over 0 m → is_quit m.entry ≡ true
  unfolding run
  no_turns m h =
      ap is_quit (h 0 (λ _. inputs_of false false false) (λ _. refl) (omega arith)) ∙ same_refl quit
