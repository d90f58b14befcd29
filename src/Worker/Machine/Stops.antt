-- ===== src/Worker/Machine/Stops.antt =====
-- The first worker leaves its loop once the controller closes: behind as many blocks of moves as the
-- bound of its turns and of the moves in each.
use Prim.{absurd}
use mathlib.Core.Bool.{false≢true, true≢false}
use aiotest.Prelude.{
  ℕ, zero, suc, ◌+◌, ◌*◌, ◌≤◌, ◌≡◌, refl, sym, ap, ◌∙◌, inl, inr, Bool, true, false, not, ◌&&◌, ltb,
  Bool-cases, List, [], ◌∷◌, length, arith,
}
use aiotest.Controller.{Limits}
use aiotest.Worker.{quit}
use aiotest.Worker.Shutdown.{QuitsIn}
use aiotest.Worker.Barrier.{same, Local, MasterPc, in_body, scanning, deciding, after_worker}
use aiotest.Worker.Machine.{
  Machine, Move, first, other, closes, has_left, worker_left, first_move, other_move, move,
  run_moves,
}
use aiotest.Worker.Machine.Sound.{Sound, MindOk, move-Sound}
use aiotest.Worker.Machine.Closing.{close_shape}
use aiotest.Worker.Machine.Turns.{ranks, no_turns}
use aiotest.Worker.Machine.Blocks.{Near, Left, some_Who, move-Progress}
use aiotest.Worker.Machine.Way.{Who, the_first, the_closer, the_other, Pend, way}
use aiotest.Worker.Machine.Fair.{has, IsBlock, AreBlocks, run_blocks, run-keep}

-- The move that is waited for is in the block.
block-Pend :
    (n : ℕ) (who : Who) (pc : MasterPc) (w : ℕ → Local) (ms : List Move)
    → IsBlock n ms
    → Pend n who pc w
    → has who ms ≡ true
block-Pend n the_first pc w ms b pend = b.by_first
block-Pend n the_closer pc w ms b pend = b.by_closer
block-Pend n (the_other i) (scanning entry next) w ms b pend = b.by_others i pend.1
block-Pend n (the_other i) (in_body entry) w ms b pend = absurd (false≢true pend)
block-Pend n (the_other i) (deciding entry) w ms b pend = absurd (false≢true pend)

module _ (limits : Limits) (over : ℕ → ℕ → ℕ) (n : ℕ) where
  pub first_shape :
      (any_todo flush : Bool) (pc : MasterPc) (s : Machine)
      → ((first_move limits over n any_todo flush pc s).ready ≡ s.ready)
        × ((first_move limits over n any_todo flush pc s).closer ≡ s.closer)
  unfolding first_move
  first_shape any_todo flush (in_body entry) s = elim (Bool-cases (same entry quit)) [
    | inl e ↦ rw e (refl, refl)
    | inr e ↦ rw e (refl, refl)
  ]
  first_shape any_todo flush (scanning entry next) s = (refl, refl)
  first_shape any_todo flush (deciding entry) s = (refl, refl)

  pub other_shape :
      (i : ℕ) (s : Machine)
      → let t = other_move limits over n i s in
        (t.ready ≡ s.ready) × (t.closer ≡ s.closer) × (t.system.master ≡ s.system.master)
  unfolding other_move after_worker
  other_shape i s = elim (Bool-cases (ltb i n && not (worker_left (s.system.worker i).pc))) [
    | inl e ↦ rw e (refl, refl, refl)
    | inr e ↦ rw e (refl, refl, refl)
  ]

  -- `ready` is not set again.
  pub move-ready :
      (m : Move) (s : Machine) → s.ready ≡ false → (move limits over n m s).ready ≡ false
  unfolding move
  move-ready (first any_todo flush) s h = (first_shape any_todo flush s.system.master s).0 ∙ h
  move-ready (other i) s h = (other_shape i s).0 ∙ h
  move-ready closes s h =
      let (r, k, c, e, keep) = close_shape n s.closer s in ap (λ t. t.ready) e ∙ keep h

  pub first-has_left :
      (any_todo flush : Bool) (pc : MasterPc) (s : Machine)
      → has_left pc ≡ true
      → first_move limits over n any_todo flush pc s ≡ s
  unfolding first_move
  first-has_left any_todo flush (in_body entry) s h = rw h refl
  first-has_left any_todo flush (scanning entry next) s h = absurd (false≢true h)
  first-has_left any_todo flush (deciding entry) s h = absurd (false≢true h)

  -- Who has left its loop stays out.
  pub move-has_left :
      (m : Move) (s : Machine)
      → has_left s.system.master ≡ true
      → has_left (move limits over n m s).system.master ≡ true
  unfolding move
  move-has_left (first any_todo flush) s h =
      ap (λ t. has_left t.system.master) (first-has_left any_todo flush s.system.master s h) ∙ h
  move-has_left (other i) s h = ap has_left (other_shape i s).2 ∙ h
  move-has_left closes s h =
      let (r, k, c, e, keep) = close_shape n s.closer s in ap (λ t. has_left t.system.master) e ∙ h

  -- What holds while the controller closes
  pub record Closed (s : Machine) : Type 0 where
    pub sound : Sound limits over n s
    pub closing : s.ready ≡ false

  pub move-Closed : (m : Move) (s : Machine) → Closed s → Closed (move limits over n m s)
  move-Closed m s h = record {
    sound = move-Sound limits over n m s h.sound;
    closing = move-ready m s h.closing;
  }

  Near-has_left :
      (s : Machine)
      → Sound limits over n s
      → Near limits over n 0 s
      → has_left s.system.master ≡ true
  Near-has_left s sound near = go s.system.master sound.mind_ok near.within
    where
      go :
          (pc : MasterPc)
          → MindOk pc s.mind
          → near.turns * (4 * n + 3) + way n pc s.system.worker ≤ 0
          → has_left pc ≡ true
      go (in_body entry) ok le = absurd (omega (arith, le))
      go (scanning entry next) ok le = absurd (omega (arith, le))
      go (deciding entry) ok le = absurd (decided near.turns near.quits le)
        where
          decided :
              (b : ℕ)
              → QuitsIn limits over b s.mind
              → b * (4 * n + 3) + ranks n s.system.worker ≤ 0
              → ⊥
          decided zero q le = true≢false (sym (no_turns limits over s.mind q) ∙ ok.0)
          decided (suc b) q le = grind (arith, le)

  weaken_Near : (b : ℕ) (s : Machine) → Near limits over n b s → Near limits over n (suc b) s
  weaken_Near b s h = record { turns = h.turns; quits = h.quits; within = omega (arith, h.within) }

  -- Until the first worker leaves, no move takes it away from the end.
  move-Left :
      (b : ℕ) (m : Move) (s : Machine)
      → Closed s
      → Left limits over n b s
      → Left limits over n b (move limits over n m s)
  move-Left b m s h (inl e) = inl (move-has_left m s e)
  move-Left zero m s h (inr near) = inl (move-has_left m s (Near-has_left s h.sound near))
  move-Left (suc b) m s h (inr near) = elim (Bool-cases (has_left s.system.master)) [
    | inl e ↦ inl (move-has_left m s e)
    | inr e ↦
        let (who, pend) = some_Who limits over n s in
        elim (move-Progress limits over n b who m s h.sound h.closing near pend e) [
          | inl (inl g) ↦ inl g
          | inl (inr g) ↦ inr (weaken_Near b _ g)
          | inr g ↦ inr g.1
        ]
  ]

  run-Left :
      (b : ℕ) (ms : List Move) (s : Machine)
      → Closed s
      → Left limits over n b s
      → Left limits over n b (run_moves limits over n ms s)
  run-Left b ms s h left =
      (run-keep limits over n (λ t. Closed t × Left limits over n b t)
        (λ m t ok. (move-Closed m t ok.0, move-Left b m t ok.0 ok.1)) ms s (h, left)).1

  -- The move that is waited for comes.
  awaited-Left :
      (b : ℕ) (who : Who) (ms : List Move) (s : Machine)
      → Closed s
      → Near limits over n (suc b) s
      → Pend n who s.system.master s.system.worker
      → has who ms ≡ true
      → Left limits over n b (run_moves limits over n ms s)
  unfolding run_moves
  awaited-Left b who [] s h near pend comes = absurd (false≢true comes)
  awaited-Left b who (m ∷ ms) s h near pend comes =
      let t = move limits over n m s in
      let h' = move-Closed m s h in
      elim (Bool-cases (has_left s.system.master)) [
        | inl e ↦ run-Left b ms t h' (inl (move-has_left m s e))
        | inr e ↦ elim (move-Progress limits over n b who m s h.sound h.closing near pend e) [
          | inl left ↦ run-Left b ms t h' left
          | inr (unserved, near', pend') ↦
              awaited-Left b who ms t h' near' pend' (sym (rw unserved refl) ∙ comes)
        ]
      ]

  block-Left :
      (b : ℕ) (ms : List Move) (s : Machine)
      → Closed s
      → Left limits over n (suc b) s
      → IsBlock n ms
      → Left limits over n b (run_moves limits over n ms s)
  block-Left b ms s h (inl e) block = run-Left b ms s h (inl e)
  block-Left b ms s h (inr near) block =
      let (who, pend) = some_Who limits over n s in
      awaited-Left b who ms s h near pend
        (block-Pend n who s.system.master s.system.worker ms block pend)

  pub run-Closed : (ms : List Move) (s : Machine) → Closed s → Closed (run_moves limits over n ms s)
  run-Closed = run-keep limits over n Closed move-Closed

  -- With as many blocks as the bound, the first worker has left its loop.
  pub run_blocks-Left :
      (mss : List (List Move)) (s : Machine)
      → Closed s
      → AreBlocks n mss
      → Left limits over n (length mss) s
      → has_left (run_blocks limits over n mss s).system.master ≡ true
  run_blocks-Left [] s h blocks (inl e) = e
  run_blocks-Left [] s h blocks (inr near) = Near-has_left s h.sound near
  run_blocks-Left (ms ∷ mss) s h (block, blocks) left =
      run_blocks-Left mss (run_moves limits over n ms s) (run-Closed ms s h) blocks
        (block-Left (length mss) ms s h left block)
