-- ===== src/Worker/Machine/Blocks.antt =====
-- What a block of moves with one of every worker does on the way to the end.
use Prim.{absurd}
use mathlib.Core.Bool.{false≢true, true≢false}
use aiotest.Prelude.{
  ℕ, zero, suc, ◌+◌, ◌-◌, ◌*◌, ◌≤◌, ◌<◌, ◌≡◌, refl, sym, ap, ◌∙◌, ◌⊎◌, subst, inl, inr, Bool, true,
  false, not, ◌&&◌, ltb, ◌==◌, ==_iff, Bool-cases, arith,
}
use aiotest.Controller.{Limits}
use aiotest.Worker.{WorkerState, sync, Master}
use aiotest.Worker.Shutdown.{QuitsIn}
use aiotest.Worker.Barrier.{
  same, Local, MasterPc, in_body, scanning, deciding, master_move, worker_move, after_master,
  after_worker, update,
}
use aiotest.Worker.Barrier.Agreement.{WorkerOk, Reach-Inv}
use aiotest.Worker.Machine.{
  Machine, Closer, Move, first, other, closes, has_left, worker_left, inputs_of, first_move,
  other_move, move,
}
use aiotest.Worker.Machine.Sound.{Sound}
use aiotest.Worker.Machine.Bodies.{turn-body}
use aiotest.Worker.Machine.Closing.{close_shape}
use aiotest.Worker.Machine.Turns.{
  rank, ranks, ranks-bound, ranks-update, sinks, waits-sync, scanned-stays, turn-QuitsIn, no_turns,
}
use aiotest.Worker.Machine.Way.{
  Who, the_first, the_closer, the_other, serves, Pend, way, not_first, body-Pend, deciding-Pend,
  scanning-Pend, not_closer,
}

module _ (limits : Limits) (over : ℕ → ℕ → ℕ) (n : ℕ) where
  pub record Near (bound : ℕ) (s : Machine) : Type 0 where
    pub turns : ℕ
    pub quits : QuitsIn limits over turns s.mind
    pub within : turns * (4 * n + 3) + way n s.system.master s.system.worker ≤ bound

  -- The first worker has left its loop, or it is near to that.
  abbrev pub Left : ℕ → Machine → Type 0
  Left bound s = (has_left s.system.master ≡ true) ⊎ Near bound s

  -- A move that brings the end nearer, or leaves it to another one.
  abbrev pub Progress : ℕ → Who → Move → Machine → Type 0
  Progress bound who m t =
      Left bound t
      ⊎ ((serves who m ≡ false) × Near (suc bound) t × Pend n who t.system.master t.system.worker)

  pub some_Who : (s : Machine) → (who : Who) × Pend n who s.system.master s.system.worker
  some_Who s = go s.system.master
    where
      go : (m : MasterPc) → (who : Who) × Pend n who m s.system.worker
      go (in_body entry) = (the_first, tt)
      go (deciding entry) = (the_first, tt)
      go (scanning entry next) =
          elim (Bool-cases (ltb next n && ltb 0 (rank (s.system.worker next).pc))) [
            | inl e ↦ (the_other next, (refl, ground (arith, e), ground (arith, e)))
            | inr e ↦ (the_first, λ lt. ground (arith, e, lt))
          ]

  -- The machine with the first worker at `pc`.
  module _ (published : WorkerState) (w : ℕ → Local) (m : Master) (r : Bool) (k : ℕ) (c : Closer)
      (closing : r ≡ false) (bound : ℕ) (who : Who) where
    abbrev at : MasterPc → Machine
    at pc = record {
      system = record { published = published; master = pc; worker = w };
      mind = m;
      ready = r;
      rejects = k;
      closer = c;
    }

    first-Progress :
        (any_todo flush : Bool) (pc : MasterPc)
        → Sound limits over n (at pc)
        → Near (suc bound) (at pc)
        → Pend n who pc w
        → has_left pc ≡ false
        → Progress bound who
            (first any_todo flush)
            (first_move limits over n any_todo flush pc (at pc))
    unfolding first_move after_master master_move
    first-Progress any_todo flush (in_body entry) sound near pend stays = rw stays (
        inl (
          inr (record {
            turns = near.turns;
            quits = near.quits;
            within = omega (arith, near.within, ranks-bound n w);
          })))
    first-Progress any_todo flush (scanning entry next) sound near pend stays =
        let inv = Reach-Inv sound.reach in
        elim (Bool-cases (ltb next n)) [
          | inl e ↦ elim (Bool-cases (same (w next).state sync)) [
            | inl g ↦
                rw (e, g)
                  (inl (
                    inr (record {
                      turns = near.turns;
                      quits = near.quits;
                      within = ground (arith, near.within, e);
                    })))
            | inr g ↦
                let lt : next < n = ground (arith, e) in
                let ok =
                  waits-sync (scanning entry next) next (w next).state (w next).pc
                    (inv.workers next lt) in
                let far : 0 < rank (w next).pc = ground (arith, ok, g) in
                rw (e, g)
                  (inr (not_first n who entry next w any_todo flush pend lt far, near, pend))
          ]
          | inr e ↦ rw e (
              inl (
                inr (record {
                  turns = near.turns;
                  quits = near.quits;
                  within = omega (arith, near.within);
                })))
        ]
    first-Progress any_todo flush (deciding entry) sound near pend stays =
        inl (inr (decided near.turns near.quits near.within))
      where
        decided :
            (b : ℕ)
            → QuitsIn limits over b m
            → b * (4 * n + 3) + ranks n w ≤ suc bound
            → Near bound
                (first_move limits over n any_todo flush (deciding entry) (at (deciding entry)))
        decided zero q le = absurd (true≢false (sym (no_turns limits over m q) ∙ sound.mind_ok.0))
        decided (suc b) q le =
            let i = inputs_of r any_todo flush in
            record {
              turns = b;
              quits =
                  subst (QuitsIn limits over b) (turn-body limits over m i sound.mind_ok.0)
                    (turn-QuitsIn limits over b m i (ap not closing) q);
              within = grind (arith, le);
            }

    abbrev moved : ℕ → ℕ → Local
    moved i = update w i (worker_move published (w i).state (w i).pc)

    moved-ranks :
        (i : ℕ) (pc : MasterPc)
        → i < n
        → published ≡ sync
        → WorkerOk pc i (w i).state (w i).pc
        → (rank (moved i i).pc ≤ rank (w i).pc - 1)
          × (ranks n (moved i) + rank (w i).pc ≤ ranks n w + (rank (w i).pc - 1))
    moved-ranks i pc lt e ok =
        let l = w i in
        let sink : rank (worker_move published l.state l.pc).pc ≤ rank l.pc - 1 =
          subst (λ p. rank (worker_move p l.state l.pc).pc ≤ rank l.pc - 1) (sym e)
            (sinks pc i l.state l.pc ok) in
        let self : (i == i) ≡ true = ground arith in
        (
          rw self sink,
          omega (arith, sink, ranks-update n i w (worker_move published l.state l.pc) lt),
        )

    -- A worker moves whose move is not the one that is waited for, or is.
    moved-Progress :
        (i : ℕ) (pc : MasterPc)
        → i < n
        → Sound limits over n (at pc)
        → Near (suc bound) (at pc)
        → Pend n who pc w
        → has_left pc ≡ false
        → Progress bound who (other i) (record (at pc) {
          system = after_worker i (record { published = published; master = pc; worker = w });
        })
    unfolding after_worker
    moved-Progress i (in_body entry) lt sound near pend stays =
        let (idle_move, pend') = body-Pend n who entry i w (moved i) pend in
        inr (
          idle_move,
          record { turns = near.turns; quits = near.quits; within = near.within },
          pend',
        )
    moved-Progress i (scanning entry next) lt sound near pend stays =
        let inv = Reach-Inv sound.reach in
        let (rank_le, ranks_le) =
          moved-ranks i (scanning entry next) lt inv.master (inv.workers i lt) in
        elim (Bool-cases (ltb 0 (rank (w i).pc))) [
          | inl e ↦
              let far : 0 < rank (w i).pc = ground (arith, e) in
              inl (
                inr (record {
                  turns = near.turns;
                  quits = near.quits;
                  within = omega (arith, near.within, ranks_le, far);
                }))
          | inr e ↦
              let none_left : rank (w i).pc ≡ 0 = ground (arith, e) in
              let l = worker_move published (w i).state (w i).pc in
              let self : (i == i) ≡ true = ground arith in
              let still : rank l.pc ≤ 0 = omega (arith, none_left, rw self at rank_le) in
              let (idle_move, pend') = scanning-Pend n who entry next i w l none_left still pend in
              inr (
                idle_move,
                record {
                  turns = near.turns;
                  quits = near.quits;
                  within = omega (arith, near.within, ranks_le, none_left);
                },
                pend',
              )
        ]
    moved-Progress i (deciding entry) lt sound near pend stays =
        let inv = Reach-Inv sound.reach in
        let (rank_le, ranks_le) = moved-ranks i (deciding entry) lt inv.master (inv.workers i lt) in
        let (idle_move, pend') = deciding-Pend n who entry i w (moved i) pend in
        inr (
          idle_move,
          record {
            turns = near.turns;
            quits = near.quits;
            within = omega (arith, near.within, ranks_le);
          },
          pend',
        )

    idle_other :
        (i : ℕ) (pc : MasterPc)
        → (ltb i n && not (worker_left (w i).pc)) ≡ false
        → Sound limits over n (at pc)
        → Pend n who pc w
        → serves who (other i) ≡ false
    idle_other i (in_body entry) e sound pend = (body-Pend n who entry i w w pend).0
    idle_other i (deciding entry) e sound pend = (deciding-Pend n who entry i w w pend).0
    idle_other i (scanning entry next) e sound pend = go who pend
      where
        go : (who : Who) → Pend n who (scanning entry next) w → serves who (other i) ≡ false
        go the_first p = refl
        go the_closer p = refl
        go (the_other j) p = elim (Bool-cases (i == j)) [
          | inl g ↦
              let here : j ≡ i = sym ((==_iff i j).0 g) in
              let lt : i < n = omega (arith, here, p.1) in
              let open_pc =
                scanned-stays entry next i (w i).state (w i).pc sound.mind_ok.1
                  ((Reach-Inv sound.reach).workers i lt) in
              absurd (false≢true (ground (arith, e, lt, open_pc)))
          | inr g ↦ g
        ]

    other-Progress :
        (i : ℕ) (pc : MasterPc)
        → Sound limits over n (at pc)
        → Near (suc bound) (at pc)
        → Pend n who pc w
        → has_left pc ≡ false
        → Progress bound who (other i) (other_move limits over n i (at pc))
    unfolding other_move
    other-Progress i pc sound near pend stays =
        elim (Bool-cases (ltb i n && not (worker_left (w i).pc))) [
          | inl e ↦ rw e (moved-Progress i pc (ground (arith, e)) sound near pend stays)
          | inr e ↦ rw e (inr (idle_other i pc e sound pend, near, pend))
        ]

  pub move-Progress :
      (bound : ℕ) (who : Who) (m : Move) (s : Machine)
      → Sound limits over n s
      → s.ready ≡ false
      → Near (suc bound) s
      → Pend n who s.system.master s.system.worker
      → has_left s.system.master ≡ false
      → Progress bound who m (move limits over n m s)
  unfolding move
  move-Progress bound who (first any_todo flush) s sound closing near pend stays =
      first-Progress s.system.published s.system.worker s.mind s.ready s.rejects s.closer closing
        bound who any_todo flush s.system.master sound near pend stays
  move-Progress bound who (other i) s sound closing near pend stays =
      other-Progress s.system.published s.system.worker s.mind s.ready s.rejects s.closer closing
        bound who i s.system.master sound near pend stays
  move-Progress bound who closes s sound closing near pend stays =
      let (r, k, c, e, _) = close_shape n s.closer s in
      subst (Progress bound who closes) (sym e) (
        inr (
          not_closer n who s.system.master s.system.worker pend,
          record { turns = near.turns; quits = near.quits; within = near.within },
          pend,
        ))
