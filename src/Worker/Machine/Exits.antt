-- ===== src/Worker/Machine/Exits.antt =====
-- The other workers leave their loops behind the first one: barrier and run of src/backup/Worker.cpp
-- while Quit is published.
use Prim.{absurd}
use mathlib.Core.Bool.{false≢true}
use aiotest.Prelude.{
  ℕ, zero, suc, ◌-◌, ◌≤◌, ◌<◌, ◌≡◌, refl, sym, ap, ◌∙◌, subst, inl, inr, true, false, not, ◌&&◌,
  ltb, ◌==◌, ==_iff, if◌then◌else◌, Bool-cases, arith,
}
use aiotest.Controller.{Limits}
use aiotest.Worker.{WorkerState, quit}
use aiotest.Worker.Barrier.{
  code, same, MasterPc, in_body, scanning, deciding, WorkerPc, at_work, storing, waiting, taking,
  confirming, worker_move, after_worker,
}
use aiotest.Worker.Barrier.Codes.{same_eq, same_refl}
use aiotest.Worker.Barrier.Agreement.{WorkerOk, MasterOk, Reach-Inv}
use aiotest.Worker.Machine.{
  Machine, Move, first, other, closes, has_left, worker_left, other_move, state_of, move,
}
use aiotest.Worker.Machine.Sound.{PrevOk}
use aiotest.Worker.Machine.Bodies.{is_quit}
use aiotest.Worker.Machine.Closing.{close_shape}
use aiotest.Worker.Machine.Way.{the_other, serves}
use aiotest.Worker.Machine.Stops.{Closed, move-Closed, move-has_left, first-has_left}

-- How many moves a worker is from its end, while Quit is published.
abbrev pub exit_rank : WorkerPc → ℕ
exit_rank (at_work entry) = 0
exit_rank (storing prev) = 4
exit_rank (waiting prev) = 3
exit_rank (taking prev post) = if same post quit then 2 else 6
exit_rank (confirming prev post) = if same post quit then 1 else 5

pub exit_rank-bound : (pc : WorkerPc) → exit_rank pc ≤ 6
exit_rank-bound (at_work entry) = omega arith
exit_rank-bound (storing prev) = omega arith
exit_rank-bound (waiting prev) = omega arith
exit_rank-bound (taking prev post) = ground arith
exit_rank-bound (confirming prev post) = ground arith

-- Who is at work while Quit is published has left.
at_work-left :
    (m : MasterPc) (i : ℕ) (state entry : WorkerState)
    → has_left m ≡ true
    → WorkerOk m i state (at_work entry)
    → (state ≡ quit) × (entry ≡ quit)
at_work-left (in_body phase) i state entry h ok =
    let e : entry ≡ quit = ok.2 ∙ same_eq phase quit h in (ok.0 ∙ e, e)
at_work-left (scanning phase next) i state entry h ok = absurd (false≢true h)
at_work-left (deciding phase) i state entry h ok = absurd (false≢true h)

exit-sinks :
    (m : MasterPc) (i : ℕ) (state : WorkerState) (pc : WorkerPc)
    → has_left m ≡ true
    → WorkerOk m i state pc
    → PrevOk pc
    → worker_left pc ≡ false
    → exit_rank (worker_move quit state pc).pc ≤ exit_rank pc - 1
unfolding worker_move same code
exit-sinks m i state (at_work entry) h ok prev stays =
    absurd
      (false≢true (sym stays ∙ ap is_quit (at_work-left m i state entry h ok).1 ∙ same_refl quit))
exit-sinks m i state (storing prev) h ok fresh stays = omega arith
exit-sinks m i state (waiting prev) h ok fresh stays =
    let other_one : same quit prev ≡ false = ground (arith, fresh) in rw other_one omega arith
exit-sinks m i state (taking prev post) h ok fresh stays = elim (Bool-cases (same post quit)) [
  | inl e ↦ rw e omega arith
  | inr e ↦ rw e omega arith
]
exit-sinks m i state (confirming prev post) h ok fresh stays = elim (Bool-cases (same quit post)) [
  | inl e ↦ rw e omega arith
  | inr e ↦
      let other_one : same post quit ≡ false = ground (arith, e) in rw (e, other_one) omega arith
]

exit_rank-left :
    (m : MasterPc) (i : ℕ) (state : WorkerState) (pc : WorkerPc)
    → has_left m ≡ true
    → WorkerOk m i state pc
    → exit_rank pc ≡ 0
    → (state ≡ quit) × (pc ≡ at_work quit)
exit_rank-left m i state (at_work entry) h ok none =
    let (e, e') = at_work-left m i state entry h ok in (e, ap at_work e')
exit_rank-left m i state (storing prev) h ok none = absurd (omega (arith, none))
exit_rank-left m i state (waiting prev) h ok none = absurd (omega (arith, none))
exit_rank-left m i state (taking prev post) h ok none = absurd (ground (arith, none))
exit_rank-left m i state (confirming prev post) h ok none = absurd (ground (arith, none))

left-published :
    (published : WorkerState) (m : MasterPc)
    → has_left m ≡ true
    → MasterOk published m
    → published ≡ quit
left-published published (in_body entry) h ok = ok.0 ∙ same_eq entry quit h
left-published published (scanning entry next) h ok = absurd (false≢true h)
left-published published (deciding entry) h ok = absurd (false≢true h)

worker_left-exit_rank : (pc : WorkerPc) → worker_left pc ≡ true → exit_rank pc ≡ 0
worker_left-exit_rank (at_work entry) h = refl
worker_left-exit_rank (storing prev) h = absurd (false≢true h)
worker_left-exit_rank (waiting prev) h = absurd (false≢true h)
worker_left-exit_rank (taking prev post) h = absurd (false≢true h)
worker_left-exit_rank (confirming prev post) h = absurd (false≢true h)

module _ (limits : Limits) (over : ℕ → ℕ → ℕ) (n : ℕ) where
  -- What holds once the first worker has left its loop
  pub record Leaving (s : Machine) : Type 0 where
    pub closed : Closed limits over n s
    pub left : has_left s.system.master ≡ true

  pub move-Leaving : (m : Move) (s : Machine) → Leaving s → Leaving (move limits over n m s)
  move-Leaving m s h = record {
    closed = move-Closed limits over n m s h.closed;
    left = move-has_left limits over n m s h.left;
  }

  pub Leaving-published : (s : Machine) → Leaving s → s.system.published ≡ quit
  Leaving-published s h =
      left-published s.system.published s.system.master h.left
        (Reach-Inv h.closed.sound.reach).master

  abbrev pub to_exit : ℕ → Machine → ℕ
  to_exit i s = exit_rank (s.system.worker i).pc

  -- A worker's own move brings it nearer to its end, and no other move matters to it.
  module _ (i : ℕ) (lt : i < n) where
    own_move :
        (s : Machine)
        → Leaving s
        → worker_left (s.system.worker i).pc ≡ false
        → let l = s.system.worker i in
          exit_rank (worker_move s.system.published l.state l.pc).pc ≤ exit_rank l.pc - 1
    own_move s h stays =
        let l = s.system.worker i in
        subst (λ p. exit_rank (worker_move p l.state l.pc).pc ≤ exit_rank l.pc - 1)
          (sym (Leaving-published s h))
          (exit-sinks s.system.master i l.state l.pc h.left
            ((Reach-Inv h.closed.sound.reach).workers i lt) (h.closed.sound.prevs i lt) stays)

    other-to_exit :
        (j : ℕ) (s : Machine)
        → Leaving s
        → to_exit i (other_move limits over n j s) ≤ to_exit i s - (if j == i then 1 else 0)
    unfolding other_move after_worker
    other-to_exit j s h = elim (Bool-cases (j == i)) [
      | inl e ↦
          let here : j ≡ i = (==_iff j i).0 e in
          let self : (i == i) ≡ true = ground arith in
          let inside : ltb i n ≡ true = ground (arith, lt) in
          subst
            (λ k.
              to_exit i (other_move limits over n k s) ≤ to_exit i s - (if k == i then 1 else 0))
            (sym here)
            (elim (Bool-cases (worker_left (s.system.worker i).pc)) [
              | inl g ↦
                  let none = worker_left-exit_rank (s.system.worker i).pc g in
                  rw (inside, g) (omega (arith, none))
              | inr g ↦ rw (inside, g, self) (own_move s h g)
            ])
      | inr e ↦
          let apart : (i == j) ≡ false = ground (arith, e) in
          elim (Bool-cases (ltb j n && not (worker_left (s.system.worker j).pc))) [
            | inl g ↦ rw (g, apart, e) omega arith
            | inr g ↦ rw (g, e) omega arith
          ]
    ]

    pub move-to_exit :
        (m : Move) (s : Machine)
        → Leaving s
        → to_exit i (move limits over n m s)
          ≤ to_exit i s - (if serves (the_other i) m then 1 else 0)
    unfolding move
    move-to_exit (first any_todo flush) s h =
        subst (λ t. to_exit i t ≤ to_exit i s - 0)
          (sym (first-has_left limits over n any_todo flush s.system.master s h.left)) (omega arith)
    move-to_exit (other j) s h = other-to_exit j s h
    move-to_exit closes s h =
        let (r, k, c, e, keep) = close_shape n s.closer s in
        subst (λ t. to_exit i t ≤ to_exit i s - 0) (sym e) (omega arith)

  -- What holds once the others have left theirs too
  pub record Gone (s : Machine) : Type 0 where
    pub leaving : Leaving s
    pub all_out : (i : ℕ) → i < n → to_exit i s ≡ 0

  pub move-Gone : (m : Move) (s : Machine) → Gone s → Gone (move limits over n m s)
  move-Gone m s h = record {
    leaving = move-Leaving m s h.leaving;
    all_out = λ i lt. omega (arith, move-to_exit i lt m s h.leaving, h.all_out i lt);
  }

  pub Gone-worker :
      (s : Machine)
      → Gone s
      → (i : ℕ) → i < n
      → ((s.system.worker i).state ≡ quit) × ((s.system.worker i).pc ≡ at_work quit)
  Gone-worker s h i lt =
      let l = s.system.worker i in
      exit_rank-left s.system.master i l.state l.pc h.leaving.left
        ((Reach-Inv h.leaving.closed.sound.reach).workers i lt) (h.all_out i lt)

  pub Gone-state_of : (s : Machine) → Gone s → (k : ℕ) → k ≤ n → state_of s.system k ≡ quit
  Gone-state_of s h zero le = Leaving-published s h.leaving
  Gone-state_of s h (suc i) le = (Gone-worker s h i (omega (arith, le))).0
