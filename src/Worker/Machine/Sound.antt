-- ===== src/Worker/Machine/Sound.antt =====
-- What holds of the workers and the destructor in every state that they reach: the steps are those of the
-- barrier with any decisions, and the first worker's variables fit to where it is.
use aiotest.Prelude.{
  ℕ, ◌<◌, ◌≡◌, refl, sym, ap, ◌∙◌, ◌⊎◌, subst, inl, inr, Bool, false, not, ◌&&◌, ltb, ◌||◌, ◌==◌,
  Bool-cases, List, [], ◌∷◌, arith,
}
use aiotest.Controller.{Limits}
use aiotest.Worker.{WorkerState, pending, idle, quit, sync, Master, body}
use aiotest.Worker.Phases.{IsReached, on_start, turn-IsReached}
use aiotest.Worker.Barrier.{
  code, same, Local, MasterPc, in_body, scanning, deciding, WorkerPc, at_work, storing, waiting,
  taking, confirming, master_move, worker_move, after_master, after_worker, of_master, of_worker,
  Reach, start, later,
}
use aiotest.Worker.Barrier.Agreement.{WorkerOk, Reach-Inv}
use aiotest.Worker.Machine.{
  Machine, Move, first, other, closes, worker_left, inputs_of, close_move, first_move, other_move,
  stepped, post_of, move, run_moves, built,
}
use aiotest.Worker.Machine.Bodies.{is_quit, decide-phase, turn-body, body-entry}
use aiotest.Worker.Machine.Closing.{CloseOk, close_shape, close-CloseOk}

-- What the first worker's variables say of where it is. It starts at a barrier, and not in a phase.
abbrev pub MindOk : MasterPc → Master → Type 0
MindOk (in_body entry) m = (entry ≡ m.entry) ⊎ ((entry ≡ pending) × (m.entry ≡ idle))
MindOk (scanning entry next) m = (is_quit m.entry ≡ false) × (is_quit entry ≡ false)
MindOk (deciding entry) m = (is_quit m.entry ≡ false) × (is_quit entry ≡ false)

-- A worker that has not left has not been in Quit.
abbrev pub PrevOk : WorkerPc → Type 0
PrevOk (at_work entry) = Unit {0}
PrevOk (storing prev) = is_quit prev ≡ false
PrevOk (waiting prev) = is_quit prev ≡ false
PrevOk (taking prev post) = is_quit prev ≡ false
PrevOk (confirming prev post) = is_quit prev ≡ false

MindOk-open :
    (entry : WorkerState) (m : Master)
    → MindOk (in_body entry) m
    → is_quit entry ≡ false
    → is_quit m.entry ≡ false
unfolding same code
MindOk-open entry m (inl e) stays = ap is_quit (sym e) ∙ stays
MindOk-open entry m (inr (e, e')) stays = ap is_quit e'

module _ (limits : Limits) (over : ℕ → ℕ → ℕ) (n : ℕ) where
  pub record Sound (s : Machine) : Type 0 where
    pub reach : Reach n s.system
    pub reached : IsReached limits over s.mind
    pub mind_ok : MindOk s.system.master s.mind
    pub prevs : (i : ℕ) → i < n → PrevOk (s.system.worker i).pc
    pub close_ok : CloseOk n s.closer s.ready s.rejects

  close-Sound : (s : Machine) → Sound s → Sound (close_move n s.closer s)
  close-Sound s h =
      let (r, k, c, e, _) = close_shape n s.closer s in
      record {
        reach = subst (λ t. Reach n t.system) (sym e) h.reach;
        reached = subst (λ t. IsReached limits over t.mind) (sym e) h.reached;
        mind_ok = subst (λ t. MindOk t.system.master t.mind) (sym e) h.mind_ok;
        prevs = subst (λ t. (i : ℕ) → i < n → PrevOk (t.system.worker i).pc) (sym e) h.prevs;
        close_ok = close-CloseOk n s.closer s refl h.close_ok;
      }

  scan-MindOk :
      (entry : WorkerState) (next : ℕ) (published : WorkerState) (workers : ℕ → Local)
      (post : WorkerState) (m : Master)
      → MindOk (scanning entry next) m
      → MindOk (master_move n post published (scanning entry next) workers).1 m
  unfolding master_move
  scan-MindOk entry next published workers post m h = elim (Bool-cases (ltb next n)) [
    | inl e ↦ elim (Bool-cases (same (workers next).state sync)) [
      | inl g ↦ rw (e, g) h
      | inr g ↦ rw (e, g) h
    ]
    | inr e ↦ rw e h
  ]

  -- A step of the first worker that leaves its variables alone.
  same_mind :
      (any_todo flush : Bool) (s : Machine)
      → Sound s
      → MindOk (stepped limits over n any_todo flush s).master s.mind
      → Sound (record s { system = stepped limits over n any_todo flush s })
  same_mind any_todo flush s h ok = record {
    reach =
        later h.reach
          (of_master _ (decide-phase s.mind.decision (inputs_of s.ready any_todo flush)));
    reached = h.reached;
    mind_ok = ok;
    prevs = unfold after_master in h.prevs;
    close_ok = h.close_ok;
  }

  first-Sound :
      (any_todo flush : Bool) (pc : MasterPc) (s : Machine)
      → s.system.master ≡ pc
      → Sound s
      → Sound (first_move limits over n any_todo flush pc s)
  unfolding first_move after_master master_move
  first-Sound any_todo flush pc s e h = go pc e
    where
      post : WorkerState
      post = post_of limits over n any_todo flush s

      Next : MasterPc → Master → Type 0
      Next q m = MindOk (master_move n post s.system.published q s.system.worker).1 m

      at_pc : (q : MasterPc) → s.system.master ≡ q → MindOk q s.mind
      at_pc q e = subst (λ q. MindOk q s.mind) e h.mind_ok

      go :
          (q : MasterPc) → s.system.master ≡ q → Sound (first_move limits over n any_todo flush q s)
      go (in_body entry) e = elim (Bool-cases (same entry quit)) [
        | inl g ↦ rw g h
        | inr g ↦ rw g (
            same_mind any_todo flush s h (
              subst (λ q. Next q s.mind) (sym e)
                (MindOk-open entry s.mind (at_pc (in_body entry) e) g, g)))
      ]
      go (scanning entry next) e = same_mind any_todo flush s h (
          subst (λ q. Next q s.mind) (sym e)
            (scan-MindOk entry next s.system.published s.system.worker post s.mind
              (at_pc (scanning entry next) e)))
      go (deciding entry) e =
          let inputs = inputs_of s.ready any_todo flush in
          let m = body limits over s.mind post in
          record {
            reach = later h.reach (of_master _ (decide-phase s.mind.decision inputs));
            reached =
                subst (IsReached limits over)
                  (turn-body limits over s.mind inputs (at_pc (deciding entry) e).0)
                  (turn-IsReached limits over s.mind inputs h.reached);
            mind_ok =
                subst (λ q. Next q m) (sym e) (inl (sym (body-entry limits over s.mind post)));
            prevs = h.prevs;
            close_ok = h.close_ok;
          }

  worker-PrevOk :
      (m : MasterPc) (i : ℕ) (published state : WorkerState) (pc : WorkerPc)
      → worker_left pc ≡ false
      → WorkerOk m i state pc
      → PrevOk pc
      → PrevOk (worker_move published state pc).pc
  unfolding worker_move
  worker-PrevOk m i published state (at_work entry) stays ok h = ap is_quit ok.0 ∙ stays
  worker-PrevOk m i published state (storing prev) stays ok h = h
  worker-PrevOk m i published state (waiting prev) stays ok h =
      elim (Bool-cases (same published prev || same published sync)) [
        | inl e ↦ rw e h
        | inr e ↦ rw e h
      ]
  worker-PrevOk m i published state (taking prev post) stays ok h = h
  worker-PrevOk m i published state (confirming prev post) stays ok h =
      elim (Bool-cases (same published post)) [ inl e ↦ rw e tt | inr e ↦ rw e h ]

  other-Sound : (i : ℕ) (s : Machine) → Sound s → Sound (other_move limits over n i s)
  unfolding other_move after_worker
  other-Sound i s h = elim (Bool-cases (ltb i n && not (worker_left (s.system.worker i).pc))) [
    | inl e ↦
        let lt : i < n = ground (arith, e) in
        let stays : worker_left (s.system.worker i).pc ≡ false = ground (arith, e) in
        let l = s.system.worker i in
        rw e (record {
          reach = later h.reach (of_worker i lt);
          reached = h.reached;
          mind_ok = h.mind_ok;
          close_ok = h.close_ok;
          prevs = λ j below. elim (Bool-cases (j == i)) [
            | inl g ↦ rw g (
                worker-PrevOk s.system.master i s.system.published l.state l.pc stays
                  ((Reach-Inv h.reach).workers i lt) (h.prevs i lt))
            | inr g ↦ rw g (h.prevs j below)
          ];
        })
    | inr e ↦ rw e h
  ]

  pub move-Sound : (m : Move) (s : Machine) → Sound s → Sound (move limits over n m s)
  unfolding move
  move-Sound (first any_todo flush) s h = first-Sound any_todo flush s.system.master s refl h
  move-Sound (other i) s h = other-Sound i s h
  move-Sound closes s h = close-Sound s h

  pub run_moves-Sound :
      (ms : List Move) (s : Machine) → Sound s → Sound (run_moves limits over n ms s)
  unfolding run_moves
  run_moves-Sound [] s h = h
  run_moves-Sound (m ∷ ms) s h = run_moves-Sound ms (move limits over n m s) (move-Sound m s h)

  pub built-Sound : Sound built
  built-Sound = record {
    reach = start;
    reached = on_start;
    mind_ok = inr (refl, refl);
    prevs = λ i lt. tt;
    close_ok = refl;
  }
