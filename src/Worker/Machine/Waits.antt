-- ===== src/Worker/Machine/Waits.antt =====
-- wait of src/backup/Controller.cpp, by the destructor: what it has seen stays so, and is true of every
-- worker.
use aiotest.Prelude.{
  ℕ, zero, suc, ◌≤◌, ◌<◌, ◌≡◌, refl, sym, ap, ◌∙◌, subst, inl, inr, Bool, true, false, not, ◌&&◌,
  ltb, ◌==◌, ==_iff, Bool-cases, List, arith,
}
use aiotest.Controller.{Limits}
use aiotest.Worker.{quit}
use aiotest.Worker.Barrier.{
  same, System, Local, MasterPc, in_body, scanning, deciding, after_worker, after_master,
}
use aiotest.Worker.Barrier.Codes.{same_eq}
use aiotest.Worker.Barrier.Agreement.{WorkerOk, Reach-Inv}
use aiotest.Worker.Machine.{
  Machine, ended, Move, first, other, closes, has_left, worker_left, first_move, other_move,
  close_move, state_of, move, run_moves, built,
}
use aiotest.Worker.Machine.Sound.{Sound, built-Sound, move-Sound}
use aiotest.Worker.Machine.Bodies.{is_quit}
use aiotest.Worker.Machine.Closing.{close_shape}
use aiotest.Worker.Machine.Fair.{run-keep}
use aiotest.Worker.Machine.Stops.{first-has_left, first_shape}
use aiotest.Worker.Machine.Quits.{
  Fresh, worker-Fresh, worker-keeps_quit, published-left, Seen, Seen-later, close-Seen, Fresh-later,
  Leaves, Fresh-Leaves,
}

-- What is true of a worker that the destructor does not wait for any more
abbrev pub IsOut : ℕ → System → Type 0
IsOut zero s = (s.published ≡ quit) × (has_left s.master ≡ true)
IsOut (suc i) s = ((s.worker i).state ≡ quit) × Leaves (s.worker i).pc

module _ (limits : Limits) (over : ℕ → ℕ → ℕ) (n : ℕ) where
  record Watched (s : Machine) : Type 0 where
    sound : Sound limits over n s
    fresh :
        (i : ℕ) → i < n → Fresh s.system.published (s.system.worker i).state (s.system.worker i).pc
    seen : Seen n s.closer s.system

  first_workers :
      (any_todo flush : Bool) (pc : MasterPc) (s : Machine)
      → (first_move limits over n any_todo flush pc s).system.worker ≡ s.system.worker
  unfolding first_move after_master
  first_workers any_todo flush (in_body entry) s = elim (Bool-cases (same entry quit)) [
    | inl e ↦ rw e refl
    | inr e ↦ rw e refl
  ]
  first_workers any_todo flush (scanning entry next) s = refl
  first_workers any_todo flush (deciding entry) s = refl

  -- Quit stays published.
  first_quit :
      (any_todo flush : Bool) (s : Machine)
      → Sound limits over n s
      → is_quit s.system.published ≡ true
      → is_quit (first_move limits over n any_todo flush s.system.master s).system.published ≡ true
  first_quit any_todo flush s h q =
      let left = published-left s.system.published s.system.master (Reach-Inv h.reach).master q in
      ap (λ t. is_quit t.system.published)
        (first-has_left limits over n any_todo flush s.system.master s left)
      ∙ q

  first-Watched :
      (any_todo flush : Bool) (s : Machine)
      → Watched s
      → Sound limits over n (first_move limits over n any_todo flush s.system.master s)
      → Watched (first_move limits over n any_todo flush s.system.master s)
  first-Watched any_todo flush s h sound =
      let t = first_move limits over n any_todo flush s.system.master s in
      let workers = first_workers any_todo flush s.system.master s in
      record {
        sound = sound;
        fresh = λ i lt.
            subst (λ w. Fresh t.system.published (w i).state (w i).pc) (sym workers)
              (Fresh-later s.system.published t.system.published (s.system.worker i).state
                (s.system.worker i).pc (first_quit any_todo flush s h.sound) (h.fresh i lt));
        seen =
            subst (λ c. Seen n c t.system)
              (sym (first_shape limits over n any_todo flush s.system.master s).1)
              (Seen-later n s.closer s.system t.system keep h.seen);
      }
    where
      keep :
          (k : ℕ)
          → k ≤ n
          → is_quit (state_of s.system k) ≡ true
          → is_quit (state_of (first_move limits over n any_todo flush s.system.master s).system k)
            ≡ true
      keep zero le q = first_quit any_todo flush s h.sound q
      keep (suc i) le q =
          ap (λ w. is_quit (w i).state) (first_workers any_todo flush s.system.master s) ∙ q

  -- Worker `i` moves.
  moved-Watched :
      (i : ℕ) (s : Machine)
      → i < n
      → worker_left (s.system.worker i).pc ≡ false
      → Watched s
      → Sound limits over n (record s { system = after_worker i s.system })
      → Watched (record s { system = after_worker i s.system })
  unfolding after_worker
  moved-Watched i s lt stays h sound = record {
    sound = sound;
    fresh = λ j below. elim (Bool-cases (j == i)) [
      | inl e ↦
          rw e
            (worker-Fresh s.system.master i s.system.published l.state l.pc stays ok (h.fresh i lt))
      | inr e ↦ rw e (h.fresh j below)
    ];
    seen = Seen-later n s.closer s.system (after_worker i s.system) keep h.seen;
  }
    where
      l : Local
      l = s.system.worker i

      ok : WorkerOk s.system.master i l.state l.pc
      ok = (Reach-Inv h.sound.reach).workers i lt

      keep :
          (k : ℕ)
          → k ≤ n
          → is_quit (state_of s.system k) ≡ true
          → is_quit (state_of (after_worker i s.system) k) ≡ true
      keep zero le q = q
      keep (suc j) le q = elim (Bool-cases (j == i)) [
        | inl e ↦
            let q' = ap (λ x. is_quit (s.system.worker x).state) (sym ((==_iff j i).0 e)) ∙ q in
            rw (state_of, e)
              (worker-keeps_quit s.system.master i s.system.published l.state l.pc stays ok
                (h.fresh i lt) q')
        | inr e ↦ rw (state_of, e) q
      ]

  other-Watched :
      (i : ℕ) (s : Machine)
      → Watched s
      → Sound limits over n (other_move limits over n i s)
      → Watched (other_move limits over n i s)
  unfolding other_move
  other-Watched i s h sound =
      elim (Bool-cases (ltb i n && not (worker_left (s.system.worker i).pc))) [
        | inl e ↦ rw e (moved-Watched i s (ground (arith, e)) (ground (arith, e)) h (rw e at sound))
        | inr e ↦ rw e h
      ]

  close-Watched :
      (s : Machine)
      → Watched s
      → Sound limits over n (close_move n s.closer s)
      → Watched (close_move n s.closer s)
  close-Watched s h sound =
      let (r, k, c, e, keep) = close_shape n s.closer s in
      record {
        sound = sound;
        fresh =
            subst
              (λ t.
                (i : ℕ)
                → i < n
                → Fresh t.system.published (t.system.worker i).state (t.system.worker i).pc)
              (sym e) h.fresh;
        seen = close-Seen n s.closer s refl h.seen;
      }

  move-Watched : (m : Move) (s : Machine) → Watched s → Watched (move limits over n m s)
  unfolding move
  move-Watched (first any_todo flush) s h =
      first-Watched any_todo flush s h
        (unfold move in move-Sound limits over n (first any_todo flush) s h.sound)
  move-Watched (other i) s h = other-Watched i s h (move-Sound limits over n (other i) s h.sound)
  move-Watched closes s h = close-Watched s h (move-Sound limits over n closes s h.sound)

  built-Watched : Watched built
  built-Watched = record { sound = built-Sound limits over n; fresh = λ i lt. tt; seen = tt }

  Watched-IsOut :
      (k : ℕ) (s : Machine)
      → Watched s
      → k ≤ n
      → is_quit (state_of s.system k) ≡ true
      → IsOut k s.system
  Watched-IsOut zero s h le q = (
    same_eq s.system.published quit q,
    published-left s.system.published s.system.master (Reach-Inv h.sound.reach).master q,
  )
  Watched-IsOut (suc i) s h le q =
      let l = s.system.worker i in
      let lt : i < n = omega (arith, le) in
      let e = same_eq l.state quit q in
      (
        e,
        Fresh-Leaves s.system.master i s.system.published l.state l.pc
            ((Reach-Inv h.sound.reach).workers i lt) (h.fresh i lt) e,
      )

-- The workers and the destructor of the controller move in any order from the end of the constructor,
-- and the first worker decides on any inputs. When the destructor has come past its wait, every worker is
-- on its way out: the first one publishes Quit and has left its loop; every other one has Quit as its
-- state, and has left its loop or is at the load of the barrier that compares with Quit.
pub wait-IsOut :
    (limits : Limits) (over : ℕ → ℕ → ℕ) (n : ℕ) (ms : List Move) (k : ℕ)
    → (run_moves limits over n ms built).closer ≡ ended
    → k ≤ n
    → IsOut k (run_moves limits over n ms built).system
wait-IsOut limits over n ms k e le =
    let s = run_moves limits over n ms built in
    let h =
      run-keep limits over n (Watched limits over n) (move-Watched limits over n) ms built
        (built-Watched limits over n) in
    Watched-IsOut limits over n k s h le ((subst (λ c. Seen n c s.system) e h.seen) k le)
