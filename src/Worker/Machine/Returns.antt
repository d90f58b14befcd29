-- ===== src/Worker/Machine/Returns.antt =====
-- The destructor returns: ~Controller and wait of src/backup/Controller.cpp behind the workers that
-- have left their loops.
use Prim.{absurd}
use aiotest.Prelude.{
  ℕ, ◌+◌, ◌-◌, ◌*◌, ◌^◌, ◌≤◌, ◌<◌, ◌≡◌, refl, sym, ap, ◌∙◌, subst, inl, inr, true, leb,
  if◌then◌else◌, Bool-cases, List, length, arith,
}
use aiotest.Controller.{Limits}
use aiotest.Worker.{quit}
use aiotest.Worker.Shutdown.{reached-QuitsIn}
use aiotest.Worker.Barrier.{same, Local, MasterPc, in_body, scanning, deciding, at_work}
use aiotest.Worker.Barrier.Codes.{same_refl}
use aiotest.Worker.Machine.{
  Machine, Closer, not_begun, rejecting, stopping, awaiting, ended, Move, first, other, closes,
  close_move, state_of, move, run_moves, built,
}
use aiotest.Worker.Machine.Sound.{built-Sound, run_moves-Sound}
use aiotest.Worker.Machine.Bodies.{is_quit}
use aiotest.Worker.Machine.Closing.{CloseOk}
use aiotest.Worker.Machine.Turns.{ranks-bound}
use aiotest.Worker.Machine.Way.{the_closer, the_other, serves, way}
use aiotest.Worker.Machine.Fair.{
  blocks-Split, AreBlocks, run_blocks, run_blocks-keep, run_blocks-falls,
}
use aiotest.Worker.Machine.Stops.{Closed, move-Closed, run_blocks-Left, first_shape, other_shape}
use aiotest.Worker.Machine.Exits.{
  exit_rank-bound, Leaving, move-Leaving, Leaving-published, to_exit, move-to_exit, Gone, move-Gone,
  Gone-worker, Gone-state_of,
}

-- How many moves the destructor is from its end, while every `state` is Quit.
abbrev closer_rank : ℕ → Closer → ℕ
closer_rank n not_begun = 2 * n + 6
closer_rank n (rejecting k) = (n + 1 - k) + (n + 4)
closer_rank n stopping = n + 3
closer_rank n (awaiting k) = (n + 1 - k) + 1
closer_rank n ended = 0

closer_rank-ended : (n : ℕ) (c : Closer) → closer_rank n c ≡ 0 → c ≡ ended
closer_rank-ended n not_begun h = absurd (omega (arith, h))
closer_rank-ended n (rejecting k) h = absurd (omega (arith, h))
closer_rank-ended n stopping h = absurd (omega (arith, h))
closer_rank-ended n (awaiting k) h = absurd (omega (arith, h))
closer_rank-ended n ended h = refl

abbrev NearEnd : ℕ → Closer → Type 0
NearEnd n c = closer_rank n c ≤ n + 2

close-NearEnd :
    (n : ℕ) (c : Closer) (s : Machine)
    → s.closer ≡ c
    → NearEnd n c
    → NearEnd n (close_move n c s).closer
unfolding close_move
close-NearEnd n not_begun s e h = absurd (omega (arith, h))
close-NearEnd n (rejecting k) s e h = absurd (omega (arith, h))
close-NearEnd n stopping s e h = absurd (omega (arith, h))
close-NearEnd n (awaiting k) s e h = elim (Bool-cases (leb k n)) [
  | inl g ↦ elim (Bool-cases (same (state_of s.system k) quit)) [
    | inl q ↦ rw (g, q) (omega (arith, h))
    | inr q ↦ rw (g, q, e) h
  ]
  | inr g ↦ rw g omega arith
]
close-NearEnd n ended s e h = rw e omega arith

closer-sinks :
    (n : ℕ) (c : Closer) (s : Machine)
    → s.closer ≡ c
    → ((k : ℕ) → k ≤ n → state_of s.system k ≡ quit)
    → closer_rank n (close_move n c s).closer ≤ closer_rank n c - 1
unfolding close_move
closer-sinks n not_begun s e quits = omega arith
closer-sinks n (rejecting k) s e quits = elim (Bool-cases (leb k n)) [
  | inl g ↦ let le : k ≤ n = ground (arith, g) in rw g (omega (arith, le))
  | inr g ↦ rw g omega arith
]
closer-sinks n stopping s e quits = omega arith
closer-sinks n (awaiting k) s e quits = elim (Bool-cases (leb k n)) [
  | inl g ↦
      let le : k ≤ n = ground (arith, g) in
      let found : same (state_of s.system k) quit ≡ true =
        ap is_quit (quits k le) ∙ same_refl quit in
      rw (g, found) (omega (arith, le))
  | inr g ↦ rw g omega arith
]
closer-sinks n ended s e quits = rw e omega arith

module _ (limits : Limits) (over : ℕ → ℕ → ℕ) (n : ℕ) where
  move-closer_rank :
      (m : Move) (s : Machine)
      → Gone limits over n s
      → closer_rank n (move limits over n m s).closer
        ≤ closer_rank n s.closer - (if serves the_closer m then 1 else 0)
  unfolding move
  move-closer_rank (first any_todo flush) s h =
      omega
        (arith, ap (closer_rank n) (first_shape limits over n any_todo flush s.system.master s).1)
  move-closer_rank (other j) s h =
      omega (arith, ap (closer_rank n) (other_shape limits over n j s).1)
  move-closer_rank closes s h = closer-sinks n s.closer s refl (Gone-state_of limits over n s h)

  -- Who waits for Quit does not go back.
  move-NearEnd :
      (m : Move) (s : Machine) → NearEnd n s.closer → NearEnd n (move limits over n m s).closer
  unfolding move
  move-NearEnd (first any_todo flush) s h =
      subst (NearEnd n) (sym (first_shape limits over n any_todo flush s.system.master s).1) h
  move-NearEnd (other j) s h = subst (NearEnd n) (sym (other_shape limits over n j s).1) h
  move-NearEnd closes s h = close-NearEnd n s.closer s refl h

  way-bound : (pc : MasterPc) (w : ℕ → Local) → way n pc w ≤ 4 * n + 2
  way-bound (in_body entry) w = omega arith
  way-bound (scanning entry next) w = omega (arith, ranks-bound n w)
  way-bound (deciding entry) w = omega (arith, ranks-bound n w)

  -- The three parts of a run: until the first worker leaves, until the others do, and until the
  -- destructor is at its end.
  leaves :
      (mss : List (List Move)) (s : Machine)
      → Closed limits over n s
      → limits.lower < 2 ^ 63
      → s.mind.round_idle ≤ 73
      → AreBlocks n mss
      → length mss ≡ 229 * (4 * n + 3) + (4 * n + 2)
      → Leaving limits over n (run_blocks limits over n mss s)
  leaves mss s h low idle_rounds blocks enough = record {
    closed =
        run_blocks-keep limits over n (Closed limits over n) (move-Closed limits over n) mss s h;
    left = run_blocks-Left limits over n mss s h blocks (
        inr (record {
          turns = 229;
          quits = reached-QuitsIn limits over low s.mind idle_rounds h.sound.reached;
          within = omega (arith, enough, way-bound s.system.master s.system.worker);
        }));
  }

  empties :
      (mss : List (List Move)) (s : Machine)
      → Leaving limits over n s
      → AreBlocks n mss
      → length mss ≡ 6
      → Gone limits over n (run_blocks limits over n mss s)
  empties mss s h blocks enough = record {
    leaving =
        run_blocks-keep limits over n (Leaving limits over n) (move-Leaving limits over n) mss s h;
    all_out = λ i lt. omega (
      arith,
      enough,
      exit_rank-bound (s.system.worker i).pc,
      run_blocks-falls limits over n (Leaving limits over n) (to_exit limits over n i) (the_other i)
          (move-Leaving limits over n) (move-to_exit limits over n i lt) mss s h
          (λ ms b. b.by_others i lt) blocks,
    );
  }

  ends :
      (mss : List (List Move)) (s : Machine)
      → Gone limits over n s
      → AreBlocks n mss
      → closer_rank n s.closer ≤ length mss
      → (run_blocks limits over n mss s).closer ≡ ended
  ends mss s h blocks enough = closer_rank-ended n (run_blocks limits over n mss s).closer (
      omega (
        arith,
        enough,
        run_blocks-falls limits over n (Gone limits over n) (λ t. closer_rank n t.closer) the_closer
            (move-Gone limits over n) move-closer_rank mss s h (λ ms b. b.by_closer) blocks,
      ))

-- How many blocks are enough: 229 turns of the first worker's loop, and the end of all others
abbrev pub enough_blocks : ℕ → ℕ
enough_blocks n = 230 * (4 * n + 3) + n + 7

-- Everything is as the destructor leaves it.
pub record Returned (n : ℕ) (s : Machine) : Type 0 where
  pub closer : s.closer ≡ ended
  pub rejects : s.rejects ≡ n + 1
  pub published : s.system.published ≡ quit
  pub workers :
      (i : ℕ) → i < n → ((s.system.worker i).state ≡ quit) × ((s.system.worker i).pc ≡ at_work quit)

module _ (limits : Limits) (over : ℕ → ℕ → ℕ) (n : ℕ) where
  Gone-Returned : (s : Machine) → Gone limits over n s → s.closer ≡ ended → Returned n s
  Gone-Returned s h e = record {
    closer = e;
    rejects = (subst (λ c. CloseOk n c s.ready s.rejects) e h.leaving.closed.sound.close_ok).1;
    published = Leaving-published limits over n s h.leaving;
    workers = Gone-worker limits over n s h;
  }

  returns :
      (mss : List (List Move)) (s : Machine)
      → Closed limits over n s
      → limits.lower < 2 ^ 63
      → s.mind.round_idle ≤ 73
      → NearEnd n s.closer
      → AreBlocks n mss
      → enough_blocks n ≤ length mss
      → Returned n (run_blocks limits over n mss s)
  returns mss s h low idle_rounds near_end blocks enough =
      let a =
        blocks-Split limits over n (229 * (4 * n + 3) + (4 * n + 2)) mss blocks
          (omega (arith, enough)) in
      let t = run_blocks limits over n a.front s in
      let b =
        blocks-Split limits over n 6 a.back a.back_ok (omega (arith, enough, a.back_length)) in
      let u = run_blocks limits over n b.front t in
      let leaving = leaves limits over n a.front s h low idle_rounds a.front_ok a.front_length in
      let gone = empties limits over n b.front t leaving b.front_ok b.front_length in
      let last : closer_rank n u.closer ≤ length b.back = omega (
        arith,
        enough,
        run_blocks-keep limits over n (λ x. NearEnd n x.closer) (move-NearEnd limits over n) b.front
            t
            (run_blocks-keep limits over n (λ x. NearEnd n x.closer) (move-NearEnd limits over n)
              a.front s near_end),
        a.back_length,
        b.back_length,
      ) in
      subst (Returned n) (sym (a.joined s ∙ b.joined t)) (
        Gone-Returned (run_blocks limits over n b.back u)
          (run_blocks-keep limits over n (Gone limits over n) (move-Gone limits over n) b.back u
            gone)
          (ends limits over n b.back u gone b.back_ok last))

-- The workers, the first of which decides on any inputs, and the destructor of the controller move in
-- any order from the end of the constructor to a state in which the destructor has stored `reject` of
-- every worker and `ready`, and is about to wait; the lower limit is below 2^63 and at most 73 rounds
-- were idle in a row. Then come `enough_blocks` blocks of moves or more, in each of which every worker
-- and the destructor move at least once, in any order. Behind them the destructor has returned, every
-- worker rejects, the first worker publishes Quit, and every other one has stored Quit as its state and
-- left its loop.
pub destructor-Returned :
    (limits : Limits) (over : ℕ → ℕ → ℕ) (n : ℕ) (before : List Move) (blocks : List (List Move))
    → limits.lower < 2 ^ 63
    → (run_moves limits over n before built).mind.round_idle ≤ 73
    → (run_moves limits over n before built).closer ≡ awaiting 0
    → AreBlocks n blocks
    → enough_blocks n ≤ length blocks
    → Returned n (run_blocks limits over n blocks (run_moves limits over n before built))
destructor-Returned limits over n before blocks low idle_rounds waits are_blocks enough =
    let s = run_moves limits over n before built in
    let sound = run_moves-Sound limits over n before built (built-Sound limits over n) in
    let closing = (subst (λ c. CloseOk n c s.ready s.rejects) waits sound.close_ok).0 in
    let near_end : NearEnd n s.closer = omega (arith, ap (closer_rank n) waits) in
    returns limits over n blocks s (record { sound = sound; closing = closing }) low idle_rounds
      near_end are_blocks enough
