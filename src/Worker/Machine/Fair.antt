-- ===== src/Worker/Machine/Fair.antt =====
-- Blocks of moves in which everyone moves at least once, in any order, and what they do to a property
-- or a number that every move keeps.
use Prim.{absurd}
use aiotest.Prelude.{
  ℕ, zero, suc, ◌-◌, ◌≤◌, ◌<◌, ◌≡◌, refl, Bool, true, false, ◌||◌, if◌then◌else◌, List, [], ◌∷◌,
  length, arith,
}
use aiotest.Controller.{Limits}
use aiotest.Worker.Machine.{Machine, Move, move, run_moves}
use aiotest.Worker.Machine.Way.{Who, the_first, the_closer, the_other, serves}

abbrev pub has : Who → List Move → Bool
has who [] = false
has who (m ∷ ms) = serves who m || has who ms

-- Everyone moves at least once.
pub record IsBlock (n : ℕ) (ms : List Move) : Type 0 where
  pub by_first : has the_first ms ≡ true
  pub by_others : (i : ℕ) → i < n → has (the_other i) ms ≡ true
  pub by_closer : has the_closer ms ≡ true

abbrev pub AreBlocks : ℕ → List (List Move) → Type 0
AreBlocks n [] = Unit
AreBlocks n (ms ∷ mss) = IsBlock n ms × AreBlocks n mss

module _ (limits : Limits) (over : ℕ → ℕ → ℕ) (n : ℕ) where
  -- One block after the other
  abbrev pub run_blocks : List (List Move) → Machine → Machine
  run_blocks [] s = s
  run_blocks (ms ∷ mss) s = run_blocks mss (run_moves limits over n ms s)

  -- What every move keeps holds behind any moves.
  module _ (Ok : Machine → Type 0)
      (keep : (m : Move) (s : Machine) → Ok s → Ok (move limits over n m s)) where
    pub run-keep : (ms : List Move) (s : Machine) → Ok s → Ok (run_moves limits over n ms s)
    unfolding run_moves
    run-keep [] s h = h
    run-keep (m ∷ ms) s h = run-keep ms (move limits over n m s) (keep m s h)

    pub run_blocks-keep : (mss : List (List Move)) (s : Machine) → Ok s → Ok (run_blocks mss s)
    run_blocks-keep [] s h = h
    run_blocks-keep (ms ∷ mss) s h =
        run_blocks-keep mss (run_moves limits over n ms s) (run-keep ms s h)

  -- A number that no move lets grow, and that each move of `who` brings down.
  module _ (Ok : Machine → Type 0) (left : Machine → ℕ) (who : Who)
      (keep : (m : Move) (s : Machine) → Ok s → Ok (move limits over n m s))
      (falls : (m : Move) (s : Machine)
        → Ok s
        → left (move limits over n m s) ≤ left s - (if serves who m then 1 else 0)) where
    run-falls :
        (ms : List Move) (s : Machine)
        → Ok s
        → left (run_moves limits over n ms s) ≤ left s - (if has who ms then 1 else 0)
    unfolding run_moves
    run-falls [] s h = omega arith
    run-falls (m ∷ ms) s h =
        ground (arith, falls m s h, run-falls ms (move limits over n m s) (keep m s h))

    pub run_blocks-falls :
        (mss : List (List Move)) (s : Machine)
        → Ok s
        → ((ms : List Move) → IsBlock n ms → has who ms ≡ true)
        → AreBlocks n mss
        → left (run_blocks mss s) ≤ left s - length mss
    run_blocks-falls [] s h comes blocks = omega arith
    run_blocks-falls (ms ∷ mss) s h comes (block, blocks) = ground (
      arith,
      comes ms block,
      run-falls ms s h,
      run_blocks-falls mss (run_moves limits over n ms s) (run-keep Ok keep ms s h) comes blocks,
    )

  pub record Split (b : ℕ) (mss : List (List Move)) : Type 0 where
    pub front : List (List Move)
    pub back : List (List Move)
    pub front_ok : AreBlocks n front
    pub back_ok : AreBlocks n back
    pub front_length : length front ≡ b
    pub back_length : length back ≡ length mss - b
    pub joined : (s : Machine) → run_blocks mss s ≡ run_blocks back (run_blocks front s)

  pub blocks-Split :
      (b : ℕ) (mss : List (List Move)) → AreBlocks n mss → b ≤ length mss → Split b mss
  blocks-Split zero mss blocks le = record {
    front = [];
    back = mss;
    front_ok = tt;
    back_ok = blocks;
    front_length = refl;
    back_length = omega arith;
    joined = λ s. refl;
  }
  blocks-Split (suc b) [] blocks le = absurd (omega (arith, le))
  blocks-Split (suc b) (ms ∷ mss) (block, blocks) le =
      let rest = blocks-Split b mss blocks (omega (arith, le)) in
      record {
        front = ms ∷ rest.front;
        back = rest.back;
        front_ok = (block, rest.front_ok);
        back_ok = rest.back_ok;
        front_length = omega (arith, rest.front_length);
        back_length = omega (arith, rest.back_length);
        joined = λ s. rest.joined (run_moves limits over n ms s);
      }
