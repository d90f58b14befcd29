-- ===== src/Tests/Trees.antt =====
-- Tests of the identifiers of trees.
use aiotest.Prelude.{ℕ, ◌+◌, ◌≤◌, ◌<◌, ◌≡◌, refl, some, [], ◌∷◌, arith}
use aiotest.Worker.Ids.{count}
use aiotest.Tree.Ids.{
  Registered, Trees, Reach, initially, then_step, makes, destroys, candidate, pick, register,
  unregister, trees-apart,
}

-- The engine gives 5, 6, 7 and so on, and the trees 0, 1 and 2 are made and the second one destroyed.
abbrev from_five : ℕ → ℕ
from_five k = 5 + k

abbrev two_trees : Trees
two_trees = record { ids = record { used = 2 ∷ 0 ∷ []; next = 3 }; live = 2 ∷ 0 ∷ [] }

two_trees-Reach : Reach two_trees
unfolding register unregister pick
two_trees-Reach =
    then_step
      (then_step (then_step (then_step initially (makes 1 from_five refl)) (makes 1 from_five refl))
        (makes 1 from_five refl))
      (destroys 1 (omega arith))

trees-apart_example :
    ((x : ℕ) → count x (2 ∷ 0 ∷ []) ≤ 1)
    × (j : ℕ) × (r : Registered) × (register 4 from_five two_trees.ids
        ≡ some (r, candidate 3 from_five j))
    × (count (candidate 3 from_five j) (2 ∷ 0 ∷ []) ≡ 0)
    × ((i : ℕ) → i < j → 0 < count (candidate 3 from_five i) (2 ∷ 0 ∷ []))
trees-apart_example = trees-apart two_trees 4 from_five 2 two_trees-Reach (omega arith) refl
