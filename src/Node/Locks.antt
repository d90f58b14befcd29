-- ===== src/Node/Locks.antt =====
-- The lock counters above a node: the walk of the task that BTreeNodeBase::unlock pushes, in
-- src/backup/BTreeNodeBase.cpp. The list has the counters `lck` from the parent of the node up to the
-- root, or up to a node that is its own parent, where the walk ends too.
use aiotest.Prelude.{
  ℕ, zero, suc, ◌+◌, ◌-◌, ◌^◌, ◌<◌, ◌≡◌, refl, ap, Bool, true, false, not, List, [], ◌∷◌, ◌==◌,
  if◌then◌else◌, arith,
}
use aiotest.Prelude.Word.{sub64}

unfoldable pub release : List ℕ → List ℕ
release [] = []
release (lck ∷ above) = let rest = release above in sub64 lck 1 ∷ (if lck == 1 then rest else above)

abbrev pub bit : Bool → ℕ
bit true = 1
bit false = 0

-- The counters as they are meant to be: a node counts its children that are locked, and is locked if
-- that is not 0. `others` are the locked children of each node besides the one on the way, and
-- `locked` says whether the lowest one on the way is.
abbrev pub counters : (others : List ℕ) → (locked : Bool) → List ℕ
counters [] locked = []
counters (o ∷ os) locked = (o + bit locked) ∷ counters os (not (o + bit locked == 0))

abbrev pub AllBelow : ℕ → List ℕ → Type 0
AllBelow b [] = 0 < b
AllBelow b (o ∷ os) = (o < b) × AllBelow b os

-- Releasing a node that is locked makes the counters of all nodes above it what they are meant to be
-- when it is not, if no node has 2^64 - 1 other children that are locked.
pub release-counters :
    (others : List ℕ)
    → AllBelow (2 ^ 64 - 1) others
    → release (counters others true) ≡ counters others false
unfolding release
release-counters [] h = refl
release-counters (zero ∷ os) (h, hs) = ap (λ t. 0 ∷ t) (release-counters os hs)
release-counters (suc o ∷ os) (h, hs) =
    let left : sub64 (suc o + 1) 1 ≡ suc o + 0 = omega (arith, h) in
    let more : (suc o + 1 == 1) ≡ false = ground arith in
    let before : (suc o + 1 == 0) ≡ false = ground arith in
    let after : (suc o + 0 == 0) ≡ false = ground arith in rw (left, more, before, after) refl
