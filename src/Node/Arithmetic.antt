-- ===== src/Node/Arithmetic.antt =====
-- Positions, indices and pointers of a node's children, as numbers.
use native.Mathlib.Nat.{one-le-pow, div-add-mod', div-lt_iff_lt-mul}
use Prim.Native.Nat.{bit_and}
use aiotest.Prelude.{ℕ, ◌+◌, ◌-◌, ◌*◌, ◌/◌, ◌%◌, ◌^◌, ◌≤◌, ◌<◌, ◌≡◌, ◌≢◌, ◌∙◌, ap, arith}
use aiotest.Prelude.Word.{neg64, pow_split, bit_and_low}

-- The index of a position among the children, by the mask of the code.
pub index_lem :
    (n q k : ℕ) → q * 2 ^ n ≤ k → k < q * 2 ^ n + 2 ^ n → bit_and k (2 ^ n - 1) ≡ k - q * 2 ^ n
index_lem n q k lo hi = bit_and_low n k ∙ grind arith

pub field-mod : (k d r : ℕ) → r < d → (k * d + r) % d ≡ r
field-mod k d r h = grind arith

pub complement : (m q r d : ℕ) → r ≤ m → m * (q + 1 + d) - (q * m + r) ≡ d * m + (m - r)
complement m q r d h = grind arith

pub neg-mod : (m b : ℕ) → m ≤ 64 → b < 2 ^ 64 → b % 2 ^ m ≢ 0 → neg64 b % 2 ^ m ≡ 2 ^ m - b % 2 ^ m
neg-mod m b le lt ne = whole
  where
    d : ℕ
    d = 2 ^ (64 - m) - b / 2 ^ m - 1

    room : b / 2 ^ m < 2 ^ (64 - m)
    room = (div-lt_iff_lt-mul (one-le-pow m 2 (omega arith))).1 (omega (arith, pow_split m le))

    sum : b / 2 ^ m + 1 + d ≡ 2 ^ (64 - m)
    sum = omega (arith, room)

    parts : 2 ^ 64 - b ≡ d * 2 ^ m + (2 ^ m - b % 2 ^ m)
    parts = omega (
      arith,
      complement (2 ^ m) (b / 2 ^ m) (b % 2 ^ m) d (omega (arith, one-le-pow m 2 (omega arith))),
      pow_split m le,
      ap (λ x. 2 ^ m * x) sum,
      div-add-mod' b (2 ^ m),
    )

    split : neg64 b ≡ d * 2 ^ m + (2 ^ m - b % 2 ^ m)
    split = ground (arith, parts)

    whole : neg64 b % 2 ^ m ≡ 2 ^ m - b % 2 ^ m
    whole =
        rw split
          (field-mod d (2 ^ m) (2 ^ m - b % 2 ^ m) (omega (arith, one-le-pow m 2 (omega arith))))

pub shift-mul : (a k d : ℕ) → a ≤ k → a * d + (k - a) * d ≡ k * d
shift-mul a k d h = grind arith
