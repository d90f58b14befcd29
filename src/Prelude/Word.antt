-- ===== src/Prelude/Word.antt =====
-- 64-bit words: wrapping sum, difference and negation, and the masks `x & N - 1` and `x & -M` and
-- the sum `x ^ y` of disjoint fields as arithmetic.
use Prim.Native.Nat.{
  ℕ, zero, suc, ◌+◌, ◌*◌, ◌-◌, ◌/◌, ◌%◌, ◌^◌, ◌<◌, ◌≤◌, min, differ, bit_and, bit_xor, digits,
  bitwise, bit_and-bitwise, bit_xor-bitwise,
}
use mathlib.Core.Path.{◌≡◌, refl, sym, ap, ap₂, ◌∙◌, ◌≡⟨◌⟩◌, ◌∎}
use native.Mathlib.Nat.{pow-suc, one-le-pow, mod-eq_of_lt}
use native.Mathlib.Omega.{arith}

abbrev pub add64 : ℕ → ℕ → ℕ
add64 a b = (a + b) % 2 ^ 64

abbrev pub sub64 : ℕ → ℕ → ℕ
sub64 a b = (a + 2 ^ 64 - b) % 2 ^ 64

abbrev pub neg64 : ℕ → ℕ
neg64 a = (2 ^ 64 - a) % 2 ^ 64

-- A bitwise operation goes digit by digit; any bound of its first argument is enough rounds.
-- One more digit doubles the weight of what stands above.
scale_suc : (a n : ℕ) → a * 2 ^ suc n ≡ 2 * (a * 2 ^ n)
scale_suc a n = let e : 2 ^ suc n ≡ 2 ^ n * 2 = pow-suc 2 n in rw e (grind arith)

module _ (z : ℕ → ℕ) (op : ℕ → ℕ → ℕ) where
  digits_rounds : (m r x y : ℕ) → x ≤ r → x ≤ m → digits z op r x y ≡ digits z op m x y
  digits_rounds m zero (suc x) y p q = absurd (omega arith)
  digits_rounds zero (suc r) (suc x) y p q = absurd (omega arith)
  digits_rounds (suc m) (suc r) (suc x) y p q =
      rw (digits_rounds m r (suc x / 2) (y / 2) (omega arith) (omega arith))
  digits_rounds zero zero zero y p q = refl
  digits_rounds (suc m) zero zero y p q = refl
  digits_rounds zero (suc r) zero y p q = refl
  digits_rounds (suc m) (suc r) zero y p q = refl

  lowest_digit :
      (x y : ℕ)
      → bitwise z op (suc x) y ≡ bitwise z op (suc x / 2) (y / 2) * 2 + op (suc x % 2) (y % 2)
  lowest_digit x y =
      omega (arith, digits_rounds (suc x / 2) x (suc x / 2) (y / 2) (omega arith) (omega arith))

bit_and_lowest : (x y : ℕ) → bit_and x y ≡ bit_and (x / 2) (y / 2) * 2 + min (x % 2) (y % 2)
bit_and_lowest (suc x) y = simp bit_and-bitwise (lowest_digit (λ b. 0) min x y)
bit_and_lowest zero y = simp bit_and-bitwise (omega arith)

pub bit_and_none : (r x : ℕ) → x ≤ r → bit_and x 0 ≡ 0
bit_and_none r zero p = refl
bit_and_none zero (suc x) p = absurd (omega arith)
bit_and_none (suc r) (suc x) p =
    omega (arith, bit_and_lowest (suc x) 0, bit_and_none r (suc x / 2) (omega arith))

low_field : (k q r : ℕ) → r < 2 ^ k → bit_and (q * 2 ^ k + r) (2 ^ k - 1) ≡ r
low_field zero q r h = omega (arith, bit_and_none (q * 1 + r) (q * 1 + r) (omega arith))
low_field (suc k) q r h = ground (
  arith,
  pow-suc 2 k,
  one-le-pow k 2,
  scale_suc q k,
  low_field k q (r / 2) (omega arith),
  bit_and_lowest (q * 2 ^ suc k + r) (2 ^ suc k - 1),
)

-- `x & N - 1`, for N = 2 ^ k, is the remainder by N.
pub bit_and_low : (k x : ℕ) → bit_and x (2 ^ k - 1) ≡ x % 2 ^ k
bit_and_low k x = ground (arith, low_field k (x / 2 ^ k) (x % 2 ^ k), one-le-pow k 2)

high_field : (k q r h : ℕ) → r < 2 ^ k → bit_and (q * 2 ^ k + r) (h * 2 ^ k) ≡ bit_and q h * 2 ^ k
high_field zero q r h p = ground (arith)
high_field (suc k) q r h p = ground (
  arith,
  pow-suc 2 k,
  scale_suc q k,
  scale_suc h k,
  scale_suc (bit_and q h) k,
  high_field k q (r / 2) h (omega arith),
  bit_and_lowest (q * 2 ^ suc k + r) (h * 2 ^ suc k),
)

bit_xor_lowest : (x y : ℕ) → bit_xor x y ≡ bit_xor (x / 2) (y / 2) * 2 + differ (x % 2) (y % 2)
bit_xor_lowest (suc x) y = simp bit_xor-bitwise (lowest_digit (λ b. b) differ x y)
bit_xor_lowest zero y = simp bit_xor-bitwise (omega arith)

differ_none : (x : ℕ) → differ x 0 ≡ x
differ_none zero = refl
differ_none (suc x) = refl

bit_xor_none : (r x : ℕ) → x ≤ r → bit_xor x 0 ≡ x
bit_xor_none r zero p = refl
bit_xor_none zero (suc x) p = absurd (omega arith)
bit_xor_none (suc r) (suc x) p = ground (
  arith,
  differ_none (suc x % 2),
  bit_xor_lowest (suc x) 0,
  bit_xor_none r (suc x / 2) (omega arith),
)

-- `x ^ r` is a sum when `x` has no digit below the width of `r`.
pub bit_xor_low : (k q r : ℕ) → r < 2 ^ k → bit_xor (q * 2 ^ k) r ≡ q * 2 ^ k + r
bit_xor_low zero q r h = ground (arith, bit_xor_none q q (omega arith))
bit_xor_low (suc k) q r h = ground (
  arith,
  pow-suc 2 k,
  scale_suc q k,
  bit_xor_low k q (r / 2) (omega arith),
  bit_xor_lowest (q * 2 ^ suc k) r,
)

pub bit_xor_shift : (k x y : ℕ) → bit_xor (x * 2 ^ k) (y * 2 ^ k) ≡ bit_xor x y * 2 ^ k
bit_xor_shift zero x y = ground arith
bit_xor_shift (suc k) x y = ground (
  arith,
  scale_suc x k,
  scale_suc y k,
  scale_suc (bit_xor x y) k,
  bit_xor_shift k x y,
  bit_xor_lowest (x * 2 ^ suc k) (y * 2 ^ suc k),
)

pub pow-add : (k j : ℕ) → 2 ^ (k + j) ≡ 2 ^ k * 2 ^ j
pow-add zero j = ground arith
pow-add (suc k) j =
    let e : suc k + j ≡ suc (k + j) = omega arith in
    2 ^ (suc k + j)
    ≡⟨ ap (λ e. 2 ^ e) e ⟩ 2 ^ suc (k + j)
    ≡⟨ grind (arith, pow-suc 2 (k + j), pow-suc 2 k, pow-add k j) ⟩ 2 ^ suc k * 2 ^ j ∎

-- 2 ^ k and the rest of the 64 bits.
pub pow_split : (k : ℕ) → k ≤ 64 → 2 ^ k * 2 ^ (64 - k) ≡ 2 ^ 64
pow_split k h =
    let e : k + (64 - k) ≡ 64 = omega arith in sym (pow-add k (64 - k)) ∙ ap (λ e. 2 ^ e) e

pred-mul : (a b : ℕ) → 1 ≤ a → (a - 1) * b + b ≡ b * a
pred-mul zero b h = absurd (omega arith)
pred-mul (suc a) b h = ground arith

-- `x & -M`, for M = 2 ^ k, takes the remainder by M off.
pub bit_and_neg : (k x : ℕ) → k ≤ 64 → x < 2 ^ 64 → bit_and x (neg64 (2 ^ k)) ≡ x - x % 2 ^ k
bit_and_neg k x h lt =
    high
    ∙ ground
        (arith, pow_split k h, one-le-pow k 2, bit_and_low (64 - k) q, below, mod-eq_of_lt below)
  where
    q : ℕ
    q = x / 2 ^ k

    below : q < 2 ^ (64 - k)
    below = grind (arith, pow_split k h, one-le-pow k 2)

    number : x ≡ q * 2 ^ k + x % 2 ^ k
    number = grind (arith, one-le-pow k 2)

    mask : neg64 (2 ^ k) ≡ (2 ^ (64 - k) - 1) * 2 ^ k
    mask = omega (
      arith,
      pow_split k h,
      one-le-pow k 2,
      one-le-pow (64 - k) 2,
      pred-mul (2 ^ (64 - k)) (2 ^ k) (one-le-pow (64 - k) 2 (omega arith)),
    )

    high : bit_and x (neg64 (2 ^ k)) ≡ bit_and q (2 ^ (64 - k) - 1) * 2 ^ k
    high =
        ap₂ bit_and number mask
        ∙ high_field k q (x % 2 ^ k) (2 ^ (64 - k) - 1) (grind (arith, one-le-pow k 2))
