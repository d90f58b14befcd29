-- ===== src/Node/Ranges.antt =====
-- The range of children that a request meets, and where the parts of the request begin.
use native.Mathlib.Nat.{one-le-pow, div-add-mod', le-div_iff_mul-le, div-lt_iff_lt-mul}
use Prim.Native.Nat.{bit_and}
use aiotest.Prelude.{ℕ, ◌+◌, ◌-◌, ◌*◌, ◌/◌, ◌^◌, ◌≤◌, ◌<◌, ◌≡◌, ◌∙◌, ap, ◌==◌, if◌then◌else◌, arith}
use aiotest.Prelude.Word.{sub64, neg64, bit_and_low, bit_and_neg, bit_xor_low, bit_xor_shift}
use aiotest.Node.Arithmetic.{index_lem, neg-mod, shift-mul}
use aiotest.Node.{get_range, child_offset}

-- A request of an inner node: the node starts at `q * 2 ^ n` children, and covers `2 ^ n` of them.
pub record InNode (n m q begin end : ℕ) : Type 0 where
  pub width : n + m ≤ 64
  pub low : q * 2 ^ n * 2 ^ m ≤ begin
  pub order : begin < end
  pub high : end ≤ (q * 2 ^ n + 2 ^ n) * 2 ^ m
  pub word : end < 2 ^ 64

module _ {n m q begin end : ℕ} (r : InNode n m q begin end) where
  abbrev pub start : ℕ
  start = q * 2 ^ n * 2 ^ m

  pub child_pos : 0 < 2 ^ m
  child_pos = one-le-pow m 2 (omega arith)

  pub child_offset_lem : (i : ℕ) → i < 2 ^ n → child_offset m start i ≡ start + i * 2 ^ m
  child_offset_lem i h =
      bit_xor_shift m (q * 2 ^ n) i ∙ ap (λ x. x * 2 ^ m) (bit_xor_low n q i h) ∙ grind arith

  pub first_lem : (get_range n m begin end).0 ≡ begin / 2 ^ m - q * 2 ^ n
  unfolding get_range
  first_lem =
      index_lem n q (begin / 2 ^ m) ((le-div_iff_mul-le child_pos).1 r.low)
        ((div-lt_iff_lt-mul child_pos).1 (omega arith))

  pub last_lem : (get_range n m begin end).1 ≡ (end - 1) / 2 ^ m - q * 2 ^ n
  unfolding get_range
  last_lem =
      ap (λ x. bit_and (x / 2 ^ m) (2 ^ n - 1)) last_byte
      ∙ index_lem n q ((end - 1) / 2 ^ m) ((le-div_iff_mul-le child_pos).1 (omega arith))
          ((div-lt_iff_lt-mul child_pos).1 (omega arith))
    where
      last_byte : sub64 end 1 ≡ end - 1
      last_byte = omega arith

  pub first_byte : bit_and begin (neg64 (2 ^ m)) ≡ begin / 2 ^ m * 2 ^ m
  first_byte = bit_and_neg m begin (omega arith) (omega arith) ∙ grind arith

  pub last_start : bit_and (sub64 end 1) (neg64 (2 ^ m)) ≡ (end - 1) / 2 ^ m * 2 ^ m
  last_start =
      let e : sub64 end 1 ≡ end - 1 = omega arith in
      rw e (bit_and_neg m (end - 1) (omega arith) (omega arith) ∙ grind arith)

  pub suffix_lem :
      (if bit_and begin (2 ^ m - 1) == 0 then 2 ^ m else bit_and (neg64 begin) (2 ^ m - 1))
      ≡ begin / 2 ^ m * 2 ^ m + 2 ^ m - begin
  suffix_lem =
      rw (bit_and_low m begin, bit_and_low m (neg64 begin))
        (ground (arith, child_pos, neg-mod m begin (omega arith) (omega arith)))

  abbrev pub first : ℕ
  first = begin / 2 ^ m - q * 2 ^ n

  abbrev pub last : ℕ
  last = (end - 1) / 2 ^ m - q * 2 ^ n

  pub range_lem :
      (first ≤ last)
      × (last < 2 ^ n)
      × (start + first * 2 ^ m ≡ begin / 2 ^ m * 2 ^ m)
      × (start + last * 2 ^ m ≡ (end - 1) / 2 ^ m * 2 ^ m)
  range_lem = (
    omega (arith, in_order),
    omega (arith, above_first, in_order, below_last),
    shift-mul (q * 2 ^ n) (begin / 2 ^ m) (2 ^ m) above_first,
    shift-mul (q * 2 ^ n) ((end - 1) / 2 ^ m) (2 ^ m) (omega (arith, above_first, in_order)),
  )
    where
      above_first : q * 2 ^ n ≤ begin / 2 ^ m
      above_first = (le-div_iff_mul-le child_pos).1 r.low

      in_order : begin / 2 ^ m ≤ (end - 1) / 2 ^ m
      in_order = (le-div_iff_mul-le child_pos).1 (omega (arith, div-add-mod' begin (2 ^ m)))

      below_last : (end - 1) / 2 ^ m < q * 2 ^ n + 2 ^ n
      below_last = (div-lt_iff_lt-mul child_pos).1 (omega arith)
