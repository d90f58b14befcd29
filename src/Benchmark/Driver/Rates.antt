-- ===== src/Benchmark/Driver/Rates.antt =====
-- When a round is due, by rates that are powers of two: the masks of test/multi_thread_comp.cpp.
use Prim.Native.Nat.{bit_and}
use native.Mathlib.Nat.{
  zero-mod, mod-add-mod, mod-mod_of_dvd, dvd_of_mod-eq-zero, le-mul_of_pos_right, one-le-pow,
  mul-mod_right,
}
use aiotest.Prelude.{ℕ, ◌+◌, ◌-◌, ◌*◌, ◌%◌, ◌^◌, ◌≤◌, ◌<◌, ◌≡◌, sym, ap, ◌∙◌, ◌==◌, arith}
use aiotest.Prelude.Word.{sub64, bit_and_low, pow-add}
use aiotest.Benchmark.Driver.{on_rate}

-- A power of two below 2^64, and a multiple of a smaller one.
pub pow_step : (a b : ℕ) → a ≤ b → 2 ^ a * 2 ^ (b - a) ≡ 2 ^ b
pow_step a b h =
    let e : a + (b - a) ≡ b = omega arith in sym (pow-add a (b - a)) ∙ ap (λ e. 2 ^ e) e

pub pow-le : (a b : ℕ) → a ≤ b → 2 ^ a ≤ 2 ^ b
pow-le a b h =
    let grows =
      le-mul_of_pos_right {m = 2 ^ (b - a)} (2 ^ a) (one-le-pow (b - a) 2 (omega arith)) in
    omega (arith, grows, pow_step a b h)

pub mask_lem : (i k : ℕ) → k < 64 → bit_and i (sub64 (2 ^ k) 1) ≡ i % 2 ^ k
mask_lem i k h =
    let small : 2 ^ k ≤ 2 ^ 63 = pow-le k 63 (omega (arith, h)) in
    let pred : sub64 (2 ^ k) 1 ≡ 2 ^ k - 1 = omega (arith, small, one-le-pow k 2) in
    ap (bit_and i) pred ∙ bit_and_low k i

pub on_rate_lem : (i k : ℕ) → k < 64 → on_rate i (2 ^ k) ≡ (i % 2 ^ k == 0)
unfolding on_rate
on_rate_lem i k h = ap (λ x. x == 0) (mask_lem i k h)

pub pow-mod : (a b : ℕ) → a ≤ b → 2 ^ b % 2 ^ a ≡ 0
pow-mod a b h = ap (λ x. x % 2 ^ a) (sym (pow_step a b h)) ∙ mul-mod_right (2 ^ a) (2 ^ (b - a))

-- A multiple of a larger power is one of a smaller.
pub mod_mod_pow : (a b n : ℕ) → a ≤ b → n % 2 ^ b ≡ 0 → n % 2 ^ a ≡ 0
mod_mod_pow a b n h e =
    sym (mod-mod_of_dvd (2 ^ a) n (dvd_of_mod-eq-zero (2 ^ a) (pow-mod a b h)))
    ∙ ap (λ x. x % 2 ^ a) e
    ∙ zero-mod (2 ^ a)

-- From a multiple of `w` on, the next one is `w` further.
pub mod_shift : (w m r : ℕ) → m % w ≡ 0 → (m + r) % w ≡ r % w
mod_shift w m r e =
    let start : 0 + r ≡ r = omega arith in
    sym (mod-add-mod m w r) ∙ ap (λ x. (x + r) % w) e ∙ ap (λ x. x % w) start
