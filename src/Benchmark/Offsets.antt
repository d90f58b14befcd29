-- ===== src/Benchmark/Offsets.antt =====
-- Where the benchmark reads and writes.
use native.Mathlib.Nat.{mod-lt, one-le-pow}
use Prim.Native.Nat.{bit_and}
use aiotest.Prelude.{ℕ, ◌+◌, ◌-◌, ◌%◌, ◌^◌, ◌≤◌, ◌<◌, ◌≡◌, ltb, Bool-cases, inl, inr, arith}
use aiotest.Prelude.Word.{neg64, bit_and_neg, bit_and_none}
use aiotest.Benchmark.{Settings, random_range, randgen}

random_range_lem :
    (s : Settings)
    → s.file_size < 2 ^ 63
    → s.read_size ≤ s.file_size
    → s.write_size ≤ s.file_size
    → (random_range s + s.read_size ≤ s.file_size + 1)
      × (random_range s + s.write_size ≤ s.file_size + 1)
      × (1 ≤ random_range s)
      × (random_range s ≤ 2 ^ 63)
unfolding random_range
random_range_lem s f r w = elim (Bool-cases (ltb s.write_size s.read_size)) [
  | inl e ↦ rw e (ground (arith, e, f, r, w))
  | inr e ↦ rw e (ground (arith, e, f, r, w))
]

rounded : (x m : ℕ) → 1 ≤ m → (x - x % m) % m ≡ 0
rounded x m h = grind arith

-- Drawn with the range that the settings give, for an alignment that is a power of two up to 2^64, the
-- offset is a multiple of the alignment, and a read and a write there stay within the file. The sizes
-- are at most the file's size, which is below 2^63.
randgen-fits :
    (s : Settings) (random k : ℕ)
    → s.file_size < 2 ^ 63
    → s.read_size ≤ s.file_size
    → s.write_size ≤ s.file_size
    → k ≤ 64
    → let offset = randgen (random_range s) random (2 ^ k) in
      (offset % 2 ^ k ≡ 0)
      × (offset + s.read_size ≤ s.file_size)
      × (offset + s.write_size ≤ s.file_size)
unfolding randgen
randgen-fits s random k f r w hk =
    let x = random % random_range s in
    let (fits_read, fits_write, some_offset, small) = random_range_lem s f r w in
    let drawn : x < random_range s = mod-lt random some_offset in
    let e : bit_and x (neg64 (2 ^ k)) ≡ x - x % 2 ^ k =
      bit_and_neg k x hk (omega (arith, drawn, small)) in
    rw e (
      rounded x (2 ^ k) (one-le-pow k 2 (omega arith)),
      omega (arith, drawn, fits_read),
      omega (arith, drawn, fits_write),
    )

-- An alignment of 0, which is the default of the function, gives the offset 0 whatever was drawn.
pub randgen-unaligned : (range random : ℕ) → randgen range random 0 ≡ 0
unfolding randgen
randgen-unaligned range random = bit_and_none (random % range) (random % range) (omega arith)
