-- ===== src/Prelude/Bytes.antt =====
-- Memory and file contents as functions from positions, and `memcpy`.
use Prim.Native.Nat.{ℕ, ◌+◌, ◌-◌}
use mathlib.Core.Bool.{◌&&◌}
use aiotest.Prelude.Tests.{leb, ltb, if◌then◌else◌}

abbrev pub Bytes : Type 0
Bytes = ℕ → ℕ

-- memcpy(dst + to, src + from, len), on `dst` and `src` that do not overlap.
abbrev pub copy : (dst : Bytes) (to : ℕ) (src : Bytes) (from len : ℕ) → Bytes
copy dst to src from len i = if leb to i && ltb i (to + len) then src (from + (i - to)) else dst i
