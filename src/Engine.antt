-- ===== src/Engine.antt =====
-- include/backup/IOEngine.hpp: what the caches ask of an engine. `File` is whatever the engine keeps
-- of the file and `bytes` the contents of that file. `read` and `write` return whether they
-- succeeded; a buffer argument comes with the position in it that the pointer names.
pub mod Posix
pub mod Stdio
pub mod Fstream
pub mod Agreement
use aiotest.Prelude.{ℕ, ◌+◌, ◌≤◌, ◌<◌, ◌≡◌, ◌⊎◌, Bool, true}
use aiotest.Prelude.Bytes.{Bytes, copy}

pub record Engine : Type 1 where
  pub File : Type 0
  pub bytes : File → Bytes
  pub read : File → (dat : Bytes) → (to pos len : ℕ) → Bytes × Bool
  pub write : File → (dat : Bytes) → (from pos len : ℕ) → File × Bool
  -- A read that succeeds has filled the buffer from the file; one that fails may have filled a part.
  pub read_done :
      (f : File) (dat : Bytes) (to pos len i : ℕ)
      → (read f dat to pos len).1 ≡ true
      → (read f dat to pos len).0 i ≡ copy dat to (bytes f) pos len i
  pub read_out :
      (f : File) (dat : Bytes) (to pos len i : ℕ)
      → (i < to) ⊎ (to + len ≤ i)
      → (read f dat to pos len).0 i ≡ dat i
  -- A write that succeeds has put the bytes into the file; one that fails may have put some.
  pub write_done :
      (f : File) (dat : Bytes) (from pos len i : ℕ)
      → (write f dat from pos len).1 ≡ true
      → bytes (write f dat from pos len).0 i ≡ copy (bytes f) pos dat from len i
  pub write_out :
      (f : File) (dat : Bytes) (from pos len i : ℕ)
      → (i < pos) ⊎ (pos + len ≤ i)
      → bytes (write f dat from pos len).0 i ≡ bytes f i
