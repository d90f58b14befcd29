-- ===== src/Engine/Posix.antt =====
-- POSIXEngine and NullEngine of include/backup/IOEngine.hpp. The calls of the system are a parameter.
use Prim.{absurd}
use Prim.Native.Nat.{bit_and, bit_or}
use aiotest.Prelude.{
  ℕ, ◌+◌, ◌-◌, ◌^◌, ◌≤◌, ◌<◌, ◌≡◌, ap, ◌⊎◌, Bool, true, ◌==◌, Option, none, some, if◌then◌else◌,
  arith,
}
use aiotest.Prelude.Bytes.{Bytes, copy}

-- What pread and pwrite return: -1, or how many bytes they moved.
pub data Returned : Type 0 where
  failed : Returned
  moved : (count : ℕ) → Returned

-- The system, as far as it is about one path. A descriptor that is -1 is `none`.
pub record Kernel : Type 1 where
  pub File : Type 0
  pub bytes : File → Bytes
  pub o_creat : ℕ
  pub o_rdwr : ℕ
  pub o_rdonly : ℕ
  pub o_sync : ℕ
  pub open_file : File → (flags : ℕ) → File × Option ℕ
  -- lseek(fd, 0, SEEK_END), as a size_t
  pub seek_end : File → (fd : ℕ) → ℕ
  pub pread : File → (fd : Option ℕ) → (dat : Bytes) → (to count pos : ℕ) → Bytes × Returned
  pub pwrite : File → (fd : Option ℕ) → (dat : Bytes) → (from count pos : ℕ) → File × Returned
  -- whether fsync returned 0
  pub fsync : File → (fd : Option ℕ) → Bool
  -- The bytes counted are in the buffer, which is otherwise as it was beyond `count` bytes.
  pub pread_moved :
      (f : File) (fd : Option ℕ) (dat : Bytes) (to count pos k i : ℕ)
      → (pread f fd dat to count pos).1 ≡ moved k
      → to ≤ i
      → i < to + k
      → (pread f fd dat to count pos).0 i ≡ bytes f (pos + (i - to))
  pub pread_out :
      (f : File) (fd : Option ℕ) (dat : Bytes) (to count pos i : ℕ)
      → (i < to) ⊎ (to + count ≤ i)
      → (pread f fd dat to count pos).0 i ≡ dat i
  -- The bytes counted are in the file, which is otherwise as it was beyond `count` bytes.
  pub pwrite_moved :
      (f : File) (fd : Option ℕ) (dat : Bytes) (from count pos k i : ℕ)
      → (pwrite f fd dat from count pos).1 ≡ moved k
      → pos ≤ i
      → i < pos + k
      → bytes (pwrite f fd dat from count pos).0 i ≡ dat (from + (i - pos))
  pub pwrite_out :
      (f : File) (fd : Option ℕ) (dat : Bytes) (from count pos i : ℕ)
      → (i < pos) ⊎ (pos + count ≤ i)
      → bytes (pwrite f fd dat from count pos).0 i ≡ bytes f i

-- The members of the engine, `path` aside.
pub record PosixEngine : Type 0 where
  pub flags : ℕ
  pub fd : Option ℕ
  pub size : ℕ

-- `r == len`, where -1 becomes a word.
abbrev pub is_count : Returned → (len : ℕ) → Bool
is_count failed len = 2 ^ 64 - 1 == len
is_count (moved count) len = count == len

module _ (K : Kernel) where
  -- `loadSize`
  unfoldable pub load_size : K.File → PosixEngine → PosixEngine
  load_size f e = elim e.fd [ none ↦ e | some d ↦ record e { size = K.seek_end f d } ]

  -- The constructor that opens the path with flags of the caller.
  unfoldable pub open_with : K.File → (flags : ℕ) → K.File × PosixEngine
  open_with f flags =
      let o = K.open_file f flags in
      (o.0, load_size o.0 (record { flags = flags; fd = o.1; size = 0 }))

  -- The constructor that opens the path for writing or else for reading.
  unfoldable pub open_path : K.File → K.File × PosixEngine
  open_path f =
      let flags = bit_or K.o_creat K.o_rdwr in
      let o = K.open_file f flags in
      elim o.1 [
        | none ↦ open_with o.0 (bit_or K.o_creat K.o_rdonly)
        | some d ↦ (o.0, load_size o.0 (record { flags = flags; fd = some d; size = 0 }))
      ]

  -- The constructor that takes a descriptor.
  unfoldable pub of_descriptor : K.File → (fd : Option ℕ) → PosixEngine
  of_descriptor f fd = load_size f (record { flags = 0; fd = fd; size = 0 })

  unfoldable pub posix_read : PosixEngine → K.File → (dat : Bytes) → (to pos len : ℕ) → Bytes × Bool
  posix_read e f dat to pos len = let r = K.pread f e.fd dat to len pos in (r.0, is_count r.1 len)

  unfoldable pub posix_write :
      PosixEngine → K.File → (dat : Bytes) → (from pos len : ℕ) → K.File × Bool
  posix_write e f dat from pos len =
      let r = K.pwrite f e.fd dat from len pos in (r.0, is_count r.1 len)

  unfoldable pub posix_fsync : PosixEngine → K.File → Bool
  posix_fsync e f = if bit_and e.flags K.o_sync == K.o_sync then true else K.fsync f e.fd

-- NullEngine does nothing and reports success.
abbrev pub null_size : ℕ
null_size = 2 ^ 64 - 1

abbrev pub null_read : (dat : Bytes) → (to pos len : ℕ) → Bytes × Bool
null_read dat to pos len = (dat, true)

abbrev pub null_write : {File : Type 0} → File → (dat : Bytes) → (from pos len : ℕ) → File × Bool
null_write f dat from pos len = (f, true)

is_count-moved : (r : Returned) (len : ℕ) → len < 2 ^ 64 - 1 → is_count r len ≡ true → r ≡ moved len
is_count-moved failed len small e = absurd (ground (arith, e, small))
is_count-moved (moved count) len small e = ap moved (ground (arith, e))

module _ (K : Kernel) (e : PosixEngine) (f : K.File) (dat : Bytes) (at pos len : ℕ)
    (small : len < 2 ^ 64 - 1) where
  -- A read of fewer than 2^64 - 1 bytes by a POSIXEngine that reports success, whatever its descriptor: it
  -- has put those bytes of the file into the buffer and has left the rest of the buffer as it was. So a
  -- short count is never taken for success.
  pub posix_read_done :
      (posix_read K e f dat at pos len).1 ≡ true
      → (i : ℕ) → (posix_read K e f dat at pos len).0 i ≡ copy dat at (K.bytes f) pos len i
  unfolding posix_read
  posix_read_done ok i =
      let all : (K.pread f e.fd dat at len pos).1 ≡ moved len = is_count-moved _ len small ok in
      ground
        (arith, K.pread_moved f e.fd dat at len pos len i all, K.pread_out f e.fd dat at len pos i)

  -- A write of fewer than 2^64 - 1 bytes by a POSIXEngine that reports success, whatever its descriptor: it
  -- has put those bytes of the buffer into the file and has left the rest of the file as it was.
  pub posix_write_done :
      (posix_write K e f dat at pos len).1 ≡ true
      → (i : ℕ) → K.bytes (posix_write K e f dat at pos len).0 i ≡ copy (K.bytes f) pos dat at len i
  unfolding posix_write
  posix_write_done ok i =
      let all : (K.pwrite f e.fd dat at len pos).1 ≡ moved len = is_count-moved _ len small ok in
      ground (
        arith,
        K.pwrite_moved f e.fd dat at len pos len i all,
        K.pwrite_out f e.fd dat at len pos i,
      )
