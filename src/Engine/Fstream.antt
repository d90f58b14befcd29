-- ===== src/Engine/Fstream.antt =====
-- STLEngine of include/backup/IOEngine.hpp and src/backup/IOEngine.cpp. The std::fstream of a thread is a
-- parameter, with the file behind it.
use aiotest.Prelude.{
  ℕ, ◌+◌, ◌-◌, ◌≡◌, refl, sym, ◌∙◌, ◌⊎◌, inl, inr, Bool-cases, Bool, true, false, not, ◌||◌,
  if◌then◌else◌, arith,
}
use aiotest.Prelude.Bytes.{Bytes, copy}

-- in, in | out and out | trunc, each binary
pub data Openmode : Type 0 where
  input both output : Openmode

pub record Fstream : Type 1 where
  pub State : Type 0
  -- The contents of the file, as the stream sees them, with what stands in its buffer.
  pub bytes : State → Bytes
  -- The contents of the file itself, which others see.
  pub stored : State → Bytes
  pub position : State → ℕ
  pub is_open : State → Bool
  pub bad : State → Bool  -- operator!
  pub open_file : State → Openmode → State
  pub close : State → State
  pub seek : State → (pos : ℕ) → State  -- seekg and seekp, which are one position in a file
  pub tell_end : State → ℕ  -- seekg(0, end).tellg()
  pub read : State → (dat : Bytes) → (to len : ℕ) → State × Bytes
  pub write : State → (dat : Bytes) → (from len : ℕ) → State
  pub flush : State → State
  -- Without an open file, and when one has just been opened, nothing stands in the buffer. Opening to read
  -- leaves the file as it is.
  pub closed_sees : (s : State) (i : ℕ) → is_open s ≡ false → bytes s i ≡ stored s i
  pub opened_sees :
      (s : State) (mode : Openmode) (i : ℕ)
      → is_open s ≡ false
      → bytes (open_file s mode) i ≡ stored (open_file s mode) i
  pub both_keeps :
      (s : State) (i : ℕ) → is_open s ≡ false → stored (open_file s both) i ≡ stored s i
  pub input_keeps :
      (s : State) (i : ℕ) → is_open s ≡ false → stored (open_file s input) i ≡ stored s i
  -- A flush or a close after which the stream is good has brought all into the file.
  pub flush_bad : (s : State) → bad (flush s) ≡ false → bad s ≡ false
  pub flush_keeps : (s : State) (i : ℕ) → bad (flush s) ≡ false → bytes (flush s) i ≡ bytes s i
  pub flush_stores : (s : State) (i : ℕ) → bad (flush s) ≡ false → stored (flush s) i ≡ bytes s i
  pub close_bad : (s : State) → bad (close s) ≡ false → bad s ≡ false
  pub close_stores : (s : State) (i : ℕ) → bad (close s) ≡ false → stored (close s) i ≡ bytes s i
  pub seek_bad : (s : State) (pos : ℕ) → bad (seek s pos) ≡ false → bad s ≡ false
  pub seek_keeps :
      (s : State) (pos i : ℕ) → bad (seek s pos) ≡ false → bytes (seek s pos) i ≡ bytes s i
  pub seek_there : (s : State) (pos : ℕ) → bad (seek s pos) ≡ false → position (seek s pos) ≡ pos
  -- A stream that is bad stays so, and one that is good after a call has done it.
  pub read_bad :
      (s : State) (dat : Bytes) (to len : ℕ) → bad (read s dat to len).0 ≡ false → bad s ≡ false
  pub read_done :
      (s : State) (dat : Bytes) (to len i : ℕ)
      → bad (read s dat to len).0 ≡ false
      → (read s dat to len).1 i ≡ copy dat to (bytes s) (position s) len i
  pub read_keeps :
      (s : State) (dat : Bytes) (to len i : ℕ)
      → bad (read s dat to len).0 ≡ false
      → bytes (read s dat to len).0 i ≡ bytes s i
  pub write_bad :
      (s : State) (dat : Bytes) (from len : ℕ) → bad (write s dat from len) ≡ false → bad s ≡ false
  pub write_done :
      (s : State) (dat : Bytes) (from len i : ℕ)
      → bad (write s dat from len) ≡ false
      → bytes (write s dat from len) i ≡ copy (bytes s) (position s) dat from len i

module _ (K : Fstream) where
  -- The constructor: the size of the file, which is created if it is not there.
  unfoldable pub stl_open : K.State → K.State × ℕ
  stl_open s =
      let t = K.open_file s input in
      if K.is_open t then (t, K.tell_end t) else (K.open_file t output, 0)

  unfoldable pub stl_get : K.State → K.State
  stl_get s =
      let closed = if K.is_open s then K.close s else s in
      let opened = K.open_file closed both in
      if not (K.is_open s) || K.bad s
      then (if K.is_open opened then opened else K.open_file opened input)
      else s

  unfoldable pub stl_read : K.State → (dat : Bytes) → (to pos len : ℕ) → K.State × Bytes × Bool
  stl_read s dat to pos len =
      let r = K.read (K.seek (stl_get s) pos) dat to len in (r.0, r.1, not (K.bad r.0))

  unfoldable pub stl_write : K.State → (dat : Bytes) → (from pos len : ℕ) → K.State × Bool
  stl_write s dat from pos len =
      let t = K.write (K.seek (stl_get s) pos) dat from len in (t, not (K.bad t))

  -- The thread's stream has no error, or no file is open in it.
  abbrev pub IsUsable : K.State → Type 0
  IsUsable s = ((K.is_open s ≡ true) × (K.bad s ≡ false)) ⊎ (K.is_open s ≡ false)

  stl_get-keeps : (s : K.State) (i : ℕ) → IsUsable s → K.bytes (stl_get s) i ≡ K.bytes s i
  unfolding stl_get
  stl_get-keeps s i (inl (opened, good)) = rw (opened, good) refl
  stl_get-keeps s i (inr closed) = rw closed (elim (Bool-cases (K.is_open (K.open_file s both))) [
    | inl e ↦
        rw e
          (K.opened_sees s both i closed ∙ K.both_keeps s i closed ∙ sym (K.closed_sees s i closed))
    | inr e ↦ rw e (
        K.opened_sees (K.open_file s both) input i e
        ∙ K.input_keeps (K.open_file s both) i e
        ∙ K.both_keeps s i closed
        ∙ sym (K.closed_sees s i closed))
  ])

  module _ (s : K.State) (usable : IsUsable s) (dat : Bytes) (at pos len i : ℕ) where
    pub stl_read_done :
        (stl_read s dat at pos len).2 ≡ true
        → (stl_read s dat at pos len).1 i ≡ copy dat at (K.bytes s) pos len i
    unfolding stl_read
    stl_read_done ok =
        let t = K.seek (stl_get s) pos in
        ground (
          arith,
          K.read_bad t dat at len,
          K.read_done t dat at len i,
          K.seek_there (stl_get s) pos,
          K.seek_keeps (stl_get s) pos (pos + (i - at)),
          stl_get-keeps s (pos + (i - at)) usable,
        )

    pub stl_write_done :
        (stl_write s dat at pos len).1 ≡ true
        → K.bytes (stl_write s dat at pos len).0 i ≡ copy (K.bytes s) pos dat at len i
    unfolding stl_write
    stl_write_done ok =
        let t = K.seek (stl_get s) pos in
        ground (
          arith,
          K.write_bad t dat at len,
          K.write_done t dat at len i,
          K.seek_there (stl_get s) pos,
          K.seek_keeps (stl_get s) pos i,
          stl_get-keeps s i usable,
        )
