-- ===== src/Engine/Stdio.antt =====
-- CEngine of include/backup/IOEngine.hpp and src/backup/IOEngine.cpp. The calls of <cstdio> are a
-- parameter, as far as they are about the engine's path and the streams of one thread. A FILE* that is
-- null is `none`.
use aiotest.Prelude.{
  ℕ, ◌+◌, ◌-◌, ◌≡◌, refl, ap, ◌∙◌, Bool, true, false, ◌==◌, Option, none, some, List, [], ◌∷◌,
  if◌then◌else◌, arith,
}
use aiotest.Prelude.Bytes.{Bytes, copy}

-- "rb", "wb", "r+b" and "w+b"
pub data Mode : Type 0 where
  reading writing updating truncating : Mode

pub record Stdio : Type 1 where
  pub State : Type 0
  -- The contents of the file, as the stream sees them, with what stands in its buffer.
  pub bytes : State → Bytes
  -- The contents of the file itself, which others see.
  pub stored : State → Bytes
  -- The position of a stream
  pub position : State → (file : ℕ) → ℕ
  pub fopen : State → Mode → State × Option ℕ
  -- whether freopen(nullptr, mode, file) is not null
  pub freopen : State → Mode → (file : ℕ) → State × Bool
  pub fclose : State → (file : ℕ) → State
  pub ferror : State → (file : ℕ) → Bool
  -- whether fseek(file, pos, SEEK_SET) returned 0
  pub fseek : State → (file pos : ℕ) → State × Bool
  -- fseek(file, 0, SEEK_END), and what ftell then returns
  pub ftell_end : State → (file : ℕ) → State × ℕ
  -- fread(dat, len, 1, file) and fwrite(dat, len, 1, file), with the number of items
  pub fread : State → (file : ℕ) → (dat : Bytes) → (to len : ℕ) → State × Bytes × ℕ
  pub fwrite : State → (file : ℕ) → (dat : Bytes) → (from len : ℕ) → State × ℕ
  -- whether fflush returned 0
  pub fflush : State → (file : ℕ) → State × Bool
  -- Opening for an update leaves the file as it is. A seek or a flush that works loses nothing, and behind
  -- such a flush all that the stream sees is in the file.
  pub fopen_keeps : (s : State) (i : ℕ) → bytes (fopen s updating).0 i ≡ bytes s i
  pub fseek_keeps :
      (s : State) (file pos i : ℕ)
      → (fseek s file pos).1 ≡ true
      → bytes (fseek s file pos).0 i ≡ bytes s i
  pub fflush_stores :
      (s : State) (file i : ℕ) → (fflush s file).1 ≡ true → stored (fflush s file).0 i ≡ bytes s i
  pub fseek_there :
      (s : State) (file pos : ℕ)
      → (fseek s file pos).1 ≡ true
      → position (fseek s file pos).0 file ≡ pos
  -- An item that was read or written has been moved whole, at the position of the stream.
  pub fread_one :
      (s : State) (file : ℕ) (dat : Bytes) (to len i : ℕ)
      → (fread s file dat to len).2 ≡ 1
      → (fread s file dat to len).1 i ≡ copy dat to (bytes s) (position s file) len i
  pub fwrite_one :
      (s : State) (file : ℕ) (dat : Bytes) (from len i : ℕ)
      → (fwrite s file dat from len).1 ≡ 1
      → bytes (fwrite s file dat from len).0 i ≡ copy (bytes s) (position s file) dat from len i

-- Copies from and onto the same bytes.
pub copy_same :
    (dst : Bytes) (to from len : ℕ) {f g : Bytes}
    → ((i : ℕ) → f i ≡ g i)
    → (i : ℕ) → copy dst to f from len i ≡ copy dst to g from len i
copy_same dst to from len h i = ground (arith, h (from + (i - to)))

pub copy_onto :
    (to : ℕ) (src : Bytes) (from len : ℕ) {f g : Bytes}
    → ((i : ℕ) → f i ≡ g i)
    → (i : ℕ) → copy f to src from len i ≡ copy g to src from len i
copy_onto to src from len h i = ground (arith, h i)

module _ (K : Stdio) where
  -- The constructor: the size of the file. The source calls ferror on a null pointer if the file cannot be
  -- opened for reading; that is `none`.
  unfoldable pub c_open : K.State → Option (K.State × ℕ)
  c_open s =
      let o = K.fopen s reading in
      elim o.1 [
        | none ↦ none
        | some file ↦
            if K.ferror o.0 file
            then elim (K.fopen o.0 writing).1 [
              | none ↦ none
              | some again ↦ some (K.fclose (K.fopen o.0 writing).0 again, 0)
            ]
            else some (K.fclose (K.ftell_end o.0 file).0 file, (K.ftell_end o.0 file).1)
      ]

  -- The last lines of `get`.
  unfoldable pub open_anew : K.State → K.State × Option ℕ
  open_anew s =
      let a = K.fopen s updating in
      let b = K.fopen a.0 reading in
      elim a.1 [ some file ↦ a | none ↦ elim b.1 [ some file ↦ b | none ↦ K.fopen b.0 truncating ] ]

  -- `freopen(nullptr, "r+b", file) || freopen(nullptr, "rb", file) || freopen(nullptr, "w+b", file)`
  unfoldable pub reopen : K.State → (file : ℕ) → K.State × Bool
  reopen s file =
      let a = K.freopen s updating file in
      let b = K.freopen a.0 reading file in
      if a.1 then a else if b.1 then b else K.freopen b.0 truncating file

  -- `get`, with what stands in the thread's slot of `files`. The result stands there afterwards.
  unfoldable pub get : K.State → (slot : Option ℕ) → K.State × Option ℕ
  get s none = open_anew s
  get s (some file) =
      let r = reopen s file in
      if K.ferror s file
      then (if r.1 then (r.0, some file) else open_anew (K.fclose r.0 file))
      else (s, some file)

  -- What follows `get`, on a stream.
  unfoldable pub read_at :
      K.State → (file : ℕ) → (dat : Bytes) → (to pos len : ℕ) → K.State × Bytes × Bool
  read_at s file dat to pos len =
      let k = K.fseek s file pos in
      let r = K.fread k.0 file dat to len in if k.1 then (r.0, r.1, r.2 == 1) else (k.0, dat, false)

  unfoldable pub write_at :
      K.State → (file : ℕ) → (dat : Bytes) → (from pos len : ℕ) → K.State × Bool
  write_at s file dat from pos len =
      let k = K.fseek s file pos in
      let w = K.fwrite k.0 file dat from len in
      if k.1 then (if w.1 == 1 then K.fflush w.0 file else (w.0, false)) else (k.0, false)

  -- The result of `get` goes on to a stream; `none` is a call on a null pointer.
  abbrev pub on_stream {ℓ} :
      {A : Type ℓ} → (K.State → (file : ℕ) → A) → K.State × Option ℕ → Option A
  on_stream f (s, none) = none
  on_stream f (s, some file) = some (f s file)

  unfoldable pub c_read :
      K.State
      → (slot : Option ℕ) → (dat : Bytes) → (to pos len : ℕ) → Option (K.State × Bytes × Bool)
  c_read s slot dat to pos len = on_stream (λ t file. read_at t file dat to pos len) (get s slot)

  unfoldable pub c_write :
      K.State → (slot : Option ℕ) → (dat : Bytes) → (from pos len : ℕ) → Option (K.State × Bool)
  c_write s slot dat from pos len =
      on_stream (λ t file. write_at t file dat from pos len) (get s slot)

  -- The destructor closes the streams that are there.
  unfoldable pub c_close : K.State → List (Option ℕ) → K.State
  c_close s [] = s
  c_close s (none ∷ files) = c_close s files
  c_close s (some file ∷ files) = c_close (K.fclose s file) files

  -- The thread has a stream without an error, or none yet and the file can be opened for an update.
  abbrev pub IsReady : K.State → (slot : Option ℕ) → Type 0
  IsReady s none = (file : ℕ) × ((K.fopen s updating).1 ≡ some file)
  IsReady s (some file) = K.ferror s file ≡ false

  -- Then `get` gives a stream and leaves the file alone.
  record Got (s : K.State) (slot : Option ℕ) : Type 0 where
    state : K.State
    file : ℕ
    result : get s slot ≡ (state, some file)
    keeps : (i : ℕ) → K.bytes state i ≡ K.bytes s i

  get_ready : (s : K.State) (slot : Option ℕ) → IsReady s slot → Got s slot
  unfolding get open_anew
  get_ready s (some file) ok = record {
    state = s;
    file = file;
    result = rw (ok, get) refl;
    keeps = λ i. refl;
  }
  get_ready s none (file, e) = record {
    state = (K.fopen s updating).0;
    file = file;
    result = rw (e, open_anew) (ap (λ o. ((K.fopen s updating).0, o)) e);
    keeps = K.fopen_keeps s;
  }

  module _ (s : K.State) (file : ℕ) (dat : Bytes) (at pos len i : ℕ) where
    read_at_lem :
        (read_at s file dat at pos len).2 ≡ true
        → (read_at s file dat at pos len).1 i ≡ copy dat at (K.bytes s) pos len i
    unfolding read_at
    read_at_lem ok =
        let t = (K.fseek s file pos).0 in
        ground (
          arith,
          K.fseek_there s file pos,
          K.fread_one t file dat at len i,
          K.fseek_keeps s file pos (pos + (i - at)),
        )

    write_at_lem :
        (write_at s file dat at pos len).1 ≡ true
        → K.stored (write_at s file dat at pos len).0 i ≡ copy (K.bytes s) pos dat at len i
    unfolding write_at
    write_at_lem ok =
        let t = (K.fseek s file pos).0 in
        ground (
          arith,
          K.fseek_there s file pos,
          K.fwrite_one t file dat at len i,
          K.fflush_stores (K.fwrite t file dat at len).0 file i,
          K.fseek_keeps s file pos i,
        )

  module _ (s : K.State) (slot : Option ℕ) (dat : Bytes) (at pos len : ℕ)
      (ready : IsReady s slot) where
    pub c_read_done :
        (r : K.State × Bytes × Bool) × (c_read s slot dat at pos len ≡ some r)
        × (r.2 ≡ true → (i : ℕ) → r.1 i ≡ copy dat at (K.bytes s) pos len i)
    unfolding c_read
    c_read_done =
        let g = get_ready s slot ready in
        (
          read_at g.state g.file dat at pos len,
          ap (on_stream (λ t file. read_at t file dat at pos len)) g.result,
          λ ok i.
              read_at_lem g.state g.file dat at pos len i ok ∙ copy_same dat at pos len g.keeps i,
        )

    pub c_write_done :
        (r : K.State × Bool) × (c_write s slot dat at pos len ≡ some r)
        × (r.1 ≡ true → (i : ℕ) → K.stored r.0 i ≡ copy (K.bytes s) pos dat at len i)
    unfolding c_write
    c_write_done =
        let g = get_ready s slot ready in
        (
          write_at g.state g.file dat at pos len,
          ap (on_stream (λ t file. write_at t file dat at pos len)) g.result,
          λ ok i.
              write_at_lem g.state g.file dat at pos len i ok ∙ copy_onto pos dat at len g.keeps i,
        )
