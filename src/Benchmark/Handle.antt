-- ===== src/Benchmark/Handle.antt =====
-- RandomWrite::openfile and closefile of include/iotest.hpp, which FstreamWrite repeats: one file opened
-- by many threads. `none` in `fd` is -1; what open() returns is an argument. Each call is cut where
-- other threads may come between: the count first, then the opening by the thread that was first.
use Prim.{absurd}
use aiotest.Prelude.{
  ℕ, zero, suc, ◌+◌, ◌-◌, ◌^◌, ◌≤◌, ◌≡◌, refl, ap, ◌∙◌, Bool, true, false, Option, none, some, ◌==◌,
  if◌then◌else◌, arith,
}

pub record Handle : Type 0 where
  pub fd : Option ℕ
  pub opencnt : ℕ
  pub opened : Bool

abbrev pub fresh : Handle
fresh = record { fd = none; opencnt = 0; opened = false }

-- `opencnt.fetch_add(1)`, and whether this thread is the first.
unfoldable pub enter : Handle → Handle × Bool
enter h = (record h { opencnt = h.opencnt + 1 }, h.opencnt == 0)

unfoldable pub finish_open : Handle → (fd : Option ℕ) → Handle
finish_open h fd = record h { fd = fd; opened = true }

-- The whole call, with no other thread between; `none` is a wait that never ends.
unfoldable pub openfile : Handle → (fd : Option ℕ) → Option Handle
openfile h fd =
    let (h', first) = enter h in
    if first then some (finish_open h' fd) else (if h'.opened then some h' else none)

-- `opencnt.fetch_sub(1)`, as a 64-bit word.
abbrev pub decrement : ℕ → ℕ
decrement zero = 2 ^ 64 - 1
decrement (suc c) = c

-- The calls of syncop and cleanup before it leave the handle alone. `resets` says whether `fd` is set
-- to -1 after close(), which FstreamWrite does not do.
unfoldable pub closefile : (resets : Bool) → Handle → Handle
closefile resets h =
    let h' : Handle = record h { opencnt = decrement h.opencnt } in
    if h'.opencnt == 0 then (if resets then record h' { fd = none } else h') else h'

opens : ℕ → (fd : Option ℕ) → Handle → Option Handle
opens zero fd h = some h
opens (suc k) fd h = elim (openfile h fd) [ none ↦ none | some h' ↦ opens k fd h' ]

closes : ℕ → Handle → Handle
closes zero h = h
closes (suc k) h = closes k (closefile true h)

abbrev held : (fd : Option ℕ) → (opencnt : ℕ) → Handle
held fd c = record { fd = fd; opencnt = c; opened = true }

openfile-held :
    (fd fd' : Option ℕ) (c : ℕ) → openfile (held fd (suc c)) fd' ≡ some (held fd (suc (suc c)))
unfolding openfile enter
openfile-held fd fd' c =
    let later : (suc c == 0) ≡ false = ground arith in
    let count : suc c + 1 ≡ suc (suc c) = omega arith in rw (later, count) refl

opens-held :
    (k : ℕ) (fd fd' : Option ℕ) (c : ℕ)
    → opens k fd' (held fd (suc c)) ≡ some (held fd (suc (c + k)))
unfolding opens
opens-held zero fd fd' c = ap (λ t. some (held fd t)) (omega arith)
opens-held (suc k) fd fd' c =
    rw (openfile-held fd fd' c, opens)
      (opens-held k fd fd' (suc c) ∙ ap (λ t. some (held fd t)) (omega arith))

closefile-held : (fd : Option ℕ) (c : ℕ) → closefile true (held fd (suc (suc c))) ≡ held fd (suc c)
unfolding closefile
closefile-held fd c = let later : (suc c == 0) ≡ false = ground arith in rw later refl

closes-held : (j n : ℕ) (fd : Option ℕ) → j ≤ n → closes j (held fd (suc n)) ≡ held fd (suc n - j)
unfolding closes
closes-held zero n fd h = ap (held fd) (omega arith)
closes-held (suc j) zero fd h = absurd (omega (arith, h))
closes-held (suc j) (suc n) fd h =
    rw (closefile-held fd n) (closes-held j n fd (omega (arith, h)) ∙ ap (held fd) (omega arith))

closes-all : (n : ℕ) (fd : Option ℕ) → closes (suc n) (held fd (suc n)) ≡ held none 0
unfolding closes closefile
closes-all zero fd = refl
closes-all (suc n) fd = rw (closefile-held fd n) (closes-all n fd)

-- A fresh handle that `n + 1` calls of openfile opened, one after another, has the file that the first
-- of them opened. It keeps it while at most `n` calls of closefile are made, and the next one closes it:
-- the handle is then as at first, except that `opened` stays set.
opens-closes :
    (j n : ℕ) (fd : Option ℕ)
    → j ≤ n
    → let open_handle : Handle = record { fd = fd; opencnt = suc n; opened = true } in
      (opens (suc n) fd fresh ≡ some open_handle)
      × (closes j open_handle ≡ record open_handle { opencnt = suc n - j })
      × (closes (suc n) open_handle ≡ record fresh { opened = true })
unfolding opens openfile enter finish_open
opens-closes j n fd h = (
  opens-held n fd fd 0 ∙ ap (λ t. some (held fd (suc t))) (omega arith),
  closes-held j n fd h,
  closes-all n fd,
)

-- Two threads open a handle, and the second calls openfile while the first, which has counted itself,
-- has not opened the file yet. On a fresh handle the second one waits. On a handle that `n + 1` threads
-- held before and closed, it returns at once, without a file.
reopen-early :
    (n : ℕ) (fd fd' : Option ℕ)
    → let closed : Handle = closes (suc n) (record { fd = fd; opencnt = suc n; opened = true }) in
      (openfile (enter fresh).0 fd' ≡ none)
      × (openfile (enter closed).0 fd' ≡ some (record { fd = none; opencnt = 2; opened = true }))
unfolding openfile enter
reopen-early n fd fd' = (refl, ap (λ h. openfile (enter h).0 fd') (closes-all n fd))
