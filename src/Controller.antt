-- ===== src/Controller.antt =====
-- include/backup/Controller.hpp and src/backup/Controller.cpp: the memory budget, the flush switch
-- that the workers share, and the number of workers. Its destructor stands with the workers.
use aiotest.Prelude.{ℕ, ◌^◌, ◌&&◌, Bool, true, false, ltb, leb, if◌then◌else◌}
use aiotest.Prelude.Word.{add64}

pub data Usage : Type 0 where
  empty low high full : Usage

-- GC goes down to `lower`; no cache is allocated at `upper` or beyond.
pub record Limits : Type 0 where
  pub lower : ℕ
  pub upper : ℕ

unfoldable pub usage : Limits → (used alloc : ℕ) → Usage
usage c used alloc =
    let space = add64 used alloc in
    if leb c.upper space
    then full
    else if ltb c.lower space
    then high
    else if ltb 0 space
    then low
    else empty

abbrev pub is_full : Usage → Bool
is_full full = true
is_full _ = false

-- How many workers the constructor makes, of `con` and the number of hardware threads, both as words of 64
-- bits: a `con` that is not positive is counted from that number.
unfoldable pub concurrency : (con hardware : ℕ) → ℕ
concurrency con hardware = add64 con (if ltb 0 con && ltb con (2 ^ 63) then 0 else hardware)

-- The flush switch is an atomic flag: `flush` sets it and returns what it was.
unfoldable pub flush : (flushing : Bool) → Bool × Bool
flush flushing = (true, flushing)
