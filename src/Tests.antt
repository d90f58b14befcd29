-- ===== src/Tests.antt =====
-- Inputs for the tests: a disk that never fails, and a node of 8 bytes at 8.
mod Nodes
mod Inner
mod Requests
mod Rounds
mod Files
mod Collector
mod Engines
mod Trees
mod Driver
mod Machine
mod Siblings
use aiotest.Prelude.{ℕ, ◌+◌, ◌≤◌, ◌<◌, ◌≡◌, ◌⊎◌, refl, Bool, true, false, arith, []}
use aiotest.Prelude.Bytes.{Bytes, copy}
use aiotest.Engine.{Engine}
use aiotest.Cache.{Cell, above}
use aiotest.Cache.View.{IsCoherent, InPage}
use aiotest.Controller.{Limits}

pub copy_out :
    (dat : Bytes) (to : ℕ) (f : Bytes) (pos len i : ℕ)
    → (i < to) ⊎ (to + len ≤ i)
    → copy dat to f pos len i ≡ dat i
copy_out dat to f pos len i out = ground arith

abbrev pub disk : Engine
disk = record {
  File = Bytes;
  bytes = λ f. f;
  read = λ f dat to pos len. (copy dat to f pos len, true);
  write = λ f dat from pos len. (copy f pos dat from len, true);
  read_done = λ f dat to pos len i ok. refl;
  read_out = λ f dat to pos len i out. copy_out dat to f pos len i out;
  write_done = λ f dat from pos len i ok. refl;
  write_out = λ f dat from pos len i out. copy_out f pos dat from len i out;
}

-- The file holds its positions; the cache holds the first 4 bytes, each 100 larger.
abbrev pub dirty_node : Cell disk
dirty_node = record {
  offset = 8;
  parent = above;
  cached = true;
  memory = λ i. i + 108;
  effective = 4;
  dirty = true;
  unlocks = 0;
  file = λ i. i;
  size = 16;
  failed = false;
  io_failed = false;
  io_unlocks = 0;
  used = 8;
  queued = 1;
}

pub dirty_node-IsCoherent : IsCoherent 3 dirty_node
dirty_node-IsCoherent = record {
  aligned = refl;
  room = omega arith;
  fits = omega arith;
  owned = λ c. ground arith;
  clean = λ d i lt. ground arith;
}

-- The positions 10 to 13, of which two are cached.
pub inner_range : InPage 3 dirty_node 10 14
inner_range = record {
  low = omega arith;
  order = omega arith;
  high = omega arith;
  word = omega arith;
}

-- What the caller writes.
abbrev pub text : Bytes
text i = i + 200

abbrev pub roomy : Limits
roomy = record { lower = 1024; upper = 4096 }
