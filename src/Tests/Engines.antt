-- ===== src/Tests/Engines.antt =====
-- Tests of the engines over <cstdio> and std::fstream, and of the benchmark's file over a stream.
use aiotest.Prelude.{ℕ, if◌then◌else◌, ◌+◌, ◌≡◌, refl, Bool, true, false, some, arith}
use aiotest.Prelude.Bytes.{Bytes, copy}
use aiotest.Engine.Stdio.{Stdio}
use aiotest.Engine.Fstream.{Fstream}
use aiotest.Tests.{text}
use aiotest.Benchmark.Handle.{fresh}
use aiotest.Benchmark.Blocking.{StreamFile, stream_write, stream_read}
use aiotest.Tests.Files.{positions, settings}

-- A file with one stream that has a buffer: what it sees, and what is in the file.
pub record Stream : Type 0 where
  pub seen : Bytes
  pub contents : Bytes
  pub at : ℕ
  pub opened : Bool
  pub broken : Bool

-- Calls that always work; what is written comes into the file with a flush.
abbrev stdio : Stdio
stdio = record {
  State = Stream;
  bytes = λ s. s.seen;
  stored = λ s. s.contents;
  position = λ s file. s.at;
  fopen = λ s mode. (s, some 1);
  freopen = λ s mode file. (s, true);
  fclose = λ s file. record s { contents = s.seen };
  ferror = λ s file. false;
  fseek = λ s file pos. (record s { at = pos }, true);
  ftell_end = λ s file. (s, 100);
  fread = λ s file dat to len. (record s { at = s.at + len }, copy dat to s.seen s.at len, 1);
  fwrite = λ s file dat from len.
      (record s { seen = copy s.seen s.at dat from len; at = s.at + len }, 1);
  fflush = λ s file. (record s { contents = s.seen }, true);
  fopen_keeps = λ s i. refl;
  fseek_keeps = λ s file pos i ok. refl;
  fflush_stores = λ s file i ok. refl;
  fseek_there = λ s file pos ok. refl;
  fread_one = λ s file dat to len i one. refl;
  fwrite_one = λ s file dat from len i one. refl;
}

-- Calls that work on an open file; to write without one breaks the stream, and to open one mends it.
abbrev pub fstream : Fstream
fstream = record {
  State = Stream;
  bytes = λ s. if s.opened then s.seen else s.contents;
  stored = λ s. s.contents;
  position = λ s. s.at;
  is_open = λ s. s.opened;
  bad = λ s. s.broken;
  open_file = λ s mode.
      if s.opened
      then record s { broken = true }
      else record s { seen = s.contents; opened = true; broken = false };
  close = λ s.
      if s.opened
      then record s { contents = s.seen; opened = false }
      else record s { broken = true };
  seek = λ s pos. record s { at = pos };
  tell_end = λ s. 100;
  read = λ s dat to len. (
    record s { at = s.at + len },
    copy dat to (if s.opened then s.seen else s.contents) s.at len,
  );
  write = λ s dat from len.
      if s.opened
      then record s { seen = copy s.seen s.at dat from len; at = s.at + len }
      else record s { broken = true };
  flush = λ s. if s.opened then record s { contents = s.seen } else s;
  closed_sees = λ s i e. ground (arith, e);
  opened_sees = λ s mode i e. ground (arith, e);
  both_keeps = λ s i e. ground (arith, e);
  input_keeps = λ s i e. ground (arith, e);
  flush_bad = λ s ok. ground (arith, ok);
  flush_keeps = λ s i ok. ground (arith, ok);
  flush_stores = λ s i ok. ground (arith, ok);
  close_bad = λ s ok. ground (arith, ok);
  close_stores = λ s i ok. ground (arith, ok);
  seek_bad = λ s pos ok. ok;
  seek_keeps = λ s pos i ok. refl;
  seek_there = λ s pos ok. refl;
  read_bad = λ s dat to len ok. ok;
  read_done = λ s dat to len i ok. refl;
  read_keeps = λ s dat to len i ok. refl;
  write_bad = λ s dat from len ok. ground (arith, ok);
  write_done = λ s dat from len i ok. ground (arith, ok);
}

abbrev pub at_start : Stream
at_start = record { seen = positions; contents = positions; at = 0; opened = false; broken = false }

abbrev unopened : StreamFile fstream
unopened = record { handle = fresh; stream = at_start }

-- Its stream is good at the end.
session_ends :
    (stream_read fstream settings
      (stream_write fstream settings (record at_start { opened = true }) 64 text)
      66
      text).0.broken
    ≡ false
unfolding stream_read stream_write
session_ends = refl
