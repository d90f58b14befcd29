-- ===== src/Engine/Agreement.antt =====
-- The engines over the system, <cstdio> and std::fstream side by side.
use aiotest.Prelude.Bytes.{Bytes}
use aiotest.Engine.Stdio.{Stdio}
use aiotest.Engine.Fstream.{Fstream}
