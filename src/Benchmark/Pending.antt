-- ===== src/Benchmark/Pending.antt =====
-- LibAIOWrite of include/iotest.hpp: the requests that threads hand to the kernel on one shared context,
-- and the waits for them. `cbs` is the number of control blocks that each thread holds. The mutex
-- makes each operation one step; submissions that the kernel refuses end the program.
use aiotest.Prelude.{ℕ, ◌+◌, ◌≡◌, List, [], ◌∷◌, ◌==◌, if◌then◌else◌, arith}

pub record Context : Type 0 where
  pub cbs : (tid : ℕ) → ℕ
  pub cnt : ℕ

abbrev pub set_cbs : (ℕ → ℕ) → (tid : ℕ) → ℕ → ℕ → ℕ
set_cbs cbs tid k = λ i. if i == tid then k else cbs i

-- `writeop` and `readop`
unfoldable pub submit : Context → (tid : ℕ) → Context
submit c tid = record c { cbs = set_cbs c.cbs tid (c.cbs tid + 1); cnt = c.cnt + 1 }

unfoldable pub reset_cb : Context → (tid : ℕ) → Context
reset_cb c tid = record c { cbs = set_cbs c.cbs tid 0 }

-- `wait_cb`, which `busywait_cb`, `syncop` and `cleanup` call: how many completions it waits for, too.
unfoldable pub wait_cb : Context → (tid : ℕ) → Context × ℕ
wait_cb c tid = (reset_cb (record c { cnt = 0 }) tid, c.cnt)

-- What the threads do, in the order of the mutex.
pub data Call : Type 0 where
  submits waits : (tid : ℕ) → Call

abbrev pub submissions : List Call → ℕ
submissions [] = 0
submissions (submits tid ∷ es) = 1 + submissions es
submissions (waits tid ∷ es) = submissions es

-- The context after the calls, and how many completions were waited for.
pub calls : Context → List Call → Context × ℕ
calls c [] = (c, 0)
calls c (submits tid ∷ es) = calls (submit c tid) es
calls c (waits tid ∷ es) =
    let w = wait_cb c tid in let rest = calls w.0 es in (rest.0, w.1 + rest.1)

-- However the calls of the threads follow one another, each submission is waited for once or still
-- counted, and so is what the counter, which no constructor sets, held at first.
calls-count :
    (c : Context) (es : List Call) → (calls c es).1 + ((calls c es).0).cnt ≡ c.cnt + submissions es
unfolding calls submit wait_cb reset_cb
calls-count c [] = omega arith
calls-count c (submits tid ∷ es) = omega (arith, calls-count (submit c tid) es)
calls-count c (waits tid ∷ es) = omega (arith, calls-count (wait_cb c tid).0 es)
