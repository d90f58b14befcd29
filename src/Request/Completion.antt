-- ===== src/Request/Completion.antt =====
-- When a request of the Lock method completes: when the last of the tasks that work on it is done.
use aiotest.Prelude.{
  ℕ, ◌+◌, ◌-◌, ◌^◌, ◌<◌, ◌≡◌, refl, Bool, true, false, ◌||◌, List, [], ◌∷◌, ◌==◌, arith,
  if◌then◌else◌,
}
use aiotest.Request.{
  Request, running, failed, done, by_lock, timing, lock, unlock, locked, fail, new_request, notify,
  poll,
}

-- What a task does to its request: an inner node replaces itself by `k + 1` tasks, a leaf ends, and
-- may have failed.
pub data Event : Type 0 where
  split : (k : ℕ) → Event
  finish : (ok : Bool) → Event

pub step : Request → Event → Request
step r (split k) = (lock r k).0
step r (finish true) = (unlock r 1).0
step r (finish false) = (unlock (fail r) 1).0

pub run : Request → List Event → Request
run r [] = r
run r (e ∷ es) = run (step r e) es

-- The tasks at work, before and after the events; only a task at work has events, and their number
-- fits a word.
pub data Tasks : ℕ → List Event → ℕ → Type 0 where
  stop : {w : ℕ} → Tasks w [] w
  splits :
      {w w' : ℕ} {k : ℕ} {es : List Event}
      → 0 < w
      → w + k < 2 ^ 64
      → Tasks (w + k) es w'
      → Tasks w (split k ∷ es) w'
  finishes :
      {w w' : ℕ} {ok : Bool} {es : List Event}
      → 0 < w
      → Tasks (w - 1) es w'
      → Tasks w (finish ok ∷ es) w'

abbrev pub some_failed : List Event → Bool
some_failed [] = false
some_failed (split k ∷ es) = some_failed es
some_failed (finish true ∷ es) = some_failed es
some_failed (finish false ∷ es) = true

record IsAt (w : ℕ) (bad : Bool) (r : Request) : Type 0 where
  method : r.method ≡ by_lock
  live : r.state ≡ running
  count : r.dep ≡ w
  word : w < 2 ^ 64
  flag : r.has_failed ≡ bad

run-IsAt :
    {w w' : ℕ} {es : List Event} (bad : Bool) (r : Request)
    → Tasks w es w'
    → IsAt w bad r
    → IsAt w' (bad || some_failed es) (run r es)
unfolding run step lock unlock fail
run-IsAt bad r stop a = ground arith
run-IsAt bad r (splits {k = k} pos fits t) a = run-IsAt bad (step r (split k)) t (ground arith)
run-IsAt bad r (finishes {ok = true} pos t) a = run-IsAt bad (step r (finish true)) t (ground arith)
run-IsAt bad r (finishes {ok = false} {es = es} pos t) a =
    let b = run-IsAt true (step r (finish false)) t (ground arith) in ground arith

start-IsAt : (partial : Bool) → IsAt 1 false (new_request by_lock partial)
unfolding new_request lock
start-IsAt partial = ground arith

-- A poll of a fresh request of the Lock method, after any events of its tasks that keep their
-- number below 2^64, answers that it is running as long as a task is at work. When none is, it
-- answers and records that the request has failed, if a task has, and that it is done, if none
-- has.
pub poll-run :
    (partial : Bool) {w : ℕ} {es : List Event}
    → Tasks 1 es w
    → let p = poll (run (new_request by_lock partial) es) in
      (p.1 ≡ (if w == 0 then (if some_failed es then failed else done) else running))
      × ((p.0).state ≡ p.1)
unfolding poll locked notify
poll-run partial t =
    let a = run-IsAt false (new_request by_lock partial) t (start-IsAt partial) in
    (ground arith, ground arith)

timing_run :
    (es : List Event) (r : Request)
    → r.method ≡ timing
    → r.state ≡ running
    → r.dep ≡ 0
    → let t = run r es in (t.method ≡ timing) × (t.state ≡ running) × (t.dep ≡ 0)
unfolding run step lock unlock fail
timing_run [] r m s d = (m, s, d)
timing_run (split k ∷ es) r m s d =
    timing_run es (step r (split k)) (ground arith) (ground arith) (ground arith)
timing_run (finish true ∷ es) r m s d =
    timing_run es (step r (finish true)) (ground arith) (ground arith) (ground arith)
timing_run (finish false ∷ es) r m s d =
    timing_run es (step r (finish false)) (ground arith) (ground arith) (ground arith)

-- A poll of a fresh request of the Timing method changes nothing and answers that it is running,
-- whatever its tasks have done: only `notify`, or a rejection, ends such a request.
poll-run_timing :
    (partial : Bool) (es : List Event)
    → let r = run (new_request timing partial) es in (poll r ≡ (r, running)) × (r.dep ≡ 0)
unfolding poll
poll-run_timing partial es =
    let s =
      timing_run es (new_request timing partial) (unfold new_request in refl)
        (unfold new_request in refl) (unfold new_request in refl) in
    (ground arith, s.2)
