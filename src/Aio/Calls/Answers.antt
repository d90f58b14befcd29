-- ===== src/Aio/Calls/Answers.antt =====
-- What the calls of include/backup/aio.hpp answer, from the submission of a request to its return.
use aiotest.Prelude.{
  ℕ, ◌≡◌, Bool, true, false, ◌||◌, Option, none, some, List, [], ◌∷◌, if◌then◌else◌,
}
use aiotest.Request.{Request, State, running, failed, rejected, done, fail, notify, default_request}
use aiotest.Tree.{Task}
use aiotest.Tree.Submission.{answered}
use aiotest.Aio.{Registry, translate}
use aiotest.Aio.Calls.{Aiocb, aio_error, aio_return, aio_wait, put_queue}

-- What the tasks of a request do to it between two polls: one of them may fail.
abbrev pub interval : (bad : Bool) → Request → Request
interval bad r = if bad then fail r else r

-- The intervals between the polls of a wait; in the last one the request is notified.
abbrev pub intervals : List Bool → (last : Bool) → List (Request → Request)
intervals [] last = (λ r. (notify (interval last r)).0) ∷ []
intervals (b ∷ bs) last = interval b ∷ intervals bs last

abbrev pub some_bad : List Bool → (last : Bool) → Bool
some_bad [] last = last
some_bad (b ∷ bs) last = b || some_bad bs last

-- The state that a wait ends in, by the state at the submission.
abbrev pub verdict : State → List Bool → (last : Bool) → State
verdict running bs last = if some_bad bs last then failed else done
verdict other bs last = other

abbrev pub is_refused : State → Bool
is_refused running = false
is_refused failed = true
is_refused rejected = true
is_refused done = false

abbrev going : (bad : Bool) → Request
going bad = record default_request { has_failed = bad }

abbrev ended : (bad : Bool) → Request
ended bad = record (going bad) { state = if bad then failed else done }

abbrev finished : State → List Bool → (last : Bool) → Request
finished running bs last = ended (some_bad bs last)
finished other bs last = answered other

module _ {Tree A : Type 0} (worker_of : Tree → ℕ) (s : Registry Tree) (tree : Tree) (cb : Aiocb A)
    (queues : ℕ → List (Task A)) (bs : List Bool) (last : Bool) where
  abbrev held : Request → Aiocb A
  held io = record cb { io = some io }

  -- A call that has queued its work on the worker of the tree, with the state of its request: whether it
  -- reports an error, what aio_error says then, what aio_wait and then aio_return say, and that the
  -- control block has no request in the end.
  abbrev pub Answers :
      Option ((ℕ → List (Task A)) × Aiocb A × Bool) → (List (Task A) × State) → Type 0
  Answers call (queue, p) =
      (call
        ≡ some (put_queue worker_of queues (worker_of tree) queue, held (answered p), is_refused p))
      × (aio_error (held (answered p)) ≡ some (held (answered p), translate p))
      × (c : Aiocb A) × (aio_wait (held (answered p)) (intervals bs last)
          ≡ some (c, translate (verdict p bs last)))
      × (aio_return c ≡ some (record cb { io = none }, translate (verdict p bs last)))
