-- ===== src/Tests/Requests.antt =====
-- Tests of the requests.
use aiotest.Prelude.{◌≡◌, true, false, List, [], ◌∷◌, arith}
use aiotest.Request.{failed, by_lock, new_request, poll}
use aiotest.Request.Completion.{Event, split, finish, Tasks, stop, splits, finishes, run, poll-run}

-- A request split in two, of which one half fails.
abbrev one_fails : List Event
one_fails = split 1 ∷ finish true ∷ finish false ∷ []

one_fails-Tasks : Tasks 1 one_fails 0
one_fails-Tasks =
    splits (omega arith) (omega arith) (finishes (omega arith) (finishes (omega arith) stop))

poll-run_example :
    let p = poll (run (new_request by_lock false) one_fails) in (p.1 ≡ failed) × ((p.0).state ≡ p.1)
poll-run_example = poll-run false one_fails-Tasks
